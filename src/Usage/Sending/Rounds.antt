-- ===== src/Usage/Sending/Rounds.antt =====
-- A round of `dispatchBatch` of cmd/usage/main.go against the rows of the webhook outbox.
use mathlib.Core.Path.{subst}
use sde_thp.Prelude.{
  ℕ, ◌≤◌, ◌+◌, ◌≡◌, refl, sym, ap, inl, inr, true, false, String, none, List, [], ◌∷◌, All, All-map,
  Distinct, Distinct-same, Extends-refl, update_where, leb, ◌==◌, eq_flip, arith, Bool-cases,
  Option-cases, and-elim,
}
use sde_thp.Database.{
  Database, WebhookRow, WebhookStatus, webhook_pending, webhook_in_flight, webhook_delivered,
  webhook_dead_lettered,
}
use sde_thp.Effect.{exec}
use sde_thp.Effect.Hoare.{
  Hoare, Keeps, Hoare-bind, Hoare-exec, Hoare-pure, Keeps-bind, Keeps-pure, wrote,
}
use sde_thp.Effect.Steps.{transaction_at, exec_at}
use sde_thp.Operations.Outbox.{HttpResult}
use sde_thp.Operations.Safety.{Keeps-ignore}
use sde_thp.Usage.Deliveries.{
  Delivery, delivery_of, delivery_error, pick, is_picked, is_waiting, is_in_flight, is_sent,
  set_in_flight, update_webhook, set_delivered, set_dead_lettered, set_postponed, settle_delivery,
  deliver, deliver_all, dispatch_batch,
}
use sde_thp.Usage.Sending.{
  IsFor, Progress, Progress-refl, Progressed, IsBounded, Extends-updated, Extends-struck, same_id,
  is_open,
}
use sde_thp.Usage.Sending.Picking.{is_picked-waiting, picked-IsFor}

in_flight-open : (s : WebhookStatus) → is_in_flight s ≡ true → is_open s ≡ true
unfolding is_in_flight
in_flight-open webhook_pending h = refl
in_flight-open webhook_in_flight h = refl
in_flight-open webhook_delivered h = cc
in_flight-open webhook_dead_lettered h = cc

waiting-open : (s : WebhookStatus) → is_waiting s ≡ true → is_open s ≡ true
unfolding is_waiting
waiting-open webhook_pending h = refl
waiting-open webhook_in_flight h = cc
waiting-open webhook_delivered h = cc
waiting-open webhook_dead_lettered h = cc

module _ (start : Database) (sign : String → String → String)
    (post : Delivery → String → HttpResult) where
  abbrev Moves : WebhookRow → WebhookRow → Type 0
  Moves = Progress start sign post

  abbrev Kept : Database → Type 0
  Kept = Progressed start sign post

  -- The row that the UPDATE after a delivery strikes is the row of the delivery.
  module _ (x : Delivery) (o o' : WebhookRow) (k : o.id == x.id ≡ true → IsFor start o x)
      (h : Moves o o') (e : is_sent x.id o' ≡ true) where
    struck : IsFor start o x
    unfolding is_sent
    struck = k (
        subst (λ (id : String). id == x.id ≡ true) (ap (λ (z : WebhookRow). z.id) h.same)
          (and-elim _ _ e).0)

    struck-left : IsBounded o → o'.attempt ≤ 7
    unfolding is_sent
    struck-left b = (h.bounded b).left (in_flight-open o'.status (and-elim _ _ e).1)

    attempt-left : IsBounded o → x.attempt ≤ 7
    unfolding delivery_of
    attempt-left b =
        let l = b.left (waiting-open o.status struck.waiting) in
        let same : x.attempt ≡ o.attempt = ap (λ (z : Delivery). z.attempt) struck.made in
        omega (arith, l, same)

    idle_struck : {B : Type 0} → is_waiting o.status ≡ false → B
    idle_struck i = let w = struck.waiting in cc

    delivered :
        (now : ℕ)
        → delivery_error (post x (sign x.secret x.payload)) ≡ none
        → Moves o (set_delivered now o')
    unfolding set_delivered
    delivered now accepted = record {
      idle = λ i. idle_struck i;
      same = ap (set_delivered now) h.same;
      bounded = λ b. record { all = (let l = struck-left b in omega (arith, l)); left = λ l. cc };
      arrived = λ _ _. record { delivery = x; addressed = struck; accepted = accepted };
    }

    dead_lettered :
        (now : ℕ) (message : String) → Moves o (set_dead_lettered (x.attempt + 1) message now o')
    unfolding set_dead_lettered
    dead_lettered now message = record {
      idle = λ i. idle_struck i;
      same = ap (set_dead_lettered (x.attempt + 1) message now) h.same;
      bounded = λ b. record { all = (let l = attempt-left b in omega (arith, l)); left = λ l. cc };
      arrived = λ _ l. cc;
    }

    postponed :
        (now : ℕ) (message : String)
        → leb 8 (x.attempt + 1) ≡ false
        → Moves o (set_postponed (x.attempt + 1) message now o')
    unfolding set_postponed
    postponed now message early = record {
      idle = λ i. idle_struck i;
      same = ap (set_postponed (x.attempt + 1) message now) h.same;
      bounded = λ b. record {
        all = (let l = attempt-left b in omega (arith, l));
        left = λ l. ground arith;
      };
      arrived = λ _ l. cc;
    }

  abbrev Addressed : Delivery → Type 0
  Addressed x = All (λ o. o.id == x.id ≡ true → IsFor start o x) start.webhook_outbox

  update-Kept :
      (x : Delivery) (set : ℕ → WebhookRow → WebhookRow)
      → Addressed x
      → ((o o' : WebhookRow) (now : ℕ)
          → (o.id == x.id ≡ true → IsFor start o x)
          → Moves o o'
          → is_sent x.id o' ≡ true
          → Moves o (set now o'))
      → Keeps Kept (exec (update_webhook x.id set))
  unfolding update_webhook
  update-Kept x set c k = Hoare-exec _ λ d h.
      let after =
        Extends-updated Moves (λ o. o.id == x.id ≡ true → IsFor start o x) (is_sent x.id)
          (set d.now) (λ o o' c m e. k o o' d.now c m e) start.webhook_outbox d.webhook_outbox c
          h in
      (wrote after, wrote after, h)

  deliver-Kept : (x : Delivery) → Addressed x → Keeps Kept (deliver sign post x)
  unfolding deliver settle_delivery
  deliver-Kept x c = elim (Option-cases (delivery_error (post x (sign x.secret x.payload)))) [
    | inl accepted ↦ rw accepted (
        Keeps-ignore _
          (update-Kept x set_delivered c (λ o o' now k h e. delivered x o o' k h e now accepted)))
    | inr (message, failed) ↦ rw failed (elim (Bool-cases (leb 8 (x.attempt + 1))) [
      | inl last ↦ rw last (
          Keeps-ignore _
            (update-Kept x _ c (λ o o' now k h e. dead_lettered x o o' k h e now message)))
      | inr early ↦ rw early (
          Keeps-ignore _
            (update-Kept x _ c (λ o o' now k h e. postponed x o o' k h e now message early)))
    ])
  ]

  deliver_all-Kept :
      (xs : List Delivery)
      → All (λ o. All (λ x. o.id == x.id ≡ true → IsFor start o x) xs) start.webhook_outbox
      → Keeps Kept (deliver_all sign post xs)
  unfolding deliver_all
  deliver_all-Kept [] c = Keeps-pure tt
  deliver_all-Kept (x ∷ xs) c =
      Keeps-bind _ _ (deliver-Kept x (All-map _ _ (λ o k. k.0) start.webhook_outbox c))
        (λ _. deliver_all-Kept xs (All-map _ _ (λ o k. k.1) start.webhook_outbox c))

  module _ (distinct : Distinct same_id start.webhook_outbox) where
    only :
        All (λ o. All (λ r. same_id o r ≡ true → o ≡ r) start.webhook_outbox) start.webhook_outbox
    only = Distinct-same same_id (λ o r e. eq_flip o.id r.id e) start.webhook_outbox distinct

    abbrev picked_database : Database
    picked_database = record start {
      webhook_outbox = update_where (is_picked start) set_in_flight start.webhook_outbox;
    }

    pick-Kept : Kept picked_database
    unfolding set_in_flight
    pick-Kept =
        Extends-struck Moves _ (is_picked start) set_in_flight (Progress-refl start sign post)
          (λ o c e.
            let w = is_picked-waiting start o c e in
            record {
              idle = λ i. cc;
              same = refl;
              bounded = λ h. record { all = h.all; left = λ _. h.left (waiting-open o.status w) };
              arrived = λ _ a. cc;
            })
          start.webhook_outbox only

    -- A round of the webhook outbox, whichever calls fail and whatever the endpoints answer: each
    -- row is still there; one that was not waiting has not changed, a row left in flight by a round
    -- that broke off included; the content of the others is the same, their attempts stay within
    -- eight, and one that has become delivered was accepted by its endpoint with the payload and
    -- its signature under the endpoint's secret. The identifiers of the rows are distinct.
    pub dispatch_batch-Progress : Hoare (λ d. d ≡ start) (dispatch_batch sign post) (λ _. Kept) Kept
    unfolding dispatch_batch pick
    dispatch_batch-Progress =
        Hoare-bind
          {R = λ items d.
            Kept d
            × All (λ o. All (λ x. o.id == x.id ≡ true → IsFor start o x) items)
                start.webhook_outbox}
          _ _
          (transaction_at start _
            (Extends-refl Moves (Progress-refl start sign post) start.webhook_outbox)
            (exec_at start _ _ _ _ refl tt tt (
              Hoare-pure _ λ d same.
                let kept = subst Kept (sym same) pick-Kept in
                (
                  (kept, All-map _ _ (λ o c. picked-IsFor start o c) start.webhook_outbox only),
                  kept,
                ))))
          (λ items. record { at = λ w q. (deliver_all-Kept items q.1).at w q.0 })
