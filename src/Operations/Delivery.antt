-- ===== src/Operations/Delivery.antt =====
-- The event outbox of cmd/operations/main.go: what `dispatchEventBatch` may do to an event.
use mathlib.Core.Path.{subst}
use sde_thp.Prelude.{
  ℕ, ◌≡◌, refl, sym, ap, ◌∙◌, Bool, true, false, String, Option, none, some, List, [], ◌∷◌, Extends,
  Extends-refl, Extends-trans, Extends-update_where, ◌==◌, eq_iff,
}
use sde_thp.Contracts.{OperationEvent}
use sde_thp.Database.{Database, EventRow, OutboxStatus, outbox_pending, outbox_delivered}
use sde_thp.Effect.{exec}
use sde_thp.Effect.Hoare.{
  Keeps, Hoare, wrote, Hoare-exec, Keeps-bind, Keeps-pure, Keeps-query, Keeps-clock,
}
use sde_thp.Operations.Safety.{Keeps-ignore}
use sde_thp.Operations.Outbox.{
  HttpResult, delivery_error, due_events, update_event, set_delivered, set_postponed, event_of,
  settle_event, dispatch_event, dispatch_events, dispatch_event_batch,
}

abbrev pub is_delivered : OutboxStatus → Bool
is_delivered outbox_delivered = true
is_delivered outbox_pending = false

-- What an event tells the usage service.
pub record Content : Type 0 where
  pub event_key : String
  pub event_type : String
  pub operation_id : String
  pub tenant_id : String
  pub units : ℕ
  pub payload : String

abbrev pub content : EventRow → Content
content e = record {
  event_key = e.event_key;
  event_type = e.event_type;
  operation_id = e.operation_id;
  tenant_id = e.tenant_id;
  units = e.units;
  payload = e.payload;
}

module _ (post : OperationEvent → HttpResult) where
  -- The usage service has accepted an event with this key.
  abbrev pub Accepted : String → Type 0
  Accepted key =
      (event : OperationEvent) × ((event.event_key ≡ key) × (delivery_error (post event) ≡ none))

  -- A later state of an event: its content is the same, a delivered one stays delivered, and one
  -- that has become delivered was accepted.
  pub record Delivers (e e' : EventRow) : Type 0 where
    pub same : content e' ≡ content e
    pub kept : is_delivered e.status ≡ true → is_delivered e'.status ≡ true
    pub accepted :
        is_delivered e.status ≡ false → is_delivered e'.status ≡ true → Accepted e.event_key

  Delivers-refl : (e : EventRow) → Delivers e e
  Delivers-refl e = record { same = refl; kept = λ h. h; accepted = λ h k. cc }

  Delivers-trans : (e e' e'' : EventRow) → Delivers e e' → Delivers e' e'' → Delivers e e''
  Delivers-trans e e' e'' h k = record {
    same = k.same ∙ h.same;
    kept = λ p. k.kept (h.kept p);
    accepted = λ p q. between (is_delivered e'.status) refl p q;
  }
    where
      between :
          (b : Bool)
          → is_delivered e'.status ≡ b
          → is_delivered e.status ≡ false
          → is_delivered e''.status ≡ true
          → Accepted e.event_key
      between true m p q = h.accepted p m
      between false m p q = subst Accepted (ap (λ c. c.event_key) h.same) (k.accepted m q)

  abbrev Grows : Database → Database → Type 0
  Grows before d = Extends Delivers before.event_outbox d.event_outbox

  module _ (before : Database) where
    update_event-Grows :
        (key : String) (set : ℕ → EventRow → EventRow)
        → ((now : ℕ) (e : EventRow) → (e.event_key == key) ≡ true → Delivers e (set now e))
        → Keeps (Grows before) (exec (update_event key set))
    unfolding update_event
    update_event-Grows key set h = Hoare-exec _ λ d g.
        let k = Extends-trans Delivers Delivers-trans before.event_outbox d.event_outbox _ g (
          Extends-update_where Delivers Delivers-refl (λ e. e.event_key == key) (set d.now)
            (h d.now) d.event_outbox) in
        (wrote k, wrote k, g)

    settle_event-Grows :
        (x : EventRow) (now : ℕ) (r : Option String)
        → delivery_error (post (event_of x now)) ≡ r
        → Keeps (Grows before) (settle_event x r)
    unfolding settle_event set_delivered set_postponed event_of
    settle_event-Grows x now none h = Keeps-ignore _ (
        update_event-Grows x.event_key set_delivered λ t e q. record {
          same = refl;
          kept = λ p. refl;
          accepted = λ p k. (event_of x now, (sym ((eq_iff e.event_key x.event_key).0 q), h));
        })
    settle_event-Grows x now (some message) h = Keeps-ignore _ (
        update_event-Grows x.event_key (set_postponed x.attempt message)
          λ t e q. record { same = refl; kept = λ p. p; accepted = λ p k. cc })

    dispatch_events-Grows : (xs : List EventRow) → Keeps (Grows before) (dispatch_events post xs)
    unfolding dispatch_events dispatch_event
    dispatch_events-Grows [] = Keeps-pure _
    dispatch_events-Grows (x ∷ xs) =
        Keeps-bind _ _ (Keeps-bind _ _ Keeps-clock (λ now. settle_event-Grows x now _ refl))
          (λ _. dispatch_events-Grows xs)

  -- A round of the outbox, whichever calls fail: no event is lost or altered, a delivered one
  -- stays delivered, and an event becomes delivered only after the usage service has accepted an
  -- event with its key.
  pub dispatch_event_batch-Delivers :
      (before : Database)
      → Hoare
          (λ d. d ≡ before)
          (dispatch_event_batch post)
          (λ _ d. Extends Delivers before.event_outbox d.event_outbox)
          (λ d. Extends Delivers before.event_outbox d.event_outbox)
  unfolding dispatch_event_batch
  dispatch_event_batch-Delivers before = record {
    at = λ w e.
        (Keeps-bind _ _ (Keeps-query due_events) (dispatch_events-Grows before)).at w
          (subst (Grows before) (sym e) (Extends-refl Delivers Delivers-refl before.event_outbox));
  }
