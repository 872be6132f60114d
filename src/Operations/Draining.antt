-- ===== src/Operations/Draining.antt =====
-- The event outbox of cmd/operations/main.go while every call succeeds and the usage service
-- accepts what it is sent.
use mathlib.Core.Path.{subst}
use sde_thp.Prelude.{
  ℕ, suc, zero, ◌≤◌, ◌≡◌, refl, sym, ap, ◌∙◌, inl, inr, Bool, true, false, not, ◌&&◌, ◌||◌, String,
  none, List, [], ◌∷◌, All, All-map, Extends, Extends-map, Extends-refl, any, length, take,
  select_where, update_where, ltb, ◌==◌, eq_refl, arith, Bool-cases, if◌then◌else◌,
}
use sde_thp.Contracts.{OperationEvent}
use sde_thp.Database.{Database, EventRow}
use sde_thp.Effect.{World, Command, Result, ok, pure, clock, ◌>>=◌, query}
use sde_thp.Effect.Calm.{calm, calm-bind, calm-exec_result, calm-query_result}
use sde_thp.Operations.Reply.{ignore}
use sde_thp.Operations.Delivery.{is_delivered}
use sde_thp.Operations.Outbox.{
  HttpResult, delivery_error, is_due, due_events, by_created, insert_created, update_event,
  set_delivered, event_of, settle_event, dispatch_event, dispatch_events, dispatch_event_batch,
}

abbrev same_key : EventRow → EventRow → Bool
same_key e x = e.event_key == x.event_key

-- The row keeps its key, and is delivered if its key is among those that were sent.
record Sent (sent : String → Bool) (e e' : EventRow) : Type 0 where
  same : e'.event_key ≡ e.event_key
  arrived : sent e.event_key ≡ true → is_delivered e'.status ≡ true

Sent-too :
    (x : EventRow) (now : ℕ) (p : String → Bool) (es es' : List EventRow)
    → Extends (Sent p) es es'
    → Extends
        (Sent (λ k. p k || k == x.event_key))
        es
        (update_where (λ e. e.event_key == x.event_key) (set_delivered now) es')
unfolding set_delivered
Sent-too x now p [] es' h = tt
Sent-too x now p (e ∷ es) [] h = h
Sent-too x now p (e ∷ es) (e' ∷ es') h =
    (struck (e'.event_key == x.event_key) refl, Sent-too x now p es es' h.1)
  where
    struck :
        (b : Bool)
        → (e'.event_key == x.event_key) ≡ b
        → Sent (λ k. p k || k == x.event_key) e (if b then set_delivered now e' else e')
    struck true f = record { same = h.0.same; arrived = λ _. refl }
    struck false f = record {
      same = h.0.same;
      arrived = λ g.
          let other = subst (λ (k : String). k == x.event_key ≡ false) h.0.same f in
          h.0.arrived (ground arith);
    }

any-insert_created :
    (q : EventRow → Bool) (x : EventRow) (xs : List EventRow)
    → any q (insert_created x xs) ≡ q x || any q xs
unfolding insert_created
any-insert_created q x [] = refl
any-insert_created q x (y ∷ xs) = elim (Bool-cases (ltb y.created_at x.created_at)) [
  | inl later ↦ rw later (ground (arith, any-insert_created q x xs))
  | inr first ↦ rw first refl
]

any-by_created : (q : EventRow → Bool) (xs : List EventRow) → any q (by_created xs) ≡ any q xs
unfolding by_created
any-by_created q [] = refl
any-by_created q (x ∷ xs) =
    any-insert_created q x (by_created xs) ∙ ap (λ b. q x || b) (any-by_created q xs)

length-insert_created :
    (x : EventRow) (xs : List EventRow) → length (insert_created x xs) ≡ suc (length xs)
unfolding insert_created
length-insert_created x [] = refl
length-insert_created x (y ∷ xs) = elim (Bool-cases (ltb y.created_at x.created_at)) [
  | inl later ↦ rw later (ap suc (length-insert_created x xs))
  | inr first ↦ rw first refl
]

length-by_created : (xs : List EventRow) → length (by_created xs) ≡ length xs
unfolding by_created
length-by_created [] = refl
length-by_created (x ∷ xs) = length-insert_created x (by_created xs) ∙ ap suc (length-by_created xs)

take_all : (n : ℕ) (xs : List EventRow) → length xs ≤ n → take n xs ≡ xs
take_all zero [] h = refl
take_all zero (x ∷ xs) h = absurd (omega arith)
take_all (suc n) [] h = refl
take_all (suc n) (x ∷ xs) h = ap (◌∷◌ x) (take_all n xs (omega arith))

-- A row that a WHERE clause selects is among the rows that it selects.
any-selected :
    (p : EventRow → Bool) (xs : List EventRow)
    → All (λ e. p e ≡ true → any (same_key e) (select_where p xs) ≡ true) xs
any-selected p [] = tt
any-selected p (x ∷ xs) =
    ((λ h. rw (h, eq_refl x.event_key) refl), more (p x) xs (any-selected p xs))
  where
    more :
        (b : Bool) (ys : List EventRow)
        → All (λ e. p e ≡ true → any (same_key e) (select_where p xs) ≡ true) ys
        → All
            (λ e.
              p e ≡ true
              → any (same_key e) (if b then x ∷ select_where p xs else select_where p xs) ≡ true)
            ys
    more b [] k = tt
    more true (y ∷ ys) k = ((λ h. (let l = k.0 h in ground arith)), more true ys k.1)
    more false (y ∷ ys) k = (k.0, more false ys k.1)

module _ (post : OperationEvent → HttpResult)
    (accepts : (event : OperationEvent) → delivery_error (post event) ≡ none) (time : ℕ)
    (commands : List Command) where
  abbrev after_one : EventRow → Database → Database
  after_one x d = record d {
    event_outbox =
        update_where (λ e. e.event_key == x.event_key) (set_delivered d.now) d.event_outbox;
  }

  dispatch_event-calm :
      (x : EventRow) (d : Database)
      → dispatch_event post x (calm d time commands) ≡ (ok tt, calm (after_one x d) time commands)
  unfolding dispatch_event clock ◌>>=◌ settle_event ignore update_event
  dispatch_event-calm x d = rw (accepts (event_of x time)) (
      ap (λ (r : Result (Unit {0}) × World). (ok tt, r.1))
        (calm-exec_result d time commands (update_event x.event_key set_delivered) tt
          (after_one x d) refl))

  -- The tables after a list of events.
  after_all : List EventRow → Database → Database
  after_all [] d = d
  after_all (x ∷ xs) d = after_all xs (after_one x d)

  dispatch_events-calm :
      (xs : List EventRow) (d : Database)
      → dispatch_events post xs (calm d time commands)
        ≡ (ok tt, calm (after_all xs d) time commands)
  unfolding dispatch_events ◌>>=◌ pure after_all
  dispatch_events-calm [] d = refl
  dispatch_events-calm (x ∷ xs) d =
      calm-bind (dispatch_event post x) (λ _. dispatch_events post xs) (calm d time commands)
        (dispatch_event-calm x d)
      ∙ dispatch_events-calm xs (after_one x d)

  after_all-Sent :
      (xs es : List EventRow) (p : String → Bool) (d : Database)
      → Extends (Sent p) es d.event_outbox
      → Extends (Sent (λ k. p k || any (λ x. k == x.event_key) xs)) es (after_all xs d).event_outbox
  unfolding after_all
  after_all-Sent [] es p d h =
      Extends-map _ _ (λ e e' s. record { same = s.same; arrived = λ g. s.arrived (ground arith) })
        es d.event_outbox h
  after_all-Sent (x ∷ xs) es p d h =
      Extends-map _ _ (λ e e' s. record { same = s.same; arrived = λ g. s.arrived (ground arith) })
        es _
        (after_all-Sent xs es (λ k. p k || k == x.event_key) (after_one x d)
          (Sent-too x d.now p es d.event_outbox h))

-- A row that was due is delivered.
abbrev pub Drained : ℕ → EventRow → EventRow → Type 0
Drained now e e' = is_due now e && not (is_delivered e'.status) ≡ false

drained :
    (now : ℕ) (sent : String → Bool) (es es' : List EventRow)
    → All (λ e. is_due now e ≡ true → sent e.event_key ≡ true) es
    → Extends (Sent sent) es es'
    → Extends (Drained now) es es'
drained now sent [] es' c h = tt
drained now sent (e ∷ es) [] c h = h
drained now sent (e ∷ es) (e' ∷ es') c h =
    (one (is_due now e) refl, drained now sent es es' c.1 h.1)
  where
    one : (b : Bool) → is_due now e ≡ b → b && not (is_delivered e'.status) ≡ false
    one true f = rw (h.0.arrived (c.0 f)) refl
    one false f = refl

module _ (post : OperationEvent → HttpResult)
    (accepts : (event : OperationEvent) → delivery_error (post event) ≡ none) (time : ℕ)
    (commands : List Command) (d : Database)
    (few : length (select_where (is_due d.now) d.event_outbox) ≤ 20) where
  due : List EventRow
  due = select_where (is_due d.now) d.event_outbox

  any-due : (e : EventRow) → any (same_key e) (due_events d) ≡ any (same_key e) due
  unfolding due_events due
  any-due e =
      ap (any (same_key e))
        (take_all 20 (by_created due) (subst (λ n. n ≤ 20) (sym (length-by_created due)) few))
      ∙ any-by_created (same_key e) due

  -- A round of the event outbox in which no call fails and the usage service accepts every event,
  -- with at most 20 events due: it ends without an error, and each event that was due is then
  -- delivered.
  pub dispatch_event_batch-Drained :
      (d' : Database) × ((dispatch_event_batch post (calm d time commands)
          ≡ (ok tt, calm d' time commands))
        × Extends (Drained d.now) d.event_outbox d'.event_outbox)
  unfolding dispatch_event_batch due
  dispatch_event_batch-Drained = (
    after_all post accepts time commands (due_events d) d,
    (
      calm-bind (query due_events) (dispatch_events post) (calm d time commands)
            (calm-query_result d time commands due_events)
          ∙ dispatch_events-calm post accepts time commands (due_events d) d,
      drained d.now (λ k. any (λ x. k == x.event_key) (due_events d)) d.event_outbox _
          (All-map _ _ (λ e h g. any-due e ∙ h g) d.event_outbox
            (any-selected (is_due d.now) d.event_outbox))
          (after_all-Sent post accepts time commands (due_events d) d.event_outbox (λ k. false) d
            (Extends-refl (Sent (λ k. false)) (λ e. record { same = refl; arrived = λ h. cc })
              d.event_outbox)),
    ),
  )
