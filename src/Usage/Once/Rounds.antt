-- ===== src/Usage/Once/Rounds.antt =====
-- The rounds of the event outbox of cmd/operations/main.go keep the charges exact.
use mathlib.Core.Path.{subst}
use sde_thp.Prelude.{
  ℕ, ◌≡◌, refl, sym, inl, inr, true, String, Option, none, some, List, [], ◌∷◌, All-map,
  All-update_where, update_where, arith, ◌==◌, eq_iff, ◌≢◌, leb, Bool-cases,
}
use sde_thp.Contracts.{OperationEvent}
use sde_thp.Database.{Database, EventRow}
use sde_thp.Usage.Once.{IsOnce, charges, Charged-IsOnce}
use sde_thp.Effect.{
  M, World, Fault, fine, refused, lost, Result, ok, err, next_fault, later_faults, error_code,
}
use sde_thp.Effect.Hoare.{
  Post, Hoare, Keeps, Hoare-bind, Hoare-each, Hoare-exec, Keeps-bind, Keeps-pure, Keeps-query,
  Keeps-clock, wrote,
}
use sde_thp.Effect.Steps.{lift_ok, lift_err, stop_guard}
use sde_thp.Operations.Safety.{Hoare-ignore}
use sde_thp.Operations.Reply.{bound}
use sde_thp.Operations.Delivery.{is_delivered}
use sde_thp.Operations.Outbox.{
  HttpResult, response, delivery_error, event_of, settle_event, update_event, set_delivered,
  set_postponed,
}
use sde_thp.Usage.Reply.{Reply, reply, nothing}
use sde_thp.Usage.Record.{is_incomplete, record_event}
use sde_thp.Usage.Charging.{Charged, Untouched, record_event-Recorded}
use sde_thp.Effect.Refusals.{IsRefusal, Refuses}
use sde_thp.Usage.Refusals.{record_event-Refuses}
use sde_thp.Usage.Calls.{carried, Wire, call, status_of, charge_event, charge_events, charge_batch}

-- The answers by which an event counts as delivered.
refusal_error : (code : ℕ) → leb 300 code ≡ true → delivery_error (response code) ≢ none
unfolding delivery_error
refusal_error code h e = ground arith

module _ (wire : Wire)
    (same_key : (e e' : OperationEvent)
      → wire.received e ≡ some e'
      → e'.event_key ≡ e.event_key) where
  abbrev Answered : String → HttpResult → Database → Type 0
  Answered key answer d = IsOnce d × (delivery_error answer ≡ none → charges key d ≡ 1)

  record_event-IsOnce :
      (new_id : String → String) (body : Option OperationEvent) (key : String)
      → ((e : OperationEvent) → body ≡ some e → e.event_key ≡ key)
      → Hoare IsOnce
          (record_event new_id wire.marshal body)
          (λ _ d. IsOnce d × (charges key d ≡ 1))
          IsOnce
  unfolding record_event bound
  record_event-IsOnce new_id none key k = lift_err _ _ (λ d h. h)
  record_event-IsOnce new_id (some e) key k = elim (Bool-cases (is_incomplete e)) [
    | inl incomplete ↦ lift_ok _ _ (stop_guard _ _ _ incomplete (λ d h. h))
    | inr complete ↦
        Hoare-each (λ start r d. (r ≡ reply 202 nothing) × Charged new_id start e d)
          (λ start. Untouched new_id start e) _
          (λ start once. record_event-Recorded new_id start e wire.marshal complete)
          (λ start once r d q.
            let c = Charged-IsOnce new_id start e once d q.1 in
            (c.0, subst (λ x. charges x d ≡ 1) (k e refl) c.1))
          (λ start once d u. elim u [
            | inl same ↦ subst IsOnce (sym same) once
            | inr r ↦ (Charged-IsOnce new_id start e once d (inr r)).0
          ])
  ]

  call-IsOnce :
      (text key : String) (handler : M Reply)
      → Hoare IsOnce handler (λ _ d. IsOnce d × (charges key d ≡ 1)) IsOnce
      → Refuses handler
      → Hoare IsOnce (call text handler) (Answered key) IsOnce
  unfolding call carried status_of delivery_error
  call-IsOnce text key handler h k = record {
    at = λ w once. during (next_fault w.faults) (record w { faults = later_faults w.faults }) once;
  }
    where
      answered :
          (x : Result Reply × World)
          → Post (λ _ d. IsOnce d × (charges key d ≡ 1)) IsOnce x
          → IsRefusal x
          → Answered key (status_of x.0) x.1.db
      answered (ok r, w) q i = (q.0, λ _. q.1)
      answered (err e, w) q i = (q, λ a. absurd (refusal_error (error_code e) i a))

      after :
          (x : Result Reply × World)
          → Post (λ _ d. IsOnce d × (charges key d ≡ 1)) IsOnce x
          → IsOnce x.1.db
      after (ok r, w) q = q.0
      after (err e, w) q = q

      during :
          (f : Fault) (w : World)
          → IsOnce w.db
          → Post (Answered key) IsOnce (carried f text handler w)
      during fine w once = answered (handler w) (h.at w once) (k.at w)
      during refused w once = (once, λ a. cc)
      during lost w once = (after (handler w) (h.at w once), λ a. cc)

  settle_event-IsOnce :
      (x : EventRow) (outcome : Option String)
      → Hoare
          (λ d. IsOnce d × (outcome ≡ none → charges x.event_key d ≡ 1))
          (settle_event x outcome)
          (λ _. IsOnce)
          IsOnce
  unfolding settle_event update_event set_delivered set_postponed
  settle_event-IsOnce x none = Hoare-ignore _ (
      Hoare-exec _ λ d q.
        let after : IsOnce (record d {
          event_outbox =
              update_where (λ e. e.event_key == x.event_key) (set_delivered d.now) d.event_outbox;
        }) =
          record {
            unique = q.0.unique;
            charged =
                All-update_where _ _ _ d.event_outbox
                  (All-map (λ e. is_delivered e.status ≡ true → charges e.event_key d ≡ 1) _
                    (λ e h same _.
                      subst (λ k. charges k d ≡ 1) (sym ((eq_iff e.event_key x.event_key).0 same))
                        (q.1 refl))
                    d.event_outbox q.0.charged)
                  q.0.charged;
          } in
        (wrote after, wrote after, q.0))
  settle_event-IsOnce x (some message) = Hoare-ignore _ (
      Hoare-exec _ λ d q.
        let after : IsOnce (record d {
          event_outbox =
              update_where (λ e. e.event_key == x.event_key) (set_postponed x.attempt message d.now)
                d.event_outbox;
        }) =
          record {
            unique = q.0.unique;
            charged =
                All-update_where _ _ _ d.event_outbox
                  (All-map (λ e. is_delivered e.status ≡ true → charges e.event_key d ≡ 1) _
                    (λ e h _. h) d.event_outbox q.0.charged)
                  q.0.charged;
          } in
        (wrote after, wrote after, q.0))

  charge_event-IsOnce : (x : EventRow) → Keeps IsOnce (charge_event wire x)
  unfolding charge_event event_of
  charge_event-IsOnce x = Hoare-bind {R = λ _. IsOnce} _ _ Keeps-clock λ now.
      Hoare-bind _ _
        (call-IsOnce wire.broken x.event_key _
          (record_event-IsOnce (wire.new_id x.event_key) (wire.received (event_of x now))
            x.event_key (λ e. same_key (event_of x now) e))
          (record_event-Refuses (wire.new_id x.event_key) wire.marshal
            (wire.received (event_of x now))))
        λ answer. settle_event-IsOnce x (delivery_error answer)

  charge_events-IsOnce : (xs : List EventRow) → Keeps IsOnce (charge_events wire xs)
  unfolding charge_events
  charge_events-IsOnce [] = Keeps-pure tt
  charge_events-IsOnce (x ∷ xs) =
      Keeps-bind _ _ (charge_event-IsOnce x) (λ _. charge_events-IsOnce xs)

  -- A round of the event outbox in which each call runs `recordEvent` on the common tables,
  -- whichever calls fail, and where a call or its answer may be lost: if before it no event key is
  -- in the ledger twice and each delivered event is in it, so it is afterwards.
  pub charge_batch-IsOnce : Keeps IsOnce (charge_batch wire)
  unfolding charge_batch
  charge_batch-IsOnce = Keeps-bind _ _ (Keeps-query _) (λ rows. charge_events-IsOnce rows)
