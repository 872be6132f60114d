-- ===== src/Usage/Once.antt =====
-- The event outbox of cmd/operations/main.go against `recordEvent` of cmd/usage/main.go: an event
-- that is delivered is charged, and no event is charged twice.
pub mod Rounds
use mathlib.Core.Path.{subst}
use sde_thp.Prelude.{
  ℕ, ◌≤◌, ◌+◌, ◌≡◌, refl, sym, ap, ◌∙◌, inl, inr, Bool, true, false, String, Option, none, some,
  List, [], ◌∷◌, ◌++◌, All, All-map, All-update_where, any, count_where, arith, ◌==◌, eq_iff,
  eq_refl, ◌≢◌, leb, Bool-cases, if◌then◌else◌,
}
use sde_thp.Contracts.{OperationEvent}
use sde_thp.Database.{Database, LedgerRow, EventRow}
use sde_thp.Effect.{
  M, World, Fault, fine, refused, lost, Result, ok, err, pure, lift, raise_if, clock, exec,
  announce, transaction, ◌>>=◌, ◌>>◌, next_fault, later_faults, error_code,
}
use sde_thp.Effect.Hoare.{
  Post, Hoare, Keeps, Hoare-bind, Hoare-each, Hoare-exec, Hoare-imply, Keeps-bind, Keeps-pure,
  Keeps-query, Keeps-clock, wrote,
}
use sde_thp.Effect.Steps.{lift_ok, lift_err, stop_guard}
use sde_thp.Operations.Safety.{Hoare-ignore}
use sde_thp.Operations.Reply.{bound}
use sde_thp.Operations.Delivery.{is_delivered}
use sde_thp.Operations.Outbox.{
  HttpResult, response, delivery_error, event_of, settle_event, update_event, set_delivered,
  set_postponed,
}
use sde_thp.Usage.Reply.{Reply, reply, nothing}
use sde_thp.Usage.Statements.{has_event_key}
use sde_thp.Usage.Record.{is_incomplete, record_event}
use sde_thp.Usage.Charging.{Charged, Untouched, Recorded, ledger_row, record_event-Recorded}
use sde_thp.Effect.Refusals.{IsRefusal, Refuses}
use sde_thp.Usage.Refusals.{record_event-Refuses}
use sde_thp.Usage.Calls.{carried, Wire, call, status_of, charge_event, charge_events, charge_batch}

-- How often the event with a key is in the ledger.
abbrev pub charges : String → Database → ℕ
charges key d = count_where (has_event_key key) d.ledger

-- No key is charged twice, and the events that are delivered are charged.
pub record IsOnce (d : Database) : Type 0 where
  pub unique : (key : String) → charges key d ≤ 1
  pub charged : All (λ e. is_delivered e.status ≡ true → charges e.event_key d ≡ 1) d.event_outbox

module _ {A : Type 0} (p : A → Bool) where
  count-append :
      (xs : List A) (x : A)
      → count_where p (xs ++ x ∷ []) ≡ count_where p xs + (if p x then 1 else 0)
  count-append [] x = ground arith
  count-append (y ∷ xs) x = ground (arith, count-append xs x)

  count_absent : (xs : List A) → any p xs ≡ false → count_where p xs ≡ 0
  count_absent [] h = refl
  count_absent (x ∷ xs) h = ground (arith, count_absent xs)

  count_present : (xs : List A) → any p xs ≡ true → 1 ≤ count_where p xs
  count_present [] h = cc
  count_present (x ∷ xs) h = ground (arith, count_present xs)

-- One more row for a key that the ledger did not have.
charges-append :
    (rows : List LedgerRow) (row : LedgerRow)
    → any (has_event_key row.event_key) rows ≡ false
    → ((key : String) → count_where (has_event_key key) rows ≤ 1)
    → (key : String)
    → (count_where (has_event_key key) (rows ++ row ∷ []) ≤ 1)
      × (count_where (has_event_key key) rows ≤ count_where (has_event_key key) (rows ++ row ∷ []))
charges-append rows row fresh once key = elim (Bool-cases (row.event_key == key)) [
  | inl e ↦
      let same : key ≡ row.event_key = sym ((eq_iff row.event_key key).0 e) in
      let z : count_where (has_event_key key) rows ≡ 0 =
        subst (λ x. count_where (has_event_key x) rows ≡ 0) (sym same)
          (count_absent (has_event_key row.event_key) rows fresh) in
      rw (count-append (has_event_key key) rows row, e) (omega (arith, z), omega (arith, z))
  | inr e ↦
      let k = count-append (has_event_key key) rows row in
      let o = once key in rw (k, e) (omega arith, omega arith)
]

-- What one call of `recordEvent` makes of the tables.
pub Charged-IsOnce :
    (new_id : String → String) (start : Database) (event : OperationEvent)
    → IsOnce start
    → (d : Database) → Charged new_id start event d
    → IsOnce d × (charges event.event_key d ≡ 1)
Charged-IsOnce new_id start event once d (inl (old, same)) =
    let one : charges event.event_key start ≡ 1 =
      (let l = once.unique event.event_key in
        let m = count_present (has_event_key event.event_key) start.ledger old in
        omega (arith, l, m)) in
    (subst IsOnce (sym same) once, ap (charges event.event_key) same ∙ one)
Charged-IsOnce new_id start event once d (inr r) =
    subst (λ d. IsOnce d × (charges event.event_key d ≡ 1)) (sym r.tables)
      (let more =
          charges-append start.ledger (ledger_row new_id start event) r.is_new once.unique in
        let z = count_absent (has_event_key event.event_key) start.ledger r.is_new in
        (
          record {
            unique = λ k. (more k).0;
            charged =
                All-map (λ e. is_delivered e.status ≡ true → charges e.event_key start ≡ 1) _
                  (λ e h k. let l = h k in let m = more e.event_key in omega (arith, l, m.0, m.1))
                  start.event_outbox once.charged;
          },
          rw
              (
                count-append (has_event_key event.event_key) start.ledger
                    (ledger_row new_id start event),
                eq_refl event.event_key,
              )
              (omega (arith, z)),
        ))
