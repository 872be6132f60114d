-- ===== src/Operations/Safety/Submitting.antt =====
-- Submission, and the workflow that puts an operation on the stream.
use sde_thp.Prelude.{
  ℕ, ◌≡◌, ◌≤◌, refl, true, false, String, Option, none, some, pos_part, arith, and-elim, ltb,
}
use sde_thp.Contracts.{QueueEnvelope}
use sde_thp.Database.{Database, OperationRow}
use sde_thp.Effect.{ok, ◌>>=◌, lift, exec}
use sde_thp.Effect.Hoare.{
  Keeps, Hoare-bind, Hoare-lift, Keeps-bind, Keeps-lift, Keeps-pure, Keeps-query, Keeps-clock,
  Keeps-if, Keeps-raise_if, keeps_rules,
}
use sde_thp.Operations.Json.{Json}
use sde_thp.Operations.Rows.{is_running, enqueueable, set_queued}
use sde_thp.Operations.Statements.{update_operations, insert_operation, insert_transition}
use sde_thp.Operations.Reply.{Headers, bound}
use sde_thp.Operations.Create.{CreateInput, check_input, check_key, new_row, submit, admit, create}
use sde_thp.Operations.Enqueue.{
  sleep, wait_until, is_waiting, enqueue_operation_step, queue_operation_workflow,
}
use sde_thp.Operations.Invariant.{IsRowValid}
use sde_thp.Operations.Invariant.Rows.{set_queued-IsRowValid}
use sde_thp.Operations.History.{Sound}
use sde_thp.Operations.History.Steps.{set_queued-SafeUpdate, Sound-of_same}
use sde_thp.Operations.Safety.{Keeps-update, Keeps-insert_operation, Keeps-insert_transition}

-- An accepted body asks for one attempt to ten.
pub check_input_attempts :
    (input checked : CreateInput)
    → check_input input ≡ ok checked
    → (1 ≤ pos_part checked.max_attempts) × (pos_part checked.max_attempts ≤ 10)
unfolding check_input
check_input_attempts input checked e = ground arith

new_row-IsRowValid :
    (id tenant key : String) (checked : CreateInput) (now : ℕ)
    → (1 ≤ pos_part checked.max_attempts) × (pos_part checked.max_attempts ≤ 10)
    → IsRowValid (new_row id tenant key checked now)
unfolding new_row is_running
new_row-IsRowValid id tenant key checked now h = ground arith

idle_row :
    (id tenant key : String) (checked : CreateInput) (now : ℕ)
    → is_running (new_row id tenant key checked now).status ≡ false
unfolding new_row is_running
idle_row id tenant key checked now = refl

module _ (before : Database) where
  submit-Sound :
      (id tenant : String) (checked : CreateInput) (o : OperationRow)
      → Keeps (Sound before) (submit id tenant checked o)
  unfolding submit
  submit-Sound id tenant checked o = search keeps_rules

  admit-Sound :
      (month_start : ℕ → ℕ) (id tenant key : String) (checked : CreateInput)
      → (1 ≤ pos_part checked.max_attempts) × (pos_part checked.max_attempts ≤ 10)
      → Keeps (Sound before) (admit month_start id tenant key checked)
  unfolding admit
  admit-Sound month_start id tenant key checked h = Keeps-bind _ _ (Keeps-query _) λ found.
      Keeps-bind _ _ (Keeps-lift _) λ account. Keeps-bind _ _ (Keeps-query _) λ used.
        Keeps-bind _ _ (Keeps-query _) λ running. Keeps-bind _ _ (Keeps-raise_if _ _) λ _.
          Keeps-bind _ _ (Keeps-raise_if _ _) λ _. Keeps-bind _ _ inserted λ _.
            Keeps-bind _ _ (Keeps-query _)
              λ kept. Keeps-bind _ _ (Keeps-lift _) λ o. submit-Sound id tenant checked o
    where
      inserted :
          Keeps
            (Sound before)
            (exec (λ d. insert_operation (new_row id tenant key checked d.now) d))
      inserted =
          Keeps-insert_operation before (new_row id tenant key checked)
            (λ now. new_row-IsRowValid id tenant key checked now h) (idle_row id tenant key checked)

  pub create-Sound :
      (month_start : ℕ → ℕ) (id : String) (headers : Headers) (body : Option CreateInput)
      → Keeps (Sound before) (create month_start id headers body)
  unfolding create
  create-Sound month_start id headers body = Keeps-bind _ _ (Keeps-lift (bound body)) λ input.
      Hoare-bind _ _
        (Hoare-lift {Q = λ checked d. Sound before d × (check_input input ≡ ok checked)}
          (check_input input) (λ checked e d p. (p, e)) (λ d p. p))
        λ checked. record {
          at = λ w p. (rest checked (check_input_attempts input checked p.1)).at w p.0;
        }
    where
      rest :
          (checked : CreateInput)
          → (1 ≤ pos_part checked.max_attempts) × (pos_part checked.max_attempts ≤ 10)
          → Keeps (Sound before) (
              lift (check_key headers.idempotency_key) >>= λ key.
              admit month_start id headers.tenant key checked)
      rest checked h =
          Keeps-bind _ _ (Keeps-lift _)
            (λ key. admit-Sound month_start id headers.tenant key checked h)

module _ (before : Database) (json : Json) where
  pub sleep-Sound : (n : ℕ) → Keeps (Sound before) (sleep n)
  unfolding sleep
  sleep-Sound n = record { at = λ w p. Sound-of_same before w.db p _ refl refl }

  wait_until-Sound : (due : Option ℕ) → Keeps (Sound before) (wait_until due)
  unfolding wait_until
  wait_until-Sound none = Keeps-pure tt
  wait_until-Sound (some due) =
      Keeps-bind _ _ Keeps-clock λ now. Keeps-if (ltb now due) _ _ (sleep-Sound _) (Keeps-pure tt)

  waiting_guard :
      (id : String) (o : OperationRow) → is_waiting id o ≡ true → enqueueable o.status ≡ true
  unfolding is_waiting
  waiting_guard id o e = (and-elim _ _ e).1

  queued-Sound :
      (id : String) → Keeps (Sound before) (exec (update_operations (is_waiting id) set_queued))
  queued-Sound id =
      Keeps-update before (is_waiting id) set_queued
        (λ now. set_queued-SafeUpdate (is_waiting id) now (waiting_guard id))
        (λ now o v e. set_queued-IsRowValid now o v (waiting_guard id o e))

  transition-Sound : (o t r : String) → Keeps (Sound before) (exec (insert_transition o t r))
  transition-Sound = Keeps-insert_transition before

  enqueue_operation_step-Sound :
      (e : QueueEnvelope) → Keeps (Sound before) (enqueue_operation_step json e)
  unfolding enqueue_operation_step
  enqueue_operation_step-Sound e =
      Keeps-bind _ _ (queued-Sound e.operation_id) λ rows.
        Keeps-bind _ _ (search keeps_rules) λ current. search (keeps_rules, transition-Sound)

  pub queue_operation_workflow-Sound :
      (e : QueueEnvelope) → Keeps (Sound before) (queue_operation_workflow json e)
  unfolding queue_operation_workflow
  queue_operation_workflow-Sound e =
      Keeps-bind _ _ (wait_until-Sound e.not_before) (λ _. enqueue_operation_step-Sound e)
