-- ===== src/Operations/Finish.antt =====
-- `complete`, `fail`, `workerComplete`, `workerFail` and `insertEvent` of
-- cmd/operations/main.go.
use mathlib.Core.Option
use Prim.Native.String.{◌++◌}
use sde_thp.Prelude.{
  ℕ, ◌+◌, Bool, not, ◌&&◌, ◌||◌, String, Option, some, [], ◌∷◌, pos, ltb, nat_eq, ◌==◌, decimal,
  if◌then◌else◌,
}
use sde_thp.Domain.{OperationStatus, dead_lettered, retrying, status_eq, status_text, retry_delay}
use sde_thp.Database.{OperationRow}
use sde_thp.Effect.{
  M, http, pure, lift, raise_if, clock, ◌>>=◌, ◌>>◌, exec, query, send, run_workflow, commit,
  transaction,
}
use sde_thp.Operations.Json.{Json}
use sde_thp.Operations.Rows.{is_leased, is_leased_in, set_succeeded, set_failed}
use sde_thp.Operations.Statements.{
  update_operations, update_returning, find_operation, insert_outbox,
}
use sde_thp.Operations.Claim.{changed}
use sde_thp.Operations.Reply.{Headers, Reply, reply, nothing, fields, envelope_of, bound, or_http}

pub record CompleteInput : Type 0 where
  pub worker_id : String
  pub result : Option String
  pub ai_explanation : String

pub record FailInput : Type 0 where
  pub worker_id : String
  pub error_code : String
  pub error_message : String
  pub ai_explanation : String
  pub retryable : Bool

unfoldable pub complete : String → Option CompleteInput → M Reply
complete id body = do
  input ← lift (bound body)
  rows ← exec (
      update_operations (is_leased id input.worker_id)
        (set_succeeded input.result input.ai_explanation))
  changed "operation cannot be completed" rows

-- Dead-lettered, unless the failure is retryable and attempts are left.
unfoldable pub failure_status : FailInput → OperationRow → OperationStatus
failure_status input o =
    if input.retryable && ltb o.attempt o.max_attempts then retrying else dead_lettered

-- The delayed retry: the workflow waits until the delay of this attempt is over.
schedule_retry : OperationRow → M (Unit {0})
schedule_retry o = do
  now ← clock
  send (
      run_workflow ("retry:" ++ o.id ++ ":" ++ decimal o.attempt)
        (record (envelope_of o) { not_before = some (now + retry_delay (pos o.attempt)) }))

unfoldable pub retry_if : OperationStatus → OperationRow → M (Unit {0})
unfolding schedule_retry
retry_if status o = if status_eq status retrying then schedule_retry o else pure tt

-- What `fail` does with the row that its SELECT returned.
unfoldable pub fail_row : String → FailInput → OperationRow → M Reply
unfolding retry_if
fail_row id input o = do
  let status = failure_status input o
  rows ← exec (
      update_operations (is_leased id input.worker_id)
        (set_failed status input.error_code input.error_message input.ai_explanation))
  raise_if (nat_eq rows 0) (http 409 "operation cannot be failed")
  retry_if status o
  pure (reply 200 (fields (("status", status_text status) ∷ [])))

unfoldable pub fail : String → Option FailInput → M Reply
unfolding fail_row
fail id body = do
  input ← lift (bound body)
  found ← query (find_operation (is_leased id input.worker_id))
  o ← lift (or_http 409 "operation cannot be failed" found)
  fail_row id input o

unfoldable pub event_key_of : String → String → ℕ → String
event_key_of id event_type attempt = id ++ ":" ++ event_type ++ ":" ++ decimal attempt

-- `eventType` of `workerFail`.
unfoldable pub failure_event : OperationStatus → String
failure_event status =
    if status_eq status dead_lettered then "operation.dead_lettered" else "operation.failed"

module _ (json : Json) where
  -- A payload that is empty or not valid JSON is recorded as `{}`.
  unfoldable pub recorded_payload : String → String
  recorded_payload payload = if payload == "" || not (json.valid payload) then "{}" else payload

  unfoldable pub insert_event : String → String → String → String → String → M ℕ
  unfolding recorded_payload
  insert_event event_key event_type operation_id tenant_id payload =
      exec (insert_outbox event_key event_type operation_id tenant_id (recorded_payload payload))

  unfoldable pub worker_complete : Headers → String → Option CompleteInput → M Reply
  unfolding insert_event event_key_of
  worker_complete headers id body = do
    input ← lift (bound body)
    transaction do
      found ← exec (
          update_returning (is_leased_in headers.tenant id input.worker_id)
            (set_succeeded input.result input.ai_explanation))
      o ← lift (or_http 409 "operation cannot be completed" found)
      insert_event (event_key_of id "operation.succeeded" o.attempt) "operation.succeeded" id
          headers.tenant (Option.get_or input.result "")
      pure (commit tt)
    pure (reply 204 nothing)

  unfoldable pub worker_fail_row : Headers → String → FailInput → OperationRow → M Reply
  unfolding insert_event event_key_of retry_if failure_event
  worker_fail_row headers id input o = do
    let status = failure_status input o
    transaction do
      rows ← exec (
          update_operations (is_leased_in headers.tenant o.id input.worker_id)
            (set_failed status input.error_code input.error_message input.ai_explanation))
      raise_if (nat_eq rows 0) (http 409 "operation cannot be failed")
      insert_event (event_key_of o.id (failure_event status) o.attempt) (failure_event status) o.id
          headers.tenant
          (json.marshal_failure (status_text status) input.error_code input.error_message
            input.retryable)
      pure (commit tt)
    retry_if status o
    pure (reply 200 (fields (("status", status_text status) ∷ [])))

  unfoldable pub worker_fail : Headers → String → Option FailInput → M Reply
  unfolding worker_fail_row
  worker_fail headers id body = do
    input ← lift (bound body)
    found ← query (find_operation (is_leased_in headers.tenant id input.worker_id))
    o ← lift (or_http 409 "operation cannot be failed" found)
    worker_fail_row headers id input o
