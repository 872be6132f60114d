-- ===== src/Operations/Enqueue.antt =====
-- `queueOperationWorkflow` and `enqueueOperationStep` of cmd/operations/main.go, which DBOS runs.
use sde_thp.Prelude.{
  ℕ, ◌+◌, ◌-◌, Bool, true, ◌&&◌, String, Option, none, some, ltb, nat_eq, if◌then◌else◌,
}
use sde_thp.Domain.{queued, status_eq}
use sde_thp.Contracts.{QueueEnvelope}
use sde_thp.Database.{OperationRow}
use sde_thp.Effect.{M, ok, pure, lift, clock, ◌>>=◌, ◌>>◌, exec, query, send, xadd}
use sde_thp.Operations.Json.{Json}
use sde_thp.Operations.Rows.{has_id, enqueueable, set_queued}
use sde_thp.Operations.Statements.{update_operations, find_operation, insert_transition}
use sde_thp.Operations.Reply.{or_no_rows, or_failure}

-- `dbos.Sleep`: both clocks move on.
unfoldable pub sleep : ℕ → M (Unit {0})
sleep n w = (ok tt, record w { time = w.time + n; db = record (w.db) { now = w.db.now + n } })

-- Sleep until `NotBefore`, if that lies ahead.
unfoldable pub wait_until : Option ℕ → M (Unit {0})
unfolding sleep
wait_until none = pure tt
wait_until (some due) = do now ← clock; if ltb now due then sleep (due - now) else pure tt

unfoldable pub is_waiting : String → OperationRow → Bool
is_waiting id o = has_id id o && enqueueable o.status

-- An operation that the UPDATE did not touch is enqueued again only if it is `QUEUED`.
still_queued : String → ℕ → M Bool
still_queued id rows =
    if nat_eq rows 0
    then (do
      o ← lift (or_no_rows (← query (find_operation (has_id id))))
      pure (status_eq o.status queued))
    else pure true

module _ (json : Json) where
  publish : QueueEnvelope → M String
  publish envelope = do
    exec (
        insert_transition envelope.operation_id envelope.tenant_id
          "DBOS workflow enqueued operation")
    payload ← lift (or_failure (json.marshal_envelope envelope))
    send (xadd payload)
    pure envelope.operation_id

  unfoldable pub enqueue_operation_step : QueueEnvelope → M String
  unfolding is_waiting still_queued publish
  enqueue_operation_step envelope = do
    rows ← exec (update_operations (is_waiting envelope.operation_id) set_queued)
    current ← still_queued envelope.operation_id rows
    if current then publish envelope else pure envelope.operation_id

  unfoldable pub queue_operation_workflow : QueueEnvelope → M String
  unfolding wait_until enqueue_operation_step
  queue_operation_workflow envelope = do
    wait_until envelope.not_before
    enqueue_operation_step envelope
