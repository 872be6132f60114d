-- ===== src/Usage/Record.antt =====
-- `recordEvent` of cmd/usage/main.go. What `gen_random_uuid()` gives to the row of an endpoint
-- and what `json.Marshal` makes of an event are arguments.
use sde_thp.Prelude.{ℕ, Bool, ◌||◌, String, Option, ◌==◌, nat_eq, if◌then◌else◌}
use sde_thp.Contracts.{OperationEvent}
use sde_thp.Effect.{
  M, http, pure, lift, raise_if, clock, ◌>>=◌, ◌>>◌, exec, announce, publish, Ending, commit,
  transaction,
}
use sde_thp.Operations.Reply.{bound}
use sde_thp.Usage.Reply.{Reply, reply, nothing}
use sde_thp.Usage.Statements.{insert_ledger, insert_webhooks}

-- The zero time of Go is the origin of times; an empty payload becomes `{}`.
unfoldable pub with_defaults : ℕ → OperationEvent → OperationEvent
with_defaults now e = record e {
  occurred_at = (if nat_eq e.occurred_at 0 then now else e.occurred_at);
  payload = (if e.payload == "" then "{}" else e.payload);
}

unfoldable pub is_incomplete : OperationEvent → Bool
is_incomplete e = e.event_key == "" || e.operation_id == "" || e.tenant_id == ""

module _ (new_id : String → String) (marshal_event : OperationEvent → String) where
  -- The webhooks, if the ledger has a new row.
  unfoldable pub announce_to : OperationEvent → ℕ → M (Unit {0})
  announce_to e rows =
      if nat_eq rows 0
      then pure tt
      else exec (insert_webhooks new_id e.tenant_id e.event_type e.operation_id e.payload)

  -- The body of the transaction.
  unfoldable pub charge : OperationEvent → M (Ending (Unit {0}))
  unfolding announce_to
  charge e = do
    rows ← exec (insert_ledger e.tenant_id e.operation_id e.event_key e.units e.payload)
    announce_to e rows
    pure (commit tt)

  unfoldable pub record_checked : OperationEvent → M Reply
  unfolding charge with_defaults
  record_checked event = do
    now ← clock
    let e = with_defaults now event
    transaction (charge e)
    announce (publish e.tenant_id (marshal_event e))
    pure (reply 202 nothing)

  unfoldable pub record_event : Option OperationEvent → M Reply
  unfolding record_checked is_incomplete
  record_event body = do
    event ← lift (bound body)
    raise_if (is_incomplete event) (http 400 "event_key, operation_id and tenant_id are required")
    record_checked event
