-- ===== src/Operations/Poll.antt =====
-- `workerPoll` of cmd/operations/main.go. What Redis answers is an argument: the stored cursor,
-- and the messages behind a cursor.
use Prim.Native.String.{◌++◌}
use sde_thp.Prelude.{
  ◌+◌, Bool, true, false, ◌&&◌, String, Option, none, some, List, [], ◌∷◌, ◌==◌, if◌then◌else◌,
}
use sde_thp.Domain.{running, can_transition}
use sde_thp.Contracts.{QueueEnvelope}
use sde_thp.Database.{OperationRow}
use sde_thp.Effect.{
  M, Result, ok, err, failure, http, pure, raise, lift, raise_if, ◌>>=◌, ◌>>◌, query, send,
  set_cursor,
}
use sde_thp.Operations.Json.{Json}
use sde_thp.Operations.Rows.{has_id, of_tenant}
use sde_thp.Operations.Statements.{find_operation}
use sde_thp.Operations.Claim.{claim_operation}
use sde_thp.Operations.Reply.{Headers, Reply, reply, nothing, job, ignore, caught}

-- A `redis.XMessage`: its id, and `Values["envelope"]` where that is a string.
pub record Message : Type 0 where
  pub id : String
  pub envelope : Option String

-- What a Redis read returns: `redis.Nil`, a value, or another error.
pub data Answer (A : Type 0) : Type 0 where
  nil : Answer A
  value : A → Answer A
  broken : Answer A

pub record Redis : Type 0 where
  pub get_cursor : String → Answer String
  pub read : String → Answer (List Message)

unfoldable pub start_of : Answer String → Result String
start_of nil = ok "0-0"
start_of (value cursor) = ok cursor
start_of broken = err failure

-- The envelope of a message that is for a private worker of this tenant.
unfoldable pub private_for : String → Option QueueEnvelope → Option QueueEnvelope
private_for tenant none = none
private_for tenant (some e) =
    if e.tenant_id == tenant && e.execution_mode == "PRIVATE" then some e else none

unfoldable pub decoded : Json → String → Option String → Option QueueEnvelope
unfolding private_for
decoded json tenant none = none
decoded json tenant (some raw) = private_for tenant (json.unmarshal_envelope raw)

-- The test after a claim that was refused. Where the query failed `status` is still empty, and
-- no transition leads from that either.
unfoldable pub may_run : Result (Option OperationRow) → Bool
may_run (ok (some o)) = can_transition o.status running
may_run (ok none) = false
may_run (err e) = false

module _ (json : Json) (tenant worker : String) where
  skip_to : String → M (Unit {0})
  skip_to id = ignore (send (set_cursor ("private-worker-cursor:" ++ tenant) id))

  -- What follows a claim; `rest` goes on with the next message.
  unfoldable pub after_claim : String → QueueEnvelope → M Reply → Bool → M Reply
  unfolding skip_to
  after_claim id e rest true = do
    skip_to id
    pure (reply 200 (job (record e { attempt = e.attempt + 1 })))
  after_claim id e rest false = do
    found ← caught (query (find_operation (λ o. has_id e.operation_id o && of_tenant tenant o)))
    if may_run found then pure (reply 204 nothing) else (skip_to id >> rest)

  unfoldable pub poll_message : String → Option QueueEnvelope → M Reply → M Reply
  unfolding after_claim
  poll_message id none rest = skip_to id >> rest
  poll_message id (some e) rest = do
    outcome ← claim_operation e.operation_id tenant worker 45
    after_claim id e rest outcome.1

  unfoldable pub poll_messages : List Message → M Reply
  unfolding poll_message
  poll_messages [] = pure (reply 204 nothing)
  poll_messages (m ∷ ms) = poll_message m.id (decoded json tenant m.envelope) (poll_messages ms)

  unfoldable pub poll_answer : Answer (List Message) → M Reply
  unfolding poll_messages
  poll_answer nil = pure (reply 204 nothing)
  poll_answer (value ms) = poll_messages ms
  poll_answer broken = raise failure

unfoldable pub worker_poll : Json → Redis → Headers → String → M Reply
unfolding poll_answer start_of
worker_poll json redis headers worker = do
  raise_if (worker == "") (http 400 "worker_id is required")
  cursor ← lift (start_of (redis.get_cursor ("private-worker-cursor:" ++ headers.tenant)))
  poll_answer json headers.tenant worker (redis.read cursor)
