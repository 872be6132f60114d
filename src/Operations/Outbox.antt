-- ===== src/Operations/Outbox.antt =====
-- `dispatchEventBatch` of cmd/operations/main.go. The usage service is an argument: what an
-- HTTP call with the event brings back.
use Prim.Native.Nat.{min}
use Prim.Native.String.{◌++◌}
use sde_thp.Prelude.{
  ℕ, ◌+◌, ◌*◌, ◌^◌, Bool, ◌&&◌, ◌||◌, String, Option, none, some, List, [], ◌∷◌, leb, ltb, ◌==◌,
  decimal, pos, take, select_where, update_where, if◌then◌else◌,
}
use sde_thp.Domain.{second}
use sde_thp.Contracts.{OperationEvent}
use sde_thp.Database.{Database, EventRow, OutboxStatus, outbox_pending, outbox_delivered}
use sde_thp.Effect.{M, pure, clock, ◌>>=◌, ◌>>◌, exec, query, Statement}
use sde_thp.Operations.Reply.{ignore}

-- `http.Client.Do`: an error with its text, or the status code of the response.
pub data HttpResult : Type 0 where
  no_response : String → HttpResult
  response : ℕ → HttpResult

-- The error of one delivery; `none` is success.
unfoldable pub delivery_error : HttpResult → Option String
delivery_error (no_response message) = some message
delivery_error (response code) =
    if ltb code 200 || leb 300 code then some ("usage service returned " ++ decimal code) else none

unfoldable pub is_pending : OutboxStatus → Bool
is_pending outbox_pending = Bool.true
is_pending outbox_delivered = Bool.false

-- `status='PENDING' AND next_attempt_at<=now()`.
unfoldable pub is_due : ℕ → EventRow → Bool
unfolding is_pending
is_due now e = is_pending e.status && leb e.next_attempt_at now

-- `ORDER BY created_at`.
unfoldable pub insert_created : EventRow → List EventRow → List EventRow
insert_created e [] = e ∷ []
insert_created e (x ∷ xs) =
    let rest = insert_created e xs in if ltb x.created_at e.created_at then x ∷ rest else e ∷ x ∷ xs

unfoldable pub by_created : List EventRow → List EventRow
by_created [] = []
by_created (x ∷ xs) = insert_created x (by_created xs)

unfoldable pub due_events : Database → List EventRow
unfolding by_created insert_created is_due
due_events d = take 20 (by_created (select_where (is_due d.now) d.event_outbox))

-- `UPDATE operations.event_outbox SET … WHERE id=$1`.
unfoldable pub update_event : String → (ℕ → EventRow → EventRow) → Statement (Unit {0})
update_event key set d = some (
  tt,
  record d { event_outbox = update_where (λ e. e.event_key == key) (set d.now) d.event_outbox },
)

unfoldable pub set_delivered : ℕ → EventRow → EventRow
set_delivered now e = record e {
  status = outbox_delivered;
  delivered_at = some now;
  attempt = e.attempt + 1;
}

-- The delay is `1 << min(attempt+1, 8)` seconds, by the attempt that the SELECT returned.
unfoldable pub set_postponed : ℕ → String → ℕ → EventRow → EventRow
set_postponed attempt message now e = record e {
  attempt = e.attempt + 1;
  last_error = some message;
  next_attempt_at = now + 2 ^ min (attempt + 1) 8 * second;
}

unfoldable pub event_of : EventRow → ℕ → OperationEvent
event_of x now = record {
  event_key = x.event_key;
  event_type = x.event_type;
  operation_id = x.operation_id;
  tenant_id = x.tenant_id;
  units = pos x.units;
  payload = x.payload;
  occurred_at = now;
}

-- The UPDATE after a delivery; its own error is dropped.
unfoldable pub settle_event : EventRow → Option String → M (Unit {0})
settle_event x none = ignore (exec (update_event x.event_key set_delivered))
settle_event x (some message) =
    ignore (exec (update_event x.event_key (set_postponed x.attempt message)))

module _ (post : OperationEvent → HttpResult) where
  unfoldable pub dispatch_event : EventRow → M (Unit {0})
  unfolding settle_event delivery_error
  dispatch_event x = do now ← clock; settle_event x (delivery_error (post (event_of x now)))

  unfoldable pub dispatch_events : List EventRow → M (Unit {0})
  unfolding dispatch_event
  dispatch_events [] = pure tt
  dispatch_events (x ∷ xs) = dispatch_event x >> dispatch_events xs

  unfoldable pub dispatch_event_batch : M (Unit {0})
  unfolding dispatch_events
  dispatch_event_batch = do rows ← query due_events; dispatch_events rows
