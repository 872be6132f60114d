-- ===== src/Usage/Calls.antt =====
-- `dispatchEventBatch` of cmd/operations/main.go with `recordEvent` of cmd/usage/main.go in the
-- place of the usage service: the call over HTTP runs the handler on the common database.
use sde_thp.Prelude.{String, Option, List, [], ◌∷◌}
use sde_thp.Contracts.{OperationEvent}
use sde_thp.Database.{EventRow}
use sde_thp.Effect.{
  M, Fault, fine, refused, lost, Result, ok, err, pure, clock, query, ◌>>=◌, ◌>>◌, next_fault,
  later_faults, error_code,
}
use sde_thp.Operations.Outbox.{
  HttpResult, no_response, response, delivery_error, due_events, event_of, settle_event,
}
use sde_thp.Usage.Reply.{Reply}
use sde_thp.Usage.Record.{record_event}

unfoldable pub status_of : Result Reply → HttpResult
unfolding error_code
status_of (ok r) = response r.code
status_of (err e) = response (error_code e)

-- One HTTP call of a handler: it is answered; it does not arrive; or it runs and its answer is
-- lost on the way back. `text` is the error of the two failures.
unfoldable pub carried : Fault → String → M Reply → M HttpResult
unfolding status_of
carried fine text handler w = let (r, w') = handler w in (ok (status_of r), w')
carried refused text handler w = (ok (no_response text), w)
carried lost text handler w = let (r, w') = handler w in (ok (no_response text), w')

unfoldable pub call : String → M Reply → M HttpResult
unfolding carried next_fault later_faults
call text handler w =
    carried (next_fault w.faults) text handler (record w { faults = later_faults w.faults })

-- What the usage service reads of an event that was sent to it, the error of a failed call, the
-- identifiers of the webhooks of an event, and the JSON of an event.
pub record Wire : Type 0 where
  pub received : OperationEvent → Option OperationEvent
  pub broken : String
  pub new_id : String → String → String
  pub marshal : OperationEvent → String

module _ (wire : Wire) where
  unfoldable pub charge_event : EventRow → M (Unit {0})
  unfolding call
  charge_event x = do
    now ← clock
    answer ←
        call wire.broken
          (record_event (wire.new_id x.event_key) wire.marshal (wire.received (event_of x now)))
    settle_event x (delivery_error answer)

  unfoldable pub charge_events : List EventRow → M (Unit {0})
  unfolding charge_event
  charge_events [] = pure tt
  charge_events (x ∷ xs) = charge_event x >> charge_events xs

  unfoldable pub charge_batch : M (Unit {0})
  unfolding charge_events
  charge_batch = do rows ← query due_events; charge_events rows
