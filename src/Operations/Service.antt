-- ===== src/Operations/Service.antt =====
-- The operations service as a whole: cmd/operations/main.go `main` routes requests to handlers,
-- DBOS runs the queue workflow, and two tickers run the reaper and the outbox. A run is any
-- sequence of these, one after the other.
use sde_thp.Prelude.{ℕ, String, Option, List, [], ◌∷◌, ℤ}
use sde_thp.Contracts.{QueueEnvelope, OperationEvent}
use sde_thp.Effect.{World, M}
use sde_thp.Operations.Json.{Json}
use sde_thp.Operations.Reply.{Headers, ignore}
use sde_thp.Operations.Create.{CreateInput, create}
use sde_thp.Operations.Enqueue.{sleep, queue_operation_workflow}
use sde_thp.Operations.Read.{get, get_internal, list}
use sde_thp.Operations.Cancel.{cancel, redrive}
use sde_thp.Operations.Claim.{ClaimInput, claim, heartbeat, worker_heartbeat}
use sde_thp.Operations.Finish.{
  CompleteInput, FailInput, complete, fail, worker_complete, worker_fail,
}
use sde_thp.Operations.Poll.{Redis, worker_poll}
use sde_thp.Operations.Reaper.{reap_expired_lease_batch}
use sde_thp.Operations.Outbox.{HttpResult, dispatch_event_batch}

-- What the service is asked to do; `on_wait` lets time pass.
pub data Request : Type 0 where
  on_create : String → Headers → Option CreateInput → Request
  on_workflow : QueueEnvelope → Request
  on_get : Headers → String → Request
  on_get_internal : String → Request
  on_list : Headers → ℤ → String → Request
  on_cancel : Headers → String → Request
  on_claim : String → Option ClaimInput → Request
  on_heartbeat : String → String → Request
  on_complete : String → Option CompleteInput → Request
  on_fail : String → Option FailInput → Request
  on_poll : Redis → Headers → String → Request
  on_worker_heartbeat : Headers → String → String → Request
  on_worker_complete : Headers → String → Option CompleteInput → Request
  on_worker_fail : Headers → String → Option FailInput → Request
  on_reap : Request
  on_dispatch : (OperationEvent → HttpResult) → Request
  on_wait : ℕ → Request

-- The one request that takes an operation out of a terminal status stands apart.
pub data Call : Type 0 where
  request : Request → Call
  on_redrive : String → Headers → String → Call

module _ (json : Json) (month_start : ℕ → ℕ) where
  unfoldable pub serve_one : Request → M (Unit {0})
  serve_one (on_create id headers body) = ignore (create month_start id headers body)
  serve_one (on_workflow envelope) = ignore (queue_operation_workflow json envelope)
  serve_one (on_get headers id) = ignore (get headers id)
  serve_one (on_get_internal id) = ignore (get_internal id)
  serve_one (on_list headers limit status) = ignore (list headers limit status)
  serve_one (on_cancel headers id) = ignore (cancel headers id)
  serve_one (on_claim id body) = ignore (claim id body)
  serve_one (on_heartbeat id worker) = ignore (heartbeat id worker)
  serve_one (on_complete id body) = ignore (complete id body)
  serve_one (on_fail id body) = ignore (fail id body)
  serve_one (on_poll redis headers worker) = ignore (worker_poll json redis headers worker)
  serve_one (on_worker_heartbeat headers id worker) = ignore (worker_heartbeat headers id worker)
  serve_one (on_worker_complete headers id body) = ignore (worker_complete json headers id body)
  serve_one (on_worker_fail headers id body) = ignore (worker_fail json headers id body)
  serve_one on_reap = ignore (reap_expired_lease_batch json)
  serve_one (on_dispatch post) = ignore (dispatch_event_batch post)
  serve_one (on_wait n) = ignore (sleep n)

  -- The tables after requests that do not redrive.
  unfoldable pub serve : List Request → World → World
  serve [] w = w
  serve (r ∷ rs) w = serve rs (serve_one r w).1

  unfoldable pub call_one : Call → M (Unit {0})
  call_one (request r) = serve_one r
  call_one (on_redrive fresh headers id) = ignore (redrive fresh headers id)

  unfoldable pub run : List Call → World → World
  run [] w = w
  run (c ∷ cs) w = run cs (call_one c w).1
