-- ===== src/Operations/Tests.antt =====
-- Concrete tables, and the theorems on them.
use sde_thp.Prelude.{
  Extends, ℕ, ◌⊎◌, ◌==◌, false, String, inl, trim_space, byte_length, length, All, ◌≤◌, ◌≡◌, refl,
  true, none, some, List, [], ◌∷◌, pos, arith,
}
use sde_thp.Contracts.{QueueEnvelope, OperationEvent}
use sde_thp.Database.{Database, EventRow, outbox_pending}
use sde_thp.Effect.{Command, ok, err, http, World, fine, lost}
use sde_thp.Operations.Rows.{is_running, is_leased, of_tenant}
use sde_thp.Operations.Statements.{has_key, find_operation, find_tenant}
use sde_thp.Operations.Reply.{Headers, reply, one, scan_operation, envelope_of}
use sde_thp.Effect.Hoare.{Hoare}
use sde_thp.Operations.Create.{CreateInput, check_input, check_key, create}
use sde_thp.Operations.Claim.{claim_operation, heartbeat, worker_heartbeat}
use sde_thp.Operations.Finish.{
  CompleteInput, FailInput, complete, fail, worker_complete, worker_fail,
}
use sde_thp.Operations.Read.{listed}
use sde_thp.Operations.Poll.{Redis, nil, value, worker_poll}
use sde_thp.Operations.Service.{
  Request, on_claim, on_fail, on_complete, on_cancel, on_reap, request, on_redrive, serve, run,
}
use sde_thp.Operations.History.{Sound}
use sde_thp.Operations.Safety.Service.{Final, serve-Sound, run-Final}
use sde_thp.Operations.Claiming.{Outcome, Failed, claim_operation-Granted}
use sde_thp.Operations.Atomic.{Completed, Either, worker_complete-atomic}
use sde_thp.Effect.Calm.{calm}
use sde_thp.Operations.Draining.{Drained, dispatch_event_batch-Drained}
use sde_thp.Operations.Outbox.{HttpResult, response, delivery_error, is_due, dispatch_event_batch}
use sde_thp.Operations.Delivery.{Delivers, dispatch_event_batch-Delivers}
use sde_thp.Operations.Admission.{MayAdmit, Answers, create-Admitted}
use sde_thp.Operations.Refusing.{create-refused}
use sde_thp.Operations.Failing.{Reported, Intact, worker_fail-Reported}
use sde_thp.Operations.Replay.{replayed, create-replay}
use sde_thp.Operations.Isolation.{IsFor, listed-tenant, worker_poll-IsFor}
use sde_thp.Operations.Leases.{IsRefused, report-IsRefused}
use sde_thp.Operations.Samples.{json, account, running_row, queued_row, tables, tables-IsValid}

abbrev start : World
start = record { db = tables; time = 50; faults = fine ∷ fine ∷ fine ∷ lost ∷ []; sent = [] }

abbrev acme : Headers
acme = record { tenant = "acme"; role = "member"; idempotency_key = " key-1 " }

abbrev done : CompleteInput
done = record { worker_id = "w1"; result = some "{}"; ai_explanation = "ok" }

abbrev failing : FailInput
failing = record {
  worker_id = "w2";
  error_code = "NETWORK_ERROR";
  error_message = "no route";
  ai_explanation = "";
  retryable = true;
}

abbrev requests : List Request
requests =
    on_claim "op-2" (some (record { worker_id = "w2"; lease_seconds = pos 30 }))
    ∷ on_fail "op-2" (some failing)
    ∷ on_complete "op-1" (some done)
    ∷ on_cancel acme "op-2"
    ∷ on_reap
    ∷ []

abbrev envelope : QueueEnvelope
envelope = record (envelope_of queued_row) { attempt = 2 }

abbrev redis : Redis
redis = record {
  get_cursor = λ key. nil;
  read = λ cursor. value (record { id = "1-0"; envelope = some "op-2" } ∷ []);
}

serve-Sound_example : Sound tables (serve json (λ n. 0) requests start).db
serve-Sound_example = serve-Sound json (λ n. 0) requests start tables-IsValid

run-Final_example :
    Final tables
      (run json
        (λ n. 0)
        (request (on_cancel acme "op-2") ∷ on_redrive "x" acme "op-1" ∷ [])
        start).db
run-Final_example =
    run-Final json (λ n. 0) (request (on_cancel acme "op-2") ∷ on_redrive "x" acme "op-1" ∷ [])
      start tables-IsValid

claim_operation-Granted_example :
    Hoare
      (λ d. d ≡ tables)
      (claim_operation "op-2" "acme" "w2" 45)
      (Outcome tables "op-2" "acme" "w2" 45)
      (Failed tables "op-2" "acme" "w2" 45)
claim_operation-Granted_example = claim_operation-Granted tables "op-2" "acme" "w2" 45

worker_complete-atomic_example :
    Hoare
      (λ d. d ≡ tables)
      (worker_complete json acme "op-1" (some done))
      (λ _. Completed json tables "acme" "op-1" done)
      (Either json tables acme "op-1" done)
worker_complete-atomic_example = worker_complete-atomic json tables acme "op-1" done

worker_poll-IsFor_example :
    Hoare (λ d. Unit) (worker_poll json redis acme "w2") (λ r d. IsFor "acme" r.body) (λ d. Unit)
worker_poll-IsFor_example = worker_poll-IsFor json redis acme "w2"

listed-tenant_example :
    (length (listed acme (pos 500) "" tables) ≤ 100)
    × All
        (λ o. (acme.role == "admin" ≡ true) ⊎ (of_tenant "acme" o ≡ true))
        (listed acme (pos 500) "" tables)
listed-tenant_example = listed-tenant acme (pos 500) "" tables

report-IsRefused_example :
    (IsRefused tables (heartbeat "op-2" "w1")
      × IsRefused tables (worker_heartbeat acme "op-2" "w1"))
    × ((IsRefused tables (complete "op-2" (some done))
          × IsRefused tables (worker_complete json acme "op-2" (some done)))
        × (IsRefused tables (fail "op-2" (some failing))
            × IsRefused tables (worker_fail json acme "op-2" (some failing))))
unfolding find_operation is_leased is_running
report-IsRefused_example = report-IsRefused json tables acme "op-2" "w1" done failing refl refl refl

abbrev new_key : Headers
new_key = record acme { idempotency_key = "key-3" }

abbrev submitted : CreateInput
submitted = record {
  task_type = "sync";
  target_url = "https://example.com";
  payload = "{}";
  max_attempts = pos 3;
  deadline = none;
  execution_mode = "CLOUD";
  scheduled_for = none;
}

create-Admitted_example :
    Hoare
      (λ d. d ≡ tables)
      (create (λ n. 0) "op-3" new_key (some submitted))
      (Answers (λ n. 0) tables "op-3" "acme" "key-3" submitted)
      (MayAdmit (λ n. 0) tables "op-3" "acme" "key-3" submitted)
unfolding check_input check_key trim_space byte_length find_operation
create-Admitted_example =
    create-Admitted (λ n. 0) tables "op-3" "key-3" new_key submitted submitted refl refl refl

create-replay_example :
    ((time : ℕ) (sent : List Command)
      → create (λ n. 0) "op-3" acme (some submitted) (calm tables time sent)
        ≡ (replayed (λ n. 0) tables "acme" account running_row, calm tables time sent))
    × Hoare
        (λ d. d ≡ tables)
        (create (λ n. 0) "op-3" acme (some submitted))
        (λ r d. (r ≡ reply 200 (one (scan_operation running_row))) × (d ≡ tables))
        (λ d. d ≡ tables)
unfolding check_input check_key trim_space byte_length find_operation find_tenant has_key
create-replay_example =
    create-replay (λ n. 0) tables "op-3" "key-1" acme submitted submitted account running_row refl
      refl refl refl refl

abbrev ftp : CreateInput
ftp = record submitted { target_url = "ftp://x" }

create-refused_example :
    (message : String) × (create (λ n. 0) "op-3" new_key (some ftp) start
      ≡ (err (http 400 message), start))
create-refused_example =
    create-refused (λ n. 0) "op-3" new_key ftp start (inl (λ fit. absent fit.scheme))
  where
    absent : false ≡ true → ⊥
    absent e = cc

abbrev event : EventRow
event = record {
  event_key = "op-1:operation.succeeded:1";
  event_type = "operation.succeeded";
  operation_id = "op-1";
  tenant_id = "acme";
  units = 1;
  payload = "{}";
  status = outbox_pending;
  attempt = 0;
  next_attempt_at = 10;
  last_error = none;
  created_at = 5;
  delivered_at = none;
}

abbrev with_event : Database
with_event = record tables { event_outbox = event ∷ [] }

abbrev accepting : OperationEvent → HttpResult
accepting e = response 202

dispatch_event_batch-Delivers_example :
    Hoare
      (λ d. d ≡ with_event)
      (dispatch_event_batch accepting)
      (λ _ d. Extends (Delivers accepting) with_event.event_outbox d.event_outbox)
      (λ d. Extends (Delivers accepting) with_event.event_outbox d.event_outbox)
dispatch_event_batch-Delivers_example = dispatch_event_batch-Delivers accepting with_event

abbrev own_failure : FailInput
own_failure = record failing { worker_id = "w1" }

worker_fail-Reported_example :
    Hoare
      (λ d. d ≡ tables)
      (worker_fail json acme "op-1" (some own_failure))
      (λ _. Reported json tables "acme" "op-1" own_failure)
      (Intact json tables acme "op-1" own_failure)
worker_fail-Reported_example = worker_fail-Reported json tables acme "op-1" own_failure

dispatch_event_batch-Drained_example :
    (d' : Database) × ((dispatch_event_batch accepting (calm with_event 50 [])
        ≡ (ok tt, calm d' 50 []))
      × Extends (Drained 50) with_event.event_outbox d'.event_outbox)
unfolding delivery_error is_due
dispatch_event_batch-Drained_example =
    dispatch_event_batch-Drained accepting (λ e. refl) 50 [] with_event (omega arith)
