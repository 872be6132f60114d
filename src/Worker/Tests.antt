-- ===== src/Worker/Tests.antt =====
-- Concrete messages for the CLOUD worker, and the theorems on them.
use sde_thp.Prelude.{
  ◌+◌, ◌*◌, update_where, arith, ◌≡◌, ◌⊎◌, refl, true, false, none, some, not, any, ◌==◌,
}
use sde_thp.Contracts.{QueueEnvelope}
use sde_thp.Domain.{running, second}
use sde_thp.Database.{Database}
use sde_thp.Operations.Rows.{claimable, is_running}
use sde_thp.Operations.Statements.{find_operation, find_tenant, count_running, is_running_in}
use sde_thp.Operations.Claim.{is_candidate, is_claimable}
use sde_thp.Operations.Claiming.{Granted}
use sde_thp.Operations.Samples.{account, queued_row, tables}
use sde_thp.Operations.Finish.{FailInput}
use sde_thp.Worker.Outside.{response}
use sde_thp.Worker.Cloud.{Outside, process, execute, process_execution, is_retryable, error_code}
use sde_thp.Operations.Json.{Json}
use sde_thp.Operations.Poll.{decoded}
use sde_thp.Worker.Agent
use sde_thp.Worker.Agent.{called, report}
use sde_thp.Worker.Agreement.{agent_report, cloud_report, report-execute}
use sde_thp.Worker.Routing.{is_work, decoded-process}
use sde_thp.Worker.Verdict.{IsChargedOnce, process-IsChargedOnce, error_code_iff}

abbrev envelope : QueueEnvelope
envelope = record {
  operation_id = "op-1";
  tenant_id = "acme";
  task_type = "sync";
  target_url = "https://example.com";
  payload = "{}";
  attempt = 0;
  max_attempts = 3;
  deadline = none;
  execution_mode = "CLOUD";
  not_before = none;
}

-- Every service accepts; the target answers 503.
abbrev outside : Outside
outside = record {
  unmarshal_envelope = λ raw. some envelope;
  valid = λ text. true;
  marshal_body = λ body status. body;
  marshal_error = λ message. message;
  marshal_retryable_error = λ message. message;
  time = 10;
  accepts = λ action. true;
  target = λ env. response 503 "busy";
  open_router_key = "";
  primary_model = "a";
  fallback_model = "b";
  ask = λ model env result failure. none;
}

abbrev refusal : FailInput
refusal = record {
  worker_id = "w1";
  error_code = "TARGET_SERVER_ERROR";
  error_message = "busy";
  ai_explanation = "";
  retryable = true;
}

process-IsChargedOnce_example : IsChargedOnce (process outside (some "{}"))
process-IsChargedOnce_example = process-IsChargedOnce outside (some "{}")

error_code_iff_example :
    (is_retryable 503 ≡ not (error_code 503 == "TARGET_REJECTED"))
    × (Agent.is_retryable 503 ≡ not (Agent.error_code 503 == "TARGET_REJECTED"))
error_code_iff_example = error_code_iff 503

-- op-2 after the claim of w1.
abbrev claimed : Database
claimed = record tables {
  operations =
      update_where (is_claimable "acme" "op-2")
        (λ o. record o {
          status = running;
          attempt = o.attempt + 1;
          lease_owner = some "w1";
          lease_expires_at = some (tables.now + 45 * second);
          version = o.version + 1;
          updated_at = tables.now;
        })
        tables.operations;
}

granted : Granted tables "op-2" "acme" "w1" 45 "acme" claimed
unfolding find_operation find_tenant is_candidate is_claimable claimable count_running is_running_in
    is_running
granted = record {
  row = queued_row;
  candidate = refl;
  owner = refl;
  account = account;
  tenant_row = refl;
  room = omega arith;
  single = refl;
  rows = refl;
}

abbrev json : Json
json = record {
  marshal_envelope = λ e. some "{}";
  unmarshal_envelope = λ raw. some envelope;
  valid = λ text. true;
  marshal_failure = λ status code message retryable. message;
  marshal_error = λ message. message;
}

decoded-process_example :
    (decoded json "acme" (some "{}") ≡ none) ⊎ (any is_work (process outside (some "{}")) ≡ false)
decoded-process_example = decoded-process json outside "acme" (λ text. refl) (some "{}")

abbrev agent : Agent.Outside
agent = record {
  valid = λ text. true;
  marshal_body = λ body. body;
  target = λ url env. response 422 "no";
  target_override = "";
  explain = λ env result failure. "";
}

report-execute_example :
    agent_report (report agent envelope (called (response 422 "no")))
    ≡ cloud_report (process_execution outside envelope (execute outside (response 422 "no")))
report-execute_example = report-execute outside agent envelope (response 422 "no") refl
