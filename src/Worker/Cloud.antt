-- ===== src/Worker/Cloud.antt =====
-- cmd/worker/main.go: `process`, `execute`, `reportFailure`, `emit`, `explain`. The heartbeats
-- that run beside `execute` are not among the actions.
use Prim.Native.String.{◌++◌}
use sde_thp.Prelude.{
  ℕ, ◌+◌, Bool, false, not, ◌||◌, String, Option, none, some, List, [], ◌∷◌, ltb, leb, nat_eq, ◌==◌,
  decimal, if◌then◌else◌,
}
use sde_thp.Contracts.{QueueEnvelope}
use sde_thp.Worker.Outside.{Target, unreachable, not_followed, cut_off, response}

-- What the worker does; the payload of a report is the operation, then the fields of its JSON.
pub data Action : Type 0 where
  acknowledge : Action
  post_claim : String → Action
  call_target : QueueEnvelope → Action
  post_complete : String → String → String → Action
  post_fail : String → String → String → Bool → String → Action
  post_event : String → String → QueueEnvelope → String → Action

-- What the worker hears: encoding/json, the clock, whether a POST to another service is answered
-- by a 2xx, the target's answer, and `callOpenRouter` on the prompt that `explain` builds from
-- the envelope, the result and the failure.
pub record Outside : Type 0 where
  pub unmarshal_envelope : String → Option QueueEnvelope
  pub valid : String → Bool
  pub marshal_body : String → ℕ → String
  pub marshal_error : String → String
  pub marshal_retryable_error : String → String
  pub time : ℕ
  pub accepts : Action → Bool
  pub target : QueueEnvelope → Target
  pub open_router_key : String
  pub primary_model : String
  pub fallback_model : String
  pub ask : String → QueueEnvelope → String → String → Option String

-- The results of `execute`: a body, or a status and an error.
pub data Execution : Type 0 where
  executed : String → Execution
  not_executed : ℕ → String → Execution

unfoldable pub report_failure : QueueEnvelope → String → String → Bool → String → Action
report_failure env code message retryable explanation =
    post_fail env.operation_id code message retryable explanation

unfoldable pub emit : QueueEnvelope → String → String → Action
emit env event_type payload =
    post_event (env.operation_id ++ ":" ++ event_type ++ ":" ++ decimal env.attempt) event_type env
      payload

-- `retryable` of `process`; status 0 stands for no response.
unfoldable pub is_retryable : ℕ → Bool
is_retryable status = nat_eq status 0 || nat_eq status 408 || nat_eq status 429 || leb 500 status

unfoldable pub error_code : ℕ → String
error_code status =
    if nat_eq status 0
    then "NETWORK_ERROR"
    else if nat_eq status 408
    then "TARGET_TIMEOUT"
    else if nat_eq status 429
    then "TARGET_RATE_LIMITED"
    else if leb 500 status
    then "TARGET_SERVER_ERROR"
    else "TARGET_REJECTED"

-- The event that `process` announces after a failure.
unfoldable pub failure_notice : QueueEnvelope → ℕ → String
failure_notice env status =
    if not (is_retryable status) || leb env.max_attempts (env.attempt + 1)
    then "operation.dead_lettered"
    else "operation.failed"

module _ (w : Outside) where
  -- `for _, model := range`: the first model that answers.
  first_answer : List String → QueueEnvelope → String → String → String
  first_answer [] env result failure =
      "AI explanation was unavailable. Inspect the recorded result or error and retry after confirming the target service health."
  first_answer (model ∷ models) env result failure =
      let rest = first_answer models env result failure in
      elim (w.ask model env result failure) [ some answer ↦ answer | none ↦ rest ]

  unfoldable pub explain : QueueEnvelope → String → String → String
  unfolding first_answer
  explain env result failure =
      if w.open_router_key == ""
      then if failure == ""
        then "The operation completed successfully and the target acknowledged the request."
        else "The operation failed after calling the configured target. Review the HTTP error and confirm the target is reachable and accepts the submitted payload."
      else first_answer (w.primary_model ∷ w.fallback_model ∷ []) env result failure

  unfoldable pub execute : Target → Execution
  execute (unreachable message) = not_executed 0 message
  execute (not_followed status message) = not_executed 0 message
  execute (cut_off status body message) = not_executed status message
  execute (response status body) =
      if ltb status 200 || leb 300 status
      then not_executed status ("target returned HTTP " ++ decimal status ++ ": " ++ body)
      else executed (if w.valid body then body else w.marshal_body body status)

  -- The branch of `process` after a success.
  unfoldable pub process_success : QueueEnvelope → String → List Action
  unfolding explain emit
  process_success env result =
      let done = post_complete env.operation_id result (explain env result "") in
      if w.accepts done
      then done ∷ emit env "operation.succeeded" result ∷ acknowledge ∷ []
      else done ∷ []

  unfoldable pub process_failure : QueueEnvelope → ℕ → String → List Action
  unfolding explain emit report_failure failure_notice
  process_failure env status message =
      report_failure env (error_code status) message (is_retryable status) (explain env "" message)
      ∷ emit env (failure_notice env status) (
          if failure_notice env status == "operation.dead_lettered"
          then w.marshal_error message
          else w.marshal_retryable_error message)
      ∷ acknowledge
      ∷ []

  unfoldable pub process_execution : QueueEnvelope → Execution → List Action
  unfolding process_success process_failure
  process_execution env (executed result) = process_success env result
  process_execution env (not_executed status message) = process_failure env status message

  unfoldable pub is_past : Option ℕ → Bool
  is_past none = false
  is_past (some deadline) = ltb deadline w.time

  unfoldable pub process_envelope : QueueEnvelope → List Action
  unfolding is_past report_failure process_execution execute
  process_envelope env =
      if is_past env.deadline
      then report_failure env "DEADLINE_EXCEEDED" "operation deadline exceeded" false ""
        ∷ acknowledge
        ∷ []
      else if not (env.execution_mode == "CLOUD")
      then acknowledge ∷ []
      else if not (w.accepts (post_claim env.operation_id))
      then post_claim env.operation_id ∷ []
      else post_claim env.operation_id
        ∷ call_target env
        ∷ process_execution env (execute (w.target env))

  unfoldable pub decoded : Option QueueEnvelope → List Action
  unfolding process_envelope
  decoded none = acknowledge ∷ []
  decoded (some env) = process_envelope env

  -- The message's value `envelope` is `none` if it is absent or no string.
  unfoldable pub process : Option String → List Action
  unfolding decoded
  process none = acknowledge ∷ []
  process (some raw) = decoded (w.unmarshal_envelope raw)
