-- ===== src/Worker/Agent.antt =====
-- cmd/enterprise-worker/main.go: `process`. The heartbeats that run beside the call of the target
-- are not among the actions.
use Prim.Native.String.{◌++◌}
use sde_thp.Prelude.{
  ℕ, Bool, ◌||◌, String, Option, none, some, List, [], ◌∷◌, ◌==◌, ltb, leb, nat_eq, decimal,
  if◌then◌else◌,
}
use sde_thp.Contracts.{QueueEnvelope}
use sde_thp.Worker.Outside.{Target, unreachable, not_followed, cut_off, response}

pub data Action : Type 0 where
  call_target : String → QueueEnvelope → Action
  post_complete : String → String → String → Action
  post_fail : String → String → String → Bool → String → Action

-- `explain` is the agent's method on the operation, the result and the error.
pub record Outside : Type 0 where
  pub valid : String → Bool
  pub marshal_body : String → String
  pub target : String → QueueEnvelope → Target
  pub target_override : String
  pub explain : QueueEnvelope → String → String → String

-- `retryable` of `process`; status 0 stands for no response.
unfoldable pub is_retryable : ℕ → Bool
is_retryable status = nat_eq status 0 || nat_eq status 408 || nat_eq status 429 || leb 500 status

unfoldable pub error_code : ℕ → String
error_code status =
    if nat_eq status 0
    then "NETWORK_ERROR"
    else if nat_eq status 408
    then "TARGET_TIMEOUT"
    else if nat_eq status 429
    then "TARGET_RATE_LIMITED"
    else if leb 500 status
    then "TARGET_SERVER_ERROR"
    else "TARGET_REJECTED"

-- `status`, `result` and `err` after the call; no error is `none`.
pub record Called : Type 0 where
  pub status : ℕ
  pub result : String
  pub error : Option String

unfoldable pub responded : ℕ → String → Called
responded status body = record {
  status = status;
  result = body;
  error =
      if ltb status 200 || leb 300 status
      then some ("target returned HTTP " ++ decimal status ++ ": " ++ body)
      else none;
}

-- The error of a redirect that is not followed stands, unless the status is not 2xx.
unfoldable pub failing_with : String → Called → Called
failing_with message call = elim call.error [
  | none ↦ record call { error = some message }
  | some text ↦ call
]

-- An error while the body is read is dropped, and what was read is the result.
unfoldable pub called : Target → Called
unfolding responded failing_with
called (unreachable message) = record { status = 0; result = ""; error = some message }
called (not_followed status message) = failing_with message (responded status "")
called (cut_off status body message) = responded status body
called (response status body) = responded status body

module _ (a : Outside) where
  -- The one report of `process`.
  unfoldable pub report : QueueEnvelope → Called → Action
  report operation call = elim call.error [
    | none ↦
        let result = if a.valid call.result then call.result else a.marshal_body call.result in
        post_complete operation.operation_id result (a.explain operation result "")
    | some message ↦
        post_fail operation.operation_id (error_code call.status) message (is_retryable call.status)
          (a.explain operation call.result message)
  ]

  unfoldable pub process : QueueEnvelope → List Action
  unfolding report called
  process operation =
      let target = if a.target_override == "" then operation.target_url else a.target_override in
      call_target target operation ∷ report operation (called (a.target target operation)) ∷ []
