-- ===== src/Worker/Verdict.antt =====
-- What the CLOUD worker does with a message, and how its verdict on a failure agrees with the one
-- of the operations service.
use sde_thp.Prelude.{
  ℕ, ◌+◌, ◌≡◌, inl, inr, refl, Bool, true, false, not, ◌&&◌, ◌||◌, Bool-cases, Option-cases, String,
  Option, none, some, List, ◌∷◌, arith, ltb, leb, nat_eq, count_where, ◌≤◌, ◌==◌, if◌then◌else◌,
  any,
}
use sde_thp.Domain.{dead_lettered, retrying, status_eq}
use sde_thp.Contracts.{QueueEnvelope}
use sde_thp.Database.{OperationRow}
use sde_thp.Operations.Finish.{FailInput, failure_status, failure_event}
use sde_thp.Worker.Cloud.{
  Action, acknowledge, post_claim, call_target, post_complete, post_event, Outside, Execution,
  executed, not_executed, process, process_envelope, process_success, process_failure,
  process_execution, decoded, is_past, failure_notice, execute, emit, report_failure, explain,
  is_retryable, error_code,
}
use sde_thp.Worker.Agent

abbrev pub is_acknowledge : Action → Bool
is_acknowledge acknowledge = true
is_acknowledge _ = false

abbrev pub is_event : Action → Bool
is_event (post_event key event_type env payload) = true
is_event _ = false

codes :
    (a b c d : Bool)
    → (a || b || c || d)
      ≡ not (
          (if a
            then "NETWORK_ERROR"
            else if b
            then "TARGET_TIMEOUT"
            else if c
            then "TARGET_RATE_LIMITED"
            else if d
            then "TARGET_SERVER_ERROR"
            else "TARGET_REJECTED")
          == "TARGET_REJECTED")
codes true b c d = refl
codes false true c d = refl
codes false false true d = refl
codes false false false true = refl
codes false false false false = refl

-- Of a failed call of a target, by its status (0 for none), in each of the two workers: the
-- failure is marked as retryable exactly when its code is not TARGET_REJECTED.
pub error_code_iff :
    (status : ℕ)
    → (is_retryable status ≡ not (error_code status == "TARGET_REJECTED"))
      × (Agent.is_retryable status ≡ not (Agent.error_code status == "TARGET_REJECTED"))
unfolding is_retryable error_code Agent.is_retryable Agent.error_code
error_code_iff status =
    let k = codes (nat_eq status 0) (nat_eq status 408) (nat_eq status 429) (leb 500 status) in
    (k, k)

leb-ltb : (n m : ℕ) → leb m n ≡ not (ltb n m)
leb-ltb n m = ground arith

verdict :
    (retryable left : Bool)
    → (if not retryable || not left then "operation.dead_lettered" else "operation.failed")
      ≡ failure_event (if retryable && left then retrying else dead_lettered)
unfolding failure_event status_eq
verdict false left = refl
verdict true true = refl
verdict true false = refl

-- Where the claim has raised the attempt of the row by one above the envelope's, and the limits
-- agree, the CLOUD worker announces a failure as dead-lettered or failed as the status says that
-- the operations service sets for the row, by the name that `workerFail` has for that status.
pub failure_notice-failure_event :
    (env : QueueEnvelope) (status : ℕ) (input : FailInput) (o : OperationRow)
    → input.retryable ≡ is_retryable status
    → o.attempt ≡ env.attempt + 1
    → o.max_attempts ≡ env.max_attempts
    → failure_notice env status ≡ failure_event (failure_status input o)
unfolding failure_notice failure_event failure_status status_eq
failure_notice-failure_event env status input o h a m = rw h (
    rw a (
      rw m (
        rw (leb-ltb (env.attempt + 1) env.max_attempts)
          (verdict (is_retryable status) (ltb (env.attempt + 1) env.max_attempts)))))

-- The actions announce one event at most, and only beside an acknowledgement.
abbrev pub IsChargedOnce : List Action → Type 0
IsChargedOnce actions =
    (count_where is_event actions ≤ 1)
    × (any is_event actions ≡ true → any is_acknowledge actions ≡ true)

module _ (w : Outside) where
  process_success-IsChargedOnce :
      (env : QueueEnvelope) (result : String)
      → IsChargedOnce (post_claim env.operation_id ∷ call_target env ∷ process_success w env result)
  unfolding process_success emit
  process_success-IsChargedOnce env result =
      elim (Bool-cases
        (w.accepts (post_complete env.operation_id result (explain w env result "")))) [
          | inl e ↦ rw e (ground arith)
          | inr e ↦ rw e (ground arith)
        ]

  process_execution-IsChargedOnce :
      (env : QueueEnvelope) (x : Execution)
      → IsChargedOnce (post_claim env.operation_id ∷ call_target env ∷ process_execution w env x)
  unfolding process_execution process_failure report_failure emit
  process_execution-IsChargedOnce env (executed result) = process_success-IsChargedOnce env result
  process_execution-IsChargedOnce env (not_executed status message) = ground arith

  process_envelope-IsChargedOnce : (env : QueueEnvelope) → IsChargedOnce (process_envelope w env)
  unfolding process_envelope report_failure
  process_envelope-IsChargedOnce env = elim (Bool-cases (is_past w env.deadline)) [
    | inl e ↦ rw e (ground arith)
    | inr e ↦ rw e (elim (Bool-cases (env.execution_mode == "CLOUD")) [
      | inr f ↦ rw f (ground arith)
      | inl f ↦ rw f (elim (Bool-cases (w.accepts (post_claim env.operation_id))) [
        | inr g ↦ rw g (ground arith)
        | inl g ↦ rw g (process_execution-IsChargedOnce env (execute w (w.target env)))
      ])
    ])
  ]

  -- Whatever the other services, the target and the language model answer, the worker announces
  -- at most one usage event for a message, and one that it has announced an event for is
  -- acknowledged, so that the stream does not deliver it, and the tenant is not charged, again.
  pub process-IsChargedOnce : (message : Option String) → IsChargedOnce (process w message)
  unfolding process decoded
  process-IsChargedOnce none = ground arith
  process-IsChargedOnce (some raw) = elim (Option-cases (w.unmarshal_envelope raw)) [
    | inl e ↦ rw e (ground arith)
    | inr (env, e) ↦ rw e (process_envelope-IsChargedOnce env)
  ]
