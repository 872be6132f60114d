-- ===== src/Worker/Agreement.antt =====
-- The two workers call targets with two pieces of code; what they report of the answer.
use sde_thp.Prelude.{
  ◌≡◌, refl, Bool, true, false, ◌||◌, String, Option, none, some, List, [], ◌∷◌, Bool-cases, inl,
  inr, ltb, leb, if◌then◌else◌,
}
use sde_thp.Contracts.{QueueEnvelope}
use sde_thp.Worker.Outside.{Target, unreachable, not_followed, cut_off, response}
use sde_thp.Worker.Cloud.{
  execute, post_complete, explain, emit, report_failure, process_success, process_failure,
  process_execution,
}
use sde_thp.Worker.Cloud
use sde_thp.Worker.Agent.{called, responded, report}
use sde_thp.Worker.Agent

-- The answer of the target was read to its end, or there was none.
abbrev pub is_whole : Target → Bool
is_whole (not_followed status message) = false
is_whole (cut_off status body message) = false
is_whole _ = true

-- The failure that the CLOUD worker reports: the operation, the code, the text, the retry flag.
abbrev pub cloud_report : List Cloud.Action → Option (String × (String × (String × Bool)))
cloud_report [] = none
cloud_report (Cloud.post_fail id code message retryable explanation ∷ actions) =
    some (id, (code, (message, retryable)))
cloud_report (_ ∷ actions) = cloud_report actions

-- The same of the enterprise worker's one report.
abbrev pub agent_report : Agent.Action → Option (String × (String × (String × Bool)))
agent_report (Agent.post_fail id code message retryable explanation) =
    some (id, (code, (message, retryable)))
agent_report _ = none

module _ (w : Cloud.Outside) (a : Agent.Outside) (env : QueueEnvelope) where
  no_failure : (result : String) → cloud_report (process_success w env result) ≡ none
  unfolding process_success emit
  no_failure result =
      elim (Bool-cases
        (w.accepts (post_complete env.operation_id result (explain w env result "")))) [
          | inl e ↦ rw e refl
          | inr e ↦ rw e refl
        ]

  -- Where the target's answer is read to its end, or there is none: the report of the enterprise
  -- worker is one of a failure exactly when the CLOUD worker's actions after the call have one, and
  -- then both name the operation, the code, the text and the retry flag alike.
  pub report-execute :
      (t : Target)
      → is_whole t ≡ true
      → agent_report (report a env (called t))
        ≡ cloud_report (process_execution w env (execute w t))
  unfolding report called responded execute process_execution process_failure report_failure
      Cloud.error_code Cloud.is_retryable Agent.error_code Agent.is_retryable
  report-execute (unreachable message) h = refl
  report-execute (not_followed status message) h = cc
  report-execute (cut_off status body message) h = cc
  report-execute (response status body) h = elim (Bool-cases (ltb status 200 || leb 300 status)) [
    | inl e ↦ rw e refl
    | inr e ↦
        rw e (rw (no_failure (if w.valid body then body else w.marshal_body body status)) refl)
  ]
