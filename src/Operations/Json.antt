-- ===== src/Operations/Json.antt =====
-- encoding/json, as far as the operations service calls it: `Marshal` and `Unmarshal` of an
-- envelope, `Valid`, and the `Marshal` of the two kinds of failure payload.
use sde_thp.Prelude.{String, Bool, Option}
use sde_thp.Contracts.{QueueEnvelope}

pub record Json : Type 0 where
  pub marshal_envelope : QueueEnvelope → Option String
  pub unmarshal_envelope : String → Option QueueEnvelope
  pub valid : String → Bool
  -- `{"status", "error_code", "error_message", "retryable"}` of `workerFail`.
  pub marshal_failure : String → String → String → Bool → String
  -- `{"error"}` of the lease reaper.
  pub marshal_error : String → String
