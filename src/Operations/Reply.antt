-- ===== src/Operations/Reply.antt =====
-- What the handlers of cmd/operations/main.go share: requests, replies, the row that a reply
-- carries, and the envelope of a row.
use sde_thp.Prelude.{ℕ, String, Option, none, some, List}
use sde_thp.Domain.{OperationStatus}
use sde_thp.Contracts.{QueueEnvelope}
use sde_thp.Database.{OperationRow}
use sde_thp.Effect.{M, Result, ok, err, no_rows, failure, http}

-- The headers that the handlers read.
pub record Headers : Type 0 where
  pub tenant : String
  pub role : String
  pub idempotency_key : String

-- `type operation struct`.
pub record Operation : Type 0 where
  pub id : String
  pub tenant_id : String
  pub task_type : String
  pub execution_mode : String
  pub target_url : String
  pub payload : String
  pub status : OperationStatus
  pub attempt : ℕ
  pub max_attempts : ℕ
  pub deadline : Option ℕ
  pub result : Option String
  pub error_code : Option String
  pub error_message : Option String
  pub ai_explanation : Option String
  pub created_at : ℕ
  pub updated_at : ℕ

-- `operationColumns` and `scanOperation`.
unfoldable pub scan_operation : OperationRow → Operation
scan_operation o = record {
  id = o.id;
  tenant_id = o.tenant_id;
  task_type = o.task_type;
  execution_mode = o.execution_mode;
  target_url = o.target_url;
  payload = o.payload;
  status = o.status;
  attempt = o.attempt;
  max_attempts = o.max_attempts;
  deadline = o.deadline;
  result = o.result;
  error_code = o.error_code;
  error_message = o.error_message;
  ai_explanation = o.ai_explanation;
  created_at = o.created_at;
  updated_at = o.updated_at;
}

-- The columns that `fail`, `redrive` and the reaper scan into an envelope.
unfoldable pub envelope_of : OperationRow → QueueEnvelope
envelope_of o = record {
  operation_id = o.id;
  tenant_id = o.tenant_id;
  task_type = o.task_type;
  target_url = o.target_url;
  payload = o.payload;
  attempt = o.attempt;
  max_attempts = o.max_attempts;
  deadline = o.deadline;
  execution_mode = o.execution_mode;
  not_before = none;
}

pub data Body : Type 0 where
  nothing : Body
  one : Operation → Body
  many : List Operation → Body
  job : QueueEnvelope → Body
  fields : List (String × String) → Body

-- `c.JSON(code, body)` and `c.NoContent(code)`.
pub record Reply : Type 0 where
  pub code : ℕ
  pub body : Body

abbrev pub reply : ℕ → Body → Reply
reply code body = record { code = code; body = body }

-- A body that `c.Bind` could not decode is `none`.
unfoldable pub bound : {A : Type 0} → Option A → Result A
bound none = err (http 400 "invalid JSON")
bound (some a) = ok a

-- `pgx.ErrNoRows` handed to the framework.
unfoldable pub or_no_rows : {A : Type 0} → Option A → Result A
or_no_rows none = err no_rows
or_no_rows (some a) = ok a

-- A row that is missing is answered by an HTTP error.
unfoldable pub or_http : {A : Type 0} → ℕ → String → Option A → Result A
or_http code message none = err (http code message)
or_http code message (some a) = ok a

unfoldable pub or_failure : {A : Type 0} → Option A → Result A
or_failure none = err failure
or_failure (some a) = ok a

-- `_ = f()`: the error is dropped.
unfoldable pub ignore : {A : Type 0} → M A → M (Unit {0})
ignore m w = (ok tt, (m w).1)

-- `err` kept as a value for the code that tests it.
unfoldable pub caught : {A : Type 0} → M A → M (Result A)
caught m w = let (r, w') = m w in (ok r, w')
