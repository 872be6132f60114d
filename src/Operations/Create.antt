-- ===== src/Operations/Create.antt =====
-- `create` of cmd/operations/main.go: validation, admission and the idempotent insert.
use Prim.Native.String.{◌++◌}
use sde_thp.Prelude.{
  ℕ, zero, Bool, not, ◌&&◌, ◌||◌, String, byte_length, Option, none, ℤ, pos, pos_part, ltb_ℤ, ltb,
  leb, ◌==◌, starts_with, trim_space, if◌then◌else◌,
}
use sde_thp.Domain.{pending}
use sde_thp.Contracts.{QueueEnvelope}
use sde_thp.Database.{OperationRow}
use sde_thp.Effect.{
  M, Result, ok, err, http, pure, lift, raise_if, ◌>>=◌, ◌>>◌, exec, query, send, run_workflow,
}
use sde_thp.Operations.Statements.{
  find_tenant, used_units, count_running, insert_operation, find_operation, has_key,
}
use sde_thp.Operations.Reply.{Headers, Reply, reply, one, scan_operation, bound, or_no_rows}

-- `type createInput struct`.
pub record CreateInput : Type 0 where
  pub task_type : String
  pub target_url : String
  pub payload : String
  pub max_attempts : ℤ
  pub deadline : Option ℕ
  pub execution_mode : String
  pub scheduled_for : Option ℕ

unfoldable pub is_http : String → Bool
is_http url = starts_with url "http://" || starts_with url "https://"

unfoldable pub or_default : String → String → String
or_default value fallback = if value == "" then fallback else value

-- `if in.MaxAttempts == 0 { in.MaxAttempts = 3 }`.
unfoldable pub or_three : ℤ → ℤ
or_three (pos zero) = pos 3
or_three n = n

-- The checks of the body, in order, with the defaults that they set.
unfoldable pub check_input : CreateInput → Result CreateInput
unfolding is_http or_default or_three
check_input input =
    let payload = or_default input.payload "{}" in
    let attempts = or_three input.max_attempts in
    let mode = or_default input.execution_mode "PRIVATE" in
    if input.task_type == "" || input.target_url == ""
    then err (http 400 "task_type and target_url are required")
    else if not (is_http input.target_url)
    then err (http 400 "target_url must use http or https")
    else if ltb_ℤ attempts (pos 1) || ltb_ℤ (pos 10) attempts
    then err (http 400 "max_attempts must be between 1 and 10")
    else if not (mode == "PRIVATE") && not (mode == "CLOUD")
    then err (http 400 "execution_mode must be PRIVATE or CLOUD")
    else ok (record input { payload = payload; max_attempts = attempts; execution_mode = mode })

-- The `Idempotency-Key` header.
unfoldable pub check_key : String → Result String
check_key header =
    let key = trim_space header in
    if key == ""
    then err (http 400 "Idempotency-Key header is required")
    else if ltb 200 (byte_length key)
    then err (http 400 "Idempotency-Key is too long")
    else ok key

-- The row that the INSERT writes; the other columns take their defaults.
unfoldable pub new_row : String → String → String → CreateInput → ℕ → OperationRow
new_row id tenant key input now = record {
  id = id;
  tenant_id = tenant;
  task_type = input.task_type;
  execution_mode = input.execution_mode;
  target_url = input.target_url;
  payload = input.payload;
  status = pending;
  attempt = 0;
  max_attempts = pos_part input.max_attempts;
  deadline = input.deadline;
  lease_owner = none;
  lease_expires_at = none;
  result = none;
  error_code = none;
  error_message = none;
  ai_explanation = none;
  idempotency_key = key;
  version = 0;
  created_at = now;
  updated_at = now;
}

unfoldable pub new_envelope : String → String → CreateInput → QueueEnvelope
new_envelope id tenant input = record {
  operation_id = id;
  tenant_id = tenant;
  task_type = input.task_type;
  target_url = input.target_url;
  payload = input.payload;
  attempt = 0;
  max_attempts = pos_part input.max_attempts;
  deadline = input.deadline;
  execution_mode = input.execution_mode;
  not_before = input.scheduled_for;
}

-- From the row under the key on: a row with another id is an earlier submission.
unfoldable pub submit : String → String → CreateInput → OperationRow → M Reply
unfolding new_envelope
submit id tenant input found =
    if found.id == id
    then (do
      send (run_workflow ("operation:" ++ id) (new_envelope id tenant input))
      pure (reply 202 (one (scan_operation found))))
    else pure (reply 200 (one (scan_operation found)))

-- The statements of the handler, once the input is checked.
unfoldable pub admit : (ℕ → ℕ) → String → String → String → CreateInput → M Reply
unfolding submit
admit month_start id tenant key input = do
  account ← lift (or_no_rows (← query (find_tenant tenant)))
  used ← query (used_units month_start tenant)
  running ← query (count_running tenant)
  raise_if (leb account.monthly_quota used) (http 402 "monthly quota exhausted")
  raise_if (leb account.concurrency_limit running) (http 429 "tenant concurrency limit reached")
  exec (λ d. insert_operation (new_row id tenant key input d.now) d)
  found ← lift (or_no_rows (← query (find_operation (has_key tenant key))))
  submit id tenant input found

-- `id` is the result of `uuid.NewString()`, `month_start` the `date_trunc('month', …)` of the
-- database.
unfoldable pub create : (ℕ → ℕ) → String → Headers → Option CreateInput → M Reply
unfolding admit
create month_start id headers body = do
  input ← lift (bound body)
  checked ← lift (check_input input)
  key ← lift (check_key headers.idempotency_key)
  admit month_start id headers.tenant key checked
