-- ===== src/Operations/Samples.antt =====
-- Concrete tables of the operations service, in order.
use mathlib.Core.Path.{subst}
use mathlib.Core.Option.{some-injective}
use sde_thp.Prelude.{
  suc, ◌≤◌, ◌&&◌, if◌then◌else◌, ◌≡◌, refl, Bool, true, false, String, none, some, [], ◌∷◌, arith,
  ◌==◌,
}
use sde_thp.Domain.{queued, running}
use sde_thp.Database.{Database, TenantRow, OperationRow}
use sde_thp.Operations.Json.{Json}
use sde_thp.Operations.Rows.{is_running}
use sde_thp.Operations.Statements.{find_tenant, count_running, is_running_in, has_key}
use sde_thp.Operations.Invariant.{IsRowValid, IsValid}

abbrev pub json : Json
json = record {
  marshal_envelope = λ e. some e.operation_id;
  unmarshal_envelope = λ raw. none;
  valid = λ text. text == "{}";
  marshal_failure = λ status code message retryable. message;
  marshal_error = λ message. message;
}

-- Worker w1 runs its first attempt of op-1.
abbrev pub running_row : OperationRow
running_row = record {
  id = "op-1";
  tenant_id = "acme";
  task_type = "sync";
  execution_mode = "PRIVATE";
  target_url = "https://example.com";
  payload = "{}";
  status = running;
  attempt = 1;
  max_attempts = 3;
  deadline = none;
  lease_owner = some "w1";
  lease_expires_at = some 100;
  result = none;
  error_code = none;
  error_message = none;
  ai_explanation = none;
  idempotency_key = "key-1";
  version = 2;
  created_at = 1;
  updated_at = 2;
}

-- Nobody has claimed op-2 yet.
abbrev pub queued_row : OperationRow
queued_row = record running_row {
  id = "op-2";
  status = queued;
  attempt = 0;
  lease_owner = none;
  lease_expires_at = none;
  idempotency_key = "key-2";
  version = 1;
}

abbrev pub account : TenantRow
account = record {
  id = "acme";
  name = "Acme";
  slug = "acme";
  monthly_quota = 100;
  concurrency_limit = 2;
  created_at = 1;
}

abbrev pub tables : Database
tables = record {
  tenants = account ∷ [];
  users = [];
  api_keys = [];
  webhook_endpoints = [];
  webhook_outbox = [];
  operations = running_row ∷ queued_row ∷ [];
  transition_log = [];
  ledger = [];
  event_outbox = [];
  now = 50;
}

running_row-IsRowValid : IsRowValid running_row
unfolding is_running
running_row-IsRowValid = record {
  leased = refl;
  expiring = refl;
  bounded = omega arith;
  room = λ h. cc;
  tried = λ h. omega arith;
  at_least = omega arith;
  at_most = omega arith;
  cleared = λ h. cc;
  explained = λ h. cc;
}

queued_row-IsRowValid : IsRowValid queued_row
unfolding is_running
queued_row-IsRowValid = record {
  leased = refl;
  expiring = refl;
  bounded = omega arith;
  room = λ h. omega arith;
  tried = λ h. cc;
  at_least = omega arith;
  at_most = omega arith;
  cleared = λ h. cc;
  explained = λ h. cc;
}

tables-limits :
    (tenant : String) (row : TenantRow)
    → find_tenant tenant tables ≡ some row
    → count_running tenant tables ≤ row.concurrency_limit
unfolding find_tenant count_running is_running_in is_running
tables-limits tenant row h = limited ("acme" == tenant) h
  where
    limited :
        (b : Bool)
        → (if b then some account else none) ≡ some row
        → (if b && true then suc (if b && false then 1 else 0) else if b && false then 1 else 0)
          ≤ row.concurrency_limit
    limited true h =
        subst (λ r. 1 ≤ r.concurrency_limit) (some-injective account row h) (omega arith)
    limited false h = cc

pub tables-IsValid : IsValid tables
unfolding has_key
tables-IsValid = record {
  rows = (running_row-IsRowValid, (queued_row-IsRowValid, tt));
  ids = ((refl, tt), (tt, tt));
  keys = ((refl, tt), (tt, tt));
  limits = tables-limits;
}
