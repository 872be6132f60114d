-- ===== src/Operations/Invariant.antt =====
-- What holds of the tables of the operations service between two handlers.
pub mod Rows
pub mod Tables
use sde_thp.Prelude.{ℕ, ◌≤◌, ◌<◌, ◌≡◌, Bool, true, false, String, Option, none, some, All, Distinct}
use sde_thp.Domain.{OperationStatus, pending, queued, running, succeeded, retrying, dead_lettered}
use sde_thp.Database.{Database, OperationRow, TenantRow}
use sde_thp.Operations.Rows.{has_id, is_running}
use sde_thp.Operations.Statements.{has_key, find_tenant, count_running}

abbrev pub is_some : {A : Type 0} → Option A → Bool
is_some none = false
is_some (some a) = true

-- A status in which a further attempt is to come.
abbrev pub awaits : OperationStatus → Bool
awaits pending = true
awaits queued = true
awaits retrying = true
awaits _ = false

-- A status that only an attempt leads to.
abbrev pub was_tried : OperationStatus → Bool
was_tried running = true
was_tried succeeded = true
was_tried dead_lettered = true
was_tried _ = false

abbrev pub is_succeeded : OperationStatus → Bool
is_succeeded succeeded = true
is_succeeded _ = false

abbrev pub is_dead : OperationStatus → Bool
is_dead dead_lettered = true
is_dead _ = false

-- A row of operations.operations is in order.
pub record IsRowValid (o : OperationRow) : Type 0 where
  -- a lease is held exactly while the operation runs
  pub leased : is_some o.lease_owner ≡ is_running o.status
  pub expiring : is_some o.lease_expires_at ≡ is_running o.status
  -- the attempts stay within their bound, and one is left while one is to come
  pub bounded : o.attempt ≤ o.max_attempts
  pub room : awaits o.status ≡ true → o.attempt < o.max_attempts
  pub tried : was_tried o.status ≡ true → 0 < o.attempt
  pub at_least : 1 ≤ o.max_attempts
  pub at_most : o.max_attempts ≤ 10
  -- success clears the error, a dead letter has one
  pub cleared : is_succeeded o.status ≡ true → is_some o.error_code ≡ false
  pub explained : is_dead o.status ≡ true → is_some o.error_code ≡ true

abbrev pub same_id : OperationRow → OperationRow → Bool
same_id y x = has_id y.id x

abbrev pub same_key : OperationRow → OperationRow → Bool
same_key y x = has_key y.tenant_id y.idempotency_key x

-- The whole database is in order.
pub record IsValid (d : Database) : Type 0 where
  pub rows : All IsRowValid d.operations
  -- the primary key, and the key under which submissions are deduplicated
  pub ids : Distinct same_id d.operations
  pub keys : Distinct same_key d.operations
  -- no tenant runs more operations than its limit
  pub limits :
      (tenant : String) (account : TenantRow)
      → find_tenant tenant d ≡ some account
      → count_running tenant d ≤ account.concurrency_limit
