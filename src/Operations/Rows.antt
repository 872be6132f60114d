-- ===== src/Operations/Rows.antt =====
-- The WHERE and SET clauses of cmd/operations/main.go on one row of operations.operations.
-- `now` is the statement's `now()`.
use sde_thp.Prelude.{ℕ, ◌+◌, ◌*◌, Bool, true, false, ◌&&◌, String, Option, none, some, ◌==◌, ltb}
use sde_thp.Domain.{
  OperationStatus, pending, queued, running, succeeded, failed, retrying, dead_lettered, cancelled,
  second,
}
use sde_thp.Database.{OperationRow}

-- `status IN ('PENDING','RETRYING')`.
unfoldable pub enqueueable : OperationStatus → Bool
enqueueable pending = true
enqueueable retrying = true
enqueueable _ = false

-- `status IN ('PENDING','QUEUED','RUNNING','RETRYING','FAILED')`.
unfoldable pub cancellable : OperationStatus → Bool
cancellable pending = true
cancellable queued = true
cancellable running = true
cancellable retrying = true
cancellable failed = true
cancellable _ = false

-- `status IN ('FAILED','DEAD_LETTERED')`.
unfoldable pub redrivable : OperationStatus → Bool
redrivable failed = true
redrivable dead_lettered = true
redrivable _ = false

-- `status IN ('QUEUED','RETRYING')`.
unfoldable pub claimable : OperationStatus → Bool
claimable queued = true
claimable retrying = true
claimable _ = false

-- `status='RUNNING'`.
unfoldable pub is_running : OperationStatus → Bool
is_running running = true
is_running _ = false

-- `column=$n` in a WHERE clause: not true at NULL.
abbrev pub holds_text : Option String → String → Bool
holds_text none s = false
holds_text (some t) s = t == s

-- `column<now()`: not true at NULL.
abbrev pub is_before : Option ℕ → ℕ → Bool
is_before none now = false
is_before (some t) now = ltb t now

-- `id=$1 AND tenant_id=$2`.
abbrev pub has_id : String → OperationRow → Bool
has_id id o = o.id == id

abbrev pub of_tenant : String → OperationRow → Bool
of_tenant tenant o = o.tenant_id == tenant

-- `id=$1 AND status='RUNNING' AND lease_owner=$2`.
unfoldable pub is_leased : String → String → OperationRow → Bool
unfolding is_running
is_leased id worker o = has_id id o && is_running o.status && holds_text o.lease_owner worker

-- The same, `AND tenant_id=$2`.
unfoldable pub is_leased_in : String → String → String → OperationRow → Bool
unfolding is_leased
is_leased_in tenant id worker o = of_tenant tenant o && is_leased id worker o

-- `status='RUNNING' AND lease_expires_at<now()`.
unfoldable pub is_expired : ℕ → OperationRow → Bool
unfolding is_running
is_expired now o = is_running o.status && is_before o.lease_expires_at now

-- `updated_at=now(),version=version+1`.
abbrev touch : ℕ → OperationRow → OperationRow
touch now o = record o { version = o.version + 1; updated_at = now }

-- `lease_owner=NULL,lease_expires_at=NULL`.
abbrev release : OperationRow → OperationRow
release o = record o { lease_owner = none; lease_expires_at = none }

unfoldable pub set_queued : ℕ → OperationRow → OperationRow
set_queued now o = touch now (record o { status = queued })

unfoldable pub set_cancelled : ℕ → OperationRow → OperationRow
set_cancelled now o = touch now (release (record o { status = cancelled }))

unfoldable pub set_redriven : ℕ → OperationRow → OperationRow
set_redriven now o =
    touch now (record o { status = retrying; attempt = 0; error_code = none; error_message = none })

unfoldable pub set_running : String → ℕ → ℕ → OperationRow → OperationRow
set_running worker lease_seconds now o = touch now (record o {
  status = running;
  attempt = o.attempt + 1;
  lease_owner = some worker;
  lease_expires_at = some (now + lease_seconds * second);
})

-- A heartbeat does not change the version.
unfoldable pub set_extended : ℕ → ℕ → OperationRow → OperationRow
set_extended lease_seconds now o = record o {
  lease_expires_at = some (now + lease_seconds * second);
  updated_at = now;
}

unfoldable pub set_succeeded : Option String → String → ℕ → OperationRow → OperationRow
set_succeeded result explanation now o = touch now (
    release (record o {
      status = succeeded;
      result = result;
      ai_explanation = some explanation;
      error_code = none;
      error_message = none;
    }))

unfoldable pub set_failed :
    OperationStatus → String → String → String → ℕ → OperationRow → OperationRow
set_failed status code message explanation now o = touch now (
    release (record o {
      status = status;
      error_code = some code;
      error_message = some message;
      ai_explanation = some explanation;
    }))

-- The two UPDATE statements of the lease reaper; neither writes `ai_explanation`.
unfoldable pub set_expired : OperationStatus → String → ℕ → OperationRow → OperationRow
set_expired status message now o = touch now (
    release (record o {
      status = status;
      error_code = some "LEASE_EXPIRED";
      error_message = some message;
    }))
