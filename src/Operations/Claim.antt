-- ===== src/Operations/Claim.antt =====
-- `claimOperation` and its handler `claim` of cmd/operations/main.go, and the two heartbeats.
use sde_thp.Prelude.{
  ℕ, Bool, true, false, not, ◌&&◌, String, Option, none, some, [], ◌∷◌, ℤ, pos, pos_part, leb_ℤ,
  leb, nat_eq, ◌==◌, if◌then◌else◌,
}
use sde_thp.Database.{OperationRow}
use sde_thp.Effect.{
  M, http, pure, lift, raise_if, ◌>>=◌, ◌>>◌, exec, query, Ending, commit, roll_back, transaction,
}
use sde_thp.Operations.Rows.{
  has_id, of_tenant, claimable, set_running, is_leased, is_leased_in, set_extended,
}
use sde_thp.Operations.Statements.{update_operations, find_operation, find_tenant, count_running}
use sde_thp.Operations.Reply.{Headers, Reply, reply, nothing, fields, bound, or_no_rows}

-- `id=$1 AND tenant_id=$2 AND status IN ('QUEUED','RETRYING')`.
unfoldable pub is_claimable : String → String → OperationRow → Bool
is_claimable tenant id o = has_id id o && of_tenant tenant o && claimable o.status

-- The SELECT … FOR UPDATE: the tenant is compared only if one is expected.
unfoldable pub is_candidate : String → String → OperationRow → Bool
unfolding is_claimable
is_candidate id expected o =
    if expected == "" then has_id id o && claimable o.status else is_claimable expected id o

-- The UPDATE, and the test that it changed one row.
unfoldable pub take_lease : String → String → String → ℕ → M (Ending (String × Bool))
unfolding is_claimable
take_lease tenant id worker lease_seconds = do
  rows ← exec (update_operations (is_claimable tenant id) (set_running worker lease_seconds))
  pure (if nat_eq rows 1 then commit (tenant, true) else roll_back (tenant, false))

-- The body of the transaction, once the row is found: the tenant's limit, then the lease.
unfoldable pub claim_for : String → String → String → ℕ → M (Ending (String × Bool))
unfolding take_lease
claim_for tenant id worker lease_seconds = do
  account ← lift (or_no_rows (← query (find_tenant tenant)))
  running ← query (count_running tenant)
  if leb account.concurrency_limit running
      then pure (roll_back (tenant, false))
      else take_lease tenant id worker lease_seconds

unfoldable pub claim_found : Option OperationRow → String → String → ℕ → M (Ending (String × Bool))
unfolding claim_for
claim_found none id worker lease_seconds = pure (roll_back ("", false))
claim_found (some o) id worker lease_seconds = claim_for o.tenant_id id worker lease_seconds

unfoldable pub claim_operation : String → String → String → ℕ → M (String × Bool)
unfolding claim_found is_candidate
claim_operation id expected worker lease_seconds = transaction do
  found ← query (find_operation (is_candidate id expected))
  claim_found found id worker lease_seconds

pub record ClaimInput : Type 0 where
  pub worker_id : String
  pub lease_seconds : ℤ

-- A lease of no positive length lasts 30 seconds.
or_thirty : ℤ → ℕ
or_thirty n = if leb_ℤ n (pos 0) then 30 else pos_part n

unfoldable pub claim : String → Option ClaimInput → M Reply
unfolding or_thirty claim_operation
claim id body = do
  input ← lift (bound body)
  outcome ← claim_operation id "" input.worker_id (or_thirty input.lease_seconds)
  raise_if (not outcome.1) (http 409 "operation is not claimable")
  pure (reply 200 (fields (("tenant_id", outcome.0) ∷ ("status", "RUNNING") ∷ [])))

-- 204 if a row was changed, else 409.
unfoldable pub changed : String → ℕ → M Reply
changed message rows = do raise_if (nat_eq rows 0) (http 409 message); pure (reply 204 nothing)

unfoldable pub heartbeat : String → String → M Reply
unfolding changed
heartbeat id worker = do
  rows ← exec (update_operations (is_leased id worker) (set_extended 30))
  changed "lease not owned" rows

unfoldable pub worker_heartbeat : Headers → String → String → M Reply
unfolding changed
worker_heartbeat headers id worker = do
  rows ← exec (update_operations (is_leased_in headers.tenant id worker) (set_extended 45))
  changed "lease not owned" rows
