-- ===== src/Operations/Claiming.antt =====
-- What `claimOperation` of cmd/operations/main.go gives to a worker, and when.
use sde_thp.Prelude.{
  ℕ, ◌+◌, ◌*◌, ◌≡◌, ◌<◌, ◌⊎◌, inl, inr, refl, Bool, true, false, String, some, arith, count_where,
  update_where, nat_eq, leb, Option-cases, if◌then◌else◌,
}
use sde_thp.Domain.{running, second}
use sde_thp.Database.{Database, TenantRow, OperationRow}
use sde_thp.Effect.{commit, roll_back}
use sde_thp.Effect.Hoare.{Hoare, Ends, Hoare-if, Hoare-pure}
use sde_thp.Effect.Steps.{transaction_at, query_at, exec_at, lift_ok, lift_err}
use sde_thp.Operations.Rows.{set_running}
use sde_thp.Operations.Statements.{find_operation, find_tenant, count_running, update_operations}
use sde_thp.Operations.Reply.{or_no_rows}
use sde_thp.Operations.Claim.{
  is_candidate, is_claimable, take_lease, claim_for, claim_found, claim_operation,
}

-- The worker got the lease on the one operation that it may claim: its tenant had room, the row
-- is RUNNING in the worker's name for `n` seconds from now with one attempt more, and nothing but
-- that row has changed.
pub record Granted (start : Database) (id expected worker : String) (n : ℕ) (tenant : String)
    (d : Database) : Type 0 where
  pub row : OperationRow
  pub candidate : find_operation (is_candidate id expected) start ≡ some row
  pub owner : tenant ≡ row.tenant_id
  pub account : TenantRow
  pub tenant_row : find_tenant tenant start ≡ some account
  pub room : count_running tenant start < account.concurrency_limit
  pub single : count_where (is_claimable tenant id) start.operations ≡ 1
  pub rows : d ≡ record start {
    operations =
        update_where
          (is_claimable tenant id)
          (λ o. record o {
            status = running;
            attempt = o.attempt + 1;
            lease_owner = some worker;
            lease_expires_at = some (start.now + n * second);
            version = o.version + 1;
            updated_at = start.now;
          })
          start.operations;
  }

module _ (start : Database) (id expected worker : String) (n : ℕ) where
  abbrev pub Outcome : String × Bool → Database → Type 0
  Outcome (tenant, true) d = Granted start id expected worker n tenant d
  Outcome (tenant, false) d = d ≡ start

  abbrev pub Failed : Database → Type 0
  Failed d = (d ≡ start) ⊎ ((tenant : String) × Granted start id expected worker n tenant d)

  module _ (row : OperationRow)
      (candidate : find_operation (is_candidate id expected) start ≡ some row) where
    abbrev leased : Database
    leased = record start {
      operations =
          update_where (is_claimable row.tenant_id id) (set_running worker n start.now)
            start.operations;
    }

    abbrev struck : ℕ
    struck = count_where (is_claimable row.tenant_id id) start.operations

    take_lease-Ends :
        (account : TenantRow)
        → find_tenant row.tenant_id start ≡ some account
        → count_running row.tenant_id start < account.concurrency_limit
        → (b : Bool) → nat_eq struck 1 ≡ b
        → (d : Database) → d ≡ leased
        → Ends Outcome Failed start
            (if b then commit (row.tenant_id, true) else roll_back (row.tenant_id, false))
            d
    unfolding set_running
    take_lease-Ends account present room true one d e = (granted, inr (row.tenant_id, granted))
      where
        granted : Granted start id expected worker n row.tenant_id d
        granted = record {
          row = row;
          candidate = candidate;
          owner = refl;
          account = account;
          tenant_row = present;
          room = room;
          single = ground (arith, one);
          rows = e;
        }
    take_lease-Ends account present room false one d e = refl

    take_lease-Outcome :
        (account : TenantRow)
        → find_tenant row.tenant_id start ≡ some account
        → count_running row.tenant_id start < account.concurrency_limit
        → Hoare
            (λ d. d ≡ start)
            (take_lease row.tenant_id id worker n)
            (Ends Outcome Failed start)
            (λ _. Unit)
    unfolding take_lease update_operations
    take_lease-Outcome account present room =
        exec_at start _ _ struck leased refl tt tt
          (Hoare-pure _ (take_lease-Ends account present room _ refl))

    claim_for-Outcome :
        Hoare
          (λ d. d ≡ start)
          (claim_for row.tenant_id id worker n)
          (Ends Outcome Failed start)
          (λ _. Unit)
    unfolding claim_for or_no_rows
    claim_for-Outcome =
        query_at start _ _ tt (elim (Option-cases (find_tenant row.tenant_id start)) [
          | inl absent ↦ rw absent (lift_err _ _ (λ d e. tt))
          | inr (account, present) ↦ rw present (
              lift_ok _ _ (
                query_at start _ _ tt (
                  Hoare-if (leb account.concurrency_limit (count_running row.tenant_id start)) _ _
                    (λ full. Hoare-pure _ (λ d e. refl))
                    (λ free. take_lease-Outcome account present (ground (arith, free))))))
        ])

  -- Whichever calls fail: a claim that is granted leases exactly one operation, the one that
  -- matches the request and was QUEUED or RETRYING, to the worker, and only where its tenant was
  -- below its limit; one that is not granted changes no table; one that fails has either granted
  -- the lease or changed no table.
  pub claim_operation-Granted :
      Hoare (λ d. d ≡ start) (claim_operation id expected worker n) Outcome Failed
  unfolding claim_operation claim_found
  claim_operation-Granted = transaction_at start _ (inl refl) (
      query_at start _ _ tt (elim (Option-cases (find_operation (is_candidate id expected) start)) [
        | inl absent ↦ rw absent (Hoare-pure _ (λ d e. refl))
        | inr (row, candidate) ↦ rw candidate (claim_for-Outcome row candidate)
      ]))
