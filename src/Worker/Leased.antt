-- ===== src/Worker/Leased.antt =====
-- The CLOUD worker's verdict on a failure, and the one of the operations service on the row that
-- the worker has claimed.
use sde_thp.Prelude.{ℕ, ◌+◌, ◌*◌, String, some}
use sde_thp.Domain.{running, second}
use sde_thp.Database.{Database, OperationRow}
use sde_thp.Operations.Invariant.{IsValid}
use sde_thp.Operations.Claiming.{Granted}

module _ (start : Database) (valid : IsValid start) (id expected worker : String) (n : ℕ)
    (tenant : String) (d : Database) (granted : Granted start id expected worker n tenant d) where
  abbrev taken : OperationRow → OperationRow
  taken o = record o {
    status = running;
    attempt = o.attempt + 1;
    lease_owner = some worker;
    lease_expires_at = some (start.now + n * second);
    version = o.version + 1;
    updated_at = start.now;
  }
