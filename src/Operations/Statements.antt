-- ===== src/Operations/Statements.antt =====
-- The SQL statements of cmd/operations/main.go as functions on the tables.
use mathlib.Core.Option
use sde_thp.Prelude.{
  ℕ, Bool, ◌&&◌, String, Option, none, some, List, [], ◌∷◌, ◌++◌, ◌+◌, ◌==◌, leb, any, count_where,
  first_where, select_where, update_where, if◌then◌else◌,
}
use sde_thp.Database.{Database, TenantRow, OperationRow, LedgerRow, outbox_pending}
use sde_thp.Effect.{Statement}
use sde_thp.Domain.{queued}
use sde_thp.Operations.Rows.{has_id, of_tenant, is_running}

-- `UPDATE operations.operations SET … WHERE …`, with `RowsAffected()`.
unfoldable pub update_operations :
    (OperationRow → Bool) → (ℕ → OperationRow → OperationRow) → Statement ℕ
update_operations p set d =
    some (
      count_where p d.operations,
      record d { operations = update_where p (set d.now) d.operations },
    )

-- `UPDATE … RETURNING …` of the row that is changed.
unfoldable pub update_returning :
    (OperationRow → Bool) → (ℕ → OperationRow → OperationRow) → Statement (Option OperationRow)
update_returning p set d = some (
  Option.map (set d.now) (first_where p d.operations),
  record d { operations = update_where p (set d.now) d.operations },
)

-- `SELECT … FROM operations.operations WHERE …` of one row.
unfoldable pub find_operation : (OperationRow → Bool) → Database → Option OperationRow
find_operation p d = first_where p d.operations

-- `FROM access.tenants WHERE id=$1`.
unfoldable pub find_tenant : String → Database → Option TenantRow
find_tenant tenant d = first_where (λ t. t.id == tenant) d.tenants

-- `tenant_id=$1 AND status='RUNNING'`.
unfoldable pub is_running_in : String → OperationRow → Bool
unfolding is_running
is_running_in tenant o = of_tenant tenant o && is_running o.status

unfoldable pub count_running : String → Database → ℕ
count_running tenant d = count_where (is_running_in tenant) d.operations

sum_units : List LedgerRow → ℕ
sum_units [] = 0
sum_units (l ∷ ls) = l.units + sum_units ls

-- `COALESCE(sum(units),0) … tenant_id=$1 AND created_at>=date_trunc('month',now())`.
unfoldable pub used_units : (ℕ → ℕ) → String → Database → ℕ
unfolding sum_units
used_units month_start tenant d =
    sum_units
      (select_where (λ l. l.tenant_id == tenant && leb (month_start d.now) l.created_at) d.ledger)

-- `tenant_id=$1 AND idempotency_key=$2`.
unfoldable pub has_key : String → String → OperationRow → Bool
has_key tenant key o = of_tenant tenant o && o.idempotency_key == key

-- `INSERT … ON CONFLICT(tenant_id,idempotency_key) DO NOTHING`. The row's tenant must exist and
-- its id must be new, else a constraint refuses it.
unfoldable pub insert_operation : OperationRow → Statement ℕ
unfolding has_key
insert_operation o d =
    if any (has_key o.tenant_id o.idempotency_key) d.operations
    then some (0, d)
    else if any (has_id o.id) d.operations
    then none
    else if any (λ t. t.id == o.tenant_id) d.tenants
    then some (1, record d { operations = d.operations ++ o ∷ [] })
    else none

-- `INSERT INTO operations.transition_log`: the row names an operation that exists.
unfoldable pub insert_transition : String → String → String → Statement ℕ
insert_transition operation_id tenant_id reason d =
    if any (has_id operation_id) d.operations
    then some (
      1,
      record d {
        transition_log =
            d.transition_log
            ++ record {
              operation_id = operation_id;
              tenant_id = tenant_id;
              from_status = none;
              to_status = queued;
              reason = reason;
              created_at = d.now;
            }
              ∷ [];
      },
    )
    else none

-- `INSERT INTO operations.event_outbox … ON CONFLICT(event_key) DO NOTHING`, units 1.
unfoldable pub insert_outbox : String → String → String → String → String → Statement ℕ
insert_outbox event_key event_type operation_id tenant_id payload d =
    if any (λ e. e.event_key == event_key) d.event_outbox
    then some (0, d)
    else some (
      1,
      record d {
        event_outbox =
            d.event_outbox
            ++ record {
              event_key = event_key;
              event_type = event_type;
              operation_id = operation_id;
              tenant_id = tenant_id;
              units = 1;
              payload = payload;
              status = outbox_pending;
              attempt = 0;
              next_attempt_at = d.now;
              last_error = none;
              created_at = d.now;
              delivered_at = none;
            }
              ∷ [];
      },
    )
