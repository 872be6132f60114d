-- ===== src/Operations/Reaper.antt =====
-- `reapExpiredLeaseBatch` of cmd/operations/main.go.
use mathlib.Core.Option
use Prim.Native.String.{◌++◌}
use sde_thp.Prelude.{
  ℕ, ◌+◌, ◌*◌, ◌&&◌, some, List, [], ◌∷◌, leb, ltb, nat_eq, decimal, take, select_where,
  if◌then◌else◌,
}
use sde_thp.Domain.{dead_lettered, retrying, second}
use sde_thp.Database.{Database, OperationRow}
use sde_thp.Effect.{
  M, pure, clock, ◌>>=◌, ◌>>◌, exec, query, send, run_workflow, commit, transaction, Statement,
}
use sde_thp.Operations.Json.{Json}
use sde_thp.Operations.Rows.{has_id, is_expired, set_expired}
use sde_thp.Operations.Statements.{update_operations}
use sde_thp.Operations.Finish.{insert_event, event_key_of}
use sde_thp.Operations.Reply.{envelope_of, ignore}

unfoldable pub expiry : OperationRow → ℕ
expiry o = Option.get_or o.lease_expires_at 0

-- `ORDER BY lease_expires_at`.
unfoldable pub insert_expiry : OperationRow → List OperationRow → List OperationRow
insert_expiry o [] = o ∷ []
insert_expiry o (x ∷ xs) =
    let rest = insert_expiry o xs in if ltb (expiry x) (expiry o) then x ∷ rest else o ∷ x ∷ xs

unfoldable pub by_expiry : List OperationRow → List OperationRow
by_expiry [] = []
by_expiry (x ∷ xs) = insert_expiry x (by_expiry xs)

-- The SELECT of the batch.
unfoldable pub expired_rows : Database → List OperationRow
unfolding by_expiry insert_expiry expiry
expired_rows d = take 50 (by_expiry (select_where (is_expired d.now) d.operations))

-- `UPDATE … WHERE id=$1 AND status='RUNNING' AND lease_expires_at<now()`.
unfoldable pub expire : OperationRow → (ℕ → OperationRow → OperationRow) → Statement ℕ
expire o set d = update_operations (λ x. has_id o.id x && is_expired d.now x) set d

module _ (json : Json) where
  record_expiry : OperationRow → ℕ → M (Unit {0})
  record_expiry o rows =
      if nat_eq rows 1
      then (do
        insert_event json (event_key_of o.id "operation.dead_lettered" o.attempt)
            "operation.dead_lettered" o.id o.tenant_id (json.marshal_error "worker lease expired")
        pure tt)
      else pure tt

  -- No attempt is left: dead-lettered, with its event, in one transaction.
  unfoldable pub reap_exhausted : OperationRow → M (Unit {0})
  unfolding record_expiry
  reap_exhausted o = transaction do
    rows ← exec (expire o (set_expired dead_lettered "worker lease expired"))
    record_expiry o rows
    pure (commit tt)

  recover : OperationRow → ℕ → M (Unit {0})
  recover o rows = if nat_eq rows 0 then pure tt else do
    now ← clock
    send (
        run_workflow ("lease-recovery:" ++ o.id ++ ":" ++ decimal o.attempt)
          (record (envelope_of o) { not_before = some (now + 2 * second) }))

  unfoldable pub reap_retry : OperationRow → M (Unit {0})
  unfolding recover
  reap_retry o = do
    rows ← exec (expire o (set_expired retrying "worker lease expired; operation requeued"))
    recover o rows

  unfoldable pub reap_one : OperationRow → M (Unit {0})
  unfolding reap_exhausted reap_retry
  reap_one o = if leb o.max_attempts o.attempt then reap_exhausted o else reap_retry o

  -- An error ends one row, not the batch.
  unfoldable pub reap_rows : List OperationRow → M (Unit {0})
  unfolding reap_one
  reap_rows [] = pure tt
  reap_rows (o ∷ os) = ignore (reap_one o) >> reap_rows os

  unfoldable pub reap_expired_lease_batch : M (Unit {0})
  unfolding reap_rows
  reap_expired_lease_batch = do rows ← query expired_rows; reap_rows rows
