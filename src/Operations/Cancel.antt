-- ===== src/Operations/Cancel.antt =====
-- `cancel` and `redrive` of cmd/operations/main.go.
use Prim.Native.String.{◌++◌}
use sde_thp.Prelude.{ℕ, Bool, not, ◌&&◌, ◌||◌, String, [], ◌∷◌, nat_eq, if◌then◌else◌}
use sde_thp.Domain.{OperationStatus, cancelled, can_transition, is_terminal}
use sde_thp.Database.{OperationRow}
use sde_thp.Effect.{M, http, pure, raise, lift, ◌>>=◌, ◌>>◌, exec, query, send, run_workflow}
use sde_thp.Operations.Rows.{
  has_id, of_tenant, cancellable, redrivable, set_cancelled, set_redriven,
}
use sde_thp.Operations.Statements.{update_operations, update_returning, find_operation}
use sde_thp.Operations.Reply.{Headers, Reply, reply, nothing, fields, envelope_of, or_http}

unfoldable pub is_cancellable : String → String → OperationRow → Bool
is_cancellable tenant id o = has_id id o && of_tenant tenant o && cancellable o.status

-- Why nothing was cancelled.
refuse_cancel : OperationStatus → M Reply
refuse_cancel status =
    if is_terminal status || not (can_transition status cancelled)
    then raise (http 409 "operation is already terminal or not cancellable")
    else raise (http 409 "operation could not be cancelled")

-- What follows the UPDATE, by the number of rows that it changed.
report_cancel : String → String → ℕ → M Reply
report_cancel tenant id rows =
    if nat_eq rows 0
    then (do
      found ← query (find_operation (λ o. has_id id o && of_tenant tenant o))
      o ← lift (or_http 404 "operation not found" found)
      refuse_cancel o.status)
    else pure (reply 204 nothing)

unfoldable pub cancel : Headers → String → M Reply
unfolding report_cancel refuse_cancel
cancel headers id = do
  rows ← exec (update_operations (is_cancellable headers.tenant id) set_cancelled)
  report_cancel headers.tenant id rows

unfoldable pub is_redrivable : String → String → OperationRow → Bool
is_redrivable tenant id o = has_id id o && of_tenant tenant o && redrivable o.status

-- `fresh` is the result of `uuid.NewString()`.
unfoldable pub redrive : String → Headers → String → M Reply
redrive fresh headers id = do
  found ← exec (update_returning (is_redrivable headers.tenant id) set_redriven)
  o ← lift (or_http 409 "operation is not redrivable" found)
  send (run_workflow ("redrive:" ++ o.id ++ ":" ++ fresh) (envelope_of o))
  pure (reply 202 (fields (("id", o.id) ∷ ("status", "RETRYING") ∷ [])))
