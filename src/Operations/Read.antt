-- ===== src/Operations/Read.antt =====
-- `get`, `getInternal` and `list` of cmd/operations/main.go.
use sde_thp.Prelude.{
  ℕ, Bool, true, ◌&&◌, ◌||◌, String, List, [], ◌∷◌, map, ℤ, pos, pos_part, leb_ℤ, ltb_ℤ, ltb, ◌==◌,
  take, select_where, if◌then◌else◌,
}
use sde_thp.Domain.{status_text}
use sde_thp.Database.{Database, OperationRow}
use sde_thp.Effect.{M, pure, lift, ◌>>=◌, query}
use sde_thp.Operations.Rows.{has_id, of_tenant}
use sde_thp.Operations.Statements.{find_operation}
use sde_thp.Operations.Reply.{Headers, Reply, reply, one, many, scan_operation, or_http}

unfoldable pub get : Headers → String → M Reply
get headers id = do
  found ← query (find_operation (λ o. has_id id o && of_tenant headers.tenant o))
  o ← lift (or_http 404 "operation not found" found)
  pure (reply 200 (one (scan_operation o)))

unfoldable pub get_internal : String → M Reply
get_internal id = do
  o ← lift (or_http 404 "operation not found" (← query (find_operation (has_id id))))
  pure (reply 200 (one (scan_operation o)))

-- `limit` is what `strconv.Atoi` returned, 0 where it failed.
unfoldable pub page_size : ℤ → ℕ
page_size limit = if leb_ℤ limit (pos 0) || ltb_ℤ (pos 100) limit then 50 else pos_part limit

-- The WHERE clause: the tenant unless the role is admin, and the status if one is asked for.
unfoldable pub is_listed : Headers → String → OperationRow → Bool
is_listed headers status o =
    (if headers.role == "admin" then true else of_tenant headers.tenant o)
    && (if status == "" then true else status_text o.status == status)

-- `ORDER BY created_at DESC`.
unfoldable pub insert_newest : OperationRow → List OperationRow → List OperationRow
insert_newest o [] = o ∷ []
insert_newest o (x ∷ xs) =
    let rest = insert_newest o xs in if ltb o.created_at x.created_at then x ∷ rest else o ∷ x ∷ xs

unfoldable pub newest_first : List OperationRow → List OperationRow
newest_first [] = []
newest_first (x ∷ xs) = insert_newest x (newest_first xs)

unfoldable pub listed : Headers → ℤ → String → Database → List OperationRow
unfolding is_listed newest_first insert_newest page_size
listed headers limit status d =
    take (page_size limit) (newest_first (select_where (is_listed headers status) d.operations))

unfoldable pub list : Headers → ℤ → String → M Reply
unfolding listed
list headers limit status = do
  rows ← query (listed headers limit status)
  pure (reply 200 (many (map scan_operation rows)))
