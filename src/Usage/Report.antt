-- ===== src/Usage/Report.antt =====
-- `getUsage` and `adminUsage` of cmd/usage/main.go. `month_start` is `date_trunc('month', …)`,
-- and `period` the month of a time as text.
use mathlib.Core.Option
use sde_thp.Prelude.{ℕ, ◌-◌, not, String, List, [], ◌∷◌, map, ◌==◌, ltb, if◌then◌else◌}
use sde_thp.Database.{Database, TenantRow}
use sde_thp.Effect.{M, http, pure, lift, raise_if, clock, ◌>>=◌, ◌>>◌, query}
use sde_thp.Operations.Reply.{Headers, or_no_rows}
use sde_thp.Operations.Statements.{find_tenant, used_units}
use sde_thp.Usage.Reply.{Reply, reply, usage, tenants, TenantUsage}

module _ (month_start : ℕ → ℕ) (period : ℕ → String) where
  unfoldable pub get_usage : Headers → M Reply
  get_usage headers = do
    found ← query (λ d.
        Option.map {B = ℕ × ℕ} (λ t. (used_units month_start headers.tenant d, t.monthly_quota))
          (find_tenant headers.tenant d))
    row ← lift (or_no_rows found)
    now ← clock
    pure (reply 200 (usage row.0 row.1 (row.1 - row.0) (period now)))

  -- The row of one tenant in the GROUP BY.
  unfoldable pub usage_of : Database → TenantRow → TenantUsage
  usage_of d t = record {
    tenant_id = t.id;
    name = t.name;
    quota = t.monthly_quota;
    used = used_units month_start t.id d;
  }

  -- `ORDER BY 4 DESC`.
  insert_largest : TenantUsage → List TenantUsage → List TenantUsage
  insert_largest u [] = u ∷ []
  insert_largest u (x ∷ xs) =
      let rest = insert_largest u xs in if ltb u.used x.used then x ∷ rest else u ∷ x ∷ xs

  largest_first : List TenantUsage → List TenantUsage
  largest_first [] = []
  largest_first (x ∷ xs) = insert_largest x (largest_first xs)

  unfoldable pub all_usage : Database → List TenantUsage
  unfolding usage_of largest_first insert_largest
  all_usage d = largest_first (map (usage_of d) d.tenants)

  unfoldable pub admin_usage : Headers → M Reply
  unfolding all_usage
  admin_usage headers = do
    raise_if (not (headers.role == "admin")) (http 403 "admin role required")
    items ← query all_usage
    pure (reply 200 (tenants items))
