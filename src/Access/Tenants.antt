-- ===== src/Access/Tenants.antt =====
-- `getTenant`, `listTenants` and `createTenant` of cmd/access/main.go.
use sde_thp.Prelude.{
  ℕ, Bool, not, ◌||◌, String, Option, List, [], ◌∷◌, ℤ, pos, ltb, neg_part, pos_part, nat_eq, ◌&&◌,
  ◌==◌, byte_length, first_where, if◌then◌else◌,
}
use sde_thp.Database.{Database, TenantRow}
use sde_thp.Effect.{
  M, http, pure, lift, raise_if, ◌>>=◌, ◌>>◌, exec, query, Ending, commit, transaction,
}
use sde_thp.Operations.Reply.{Headers, bound, or_no_rows, or_failure}
use sde_thp.Access.Reply.{Crypto, Reply, reply, tenant, tenants, created}
use sde_thp.Access.Statements.{insert_tenant, insert_user}

unfoldable pub get_tenant : Headers → M Reply
get_tenant headers = do
  found ← query (λ d. first_where (λ t. t.id == headers.tenant) d.tenants)
  t ← lift (or_no_rows found)
  pure (reply 200 (tenant headers.tenant t.name t.slug t.monthly_quota t.concurrency_limit))

-- `ORDER BY created_at DESC`.
insert_newest : TenantRow → List TenantRow → List TenantRow
insert_newest t [] = t ∷ []
insert_newest t (x ∷ xs) =
    let rest = insert_newest t xs in if ltb t.created_at x.created_at then x ∷ rest else t ∷ x ∷ xs

newest_first : List TenantRow → List TenantRow
newest_first [] = []
newest_first (x ∷ xs) = insert_newest x (newest_first xs)

unfoldable pub all_tenants : Database → List TenantRow
unfolding newest_first insert_newest
all_tenants d = newest_first d.tenants

unfoldable pub list_tenants : Headers → M Reply
unfolding all_tenants
list_tenants headers = do
  raise_if (not (headers.role == "admin")) (http 403 "admin role required")
  rows ← query all_tenants
  pure (reply 200 (tenants rows))

pub record TenantInput : Type 0 where
  pub name : String
  pub slug : String
  pub email : String
  pub password : String
  pub monthly_quota : ℤ
  pub concurrency_limit : ℤ

unfoldable pub is_unfit : TenantInput → Bool
is_unfit input =
    input.name == "" || input.slug == "" || input.email == "" || ltb (byte_length input.password) 10

-- `if x == 0 { x = value }`.
unfoldable pub or_value : ℕ → ℤ → ℤ
or_value value x = if nat_eq (pos_part x) 0 && nat_eq (neg_part x) 0 then pos value else x

-- `id` is the result of `uuid.NewString()`, `user_id` what the database generates, `salt` what
-- bcrypt draws.
module _ (crypto : Crypto) (id user_id salt : String) where
  -- The body of the transaction.
  unfoldable pub add_tenant : TenantInput → M (Ending (Unit {0}))
  unfolding or_value
  add_tenant input = do
    exec (
        insert_tenant id input.name input.slug (or_value 10000 input.monthly_quota)
          (or_value 5 input.concurrency_limit))
    hash ← lift (or_failure (crypto.hash_password salt input.password))
    exec (insert_user user_id id (crypto.to_lower input.email) hash "customer")
    pure (commit tt)

  unfoldable pub create_tenant : Headers → Option TenantInput → M Reply
  unfolding add_tenant is_unfit
  create_tenant headers body = do
    raise_if (not (headers.role == "admin")) (http 403 "admin role required")
    input ← lift (bound body)
    raise_if (is_unfit input)
        (http 400 "name, slug, email and a 10+ character password are required")
    transaction (add_tenant input)
    pure (reply 201 (created id))
