-- ===== src/Access/Statements.antt =====
-- The SQL statements of cmd/access/main.go as functions on the tables.
use sde_thp.Prelude.{
  ℕ, Bool, true, false, ◌&&◌, ◌||◌, String, Option, none, some, [], ◌∷◌, ◌++◌, ℤ, pos, pos_part,
  ltb_ℤ, leb_ℤ, ◌==◌, any, first_where, update_where, if◌then◌else◌,
}
use mathlib.Core.Option
use sde_thp.Database.{Database, TenantRow, UserRow, ApiKeyRow}
use sde_thp.Effect.{Statement}

abbrev pub has_slug : String → TenantRow → Bool
has_slug slug t = t.slug == slug

abbrev pub has_email : String → UserRow → Bool
has_email email u = u.email == email

abbrev pub has_hash : String → ApiKeyRow → Bool
has_hash hash k = k.key_hash == hash

abbrev pub has_tenant : String → Database → Bool
has_tenant id d = any (λ t. t.id == id) d.tenants

-- `INSERT INTO access.tenants`: the identifier and the slug are new, the quota is not negative and
-- the limit is positive.
unfoldable pub insert_tenant : (id name slug : String) → (quota limit : ℤ) → Statement (Unit {0})
insert_tenant id name slug quota limit d =
    if has_tenant id d || any (has_slug slug) d.tenants
    then none
    else if ltb_ℤ quota (pos 0) || leb_ℤ limit (pos 0)
    then none
    else some (
      tt,
      record d {
        tenants =
            d.tenants
            ++ record {
              id = id;
              name = name;
              slug = slug;
              monthly_quota = pos_part quota;
              concurrency_limit = pos_part limit;
              created_at = d.now;
            }
              ∷ [];
      },
    )

-- `… ON CONFLICT(slug) DO UPDATE SET name=EXCLUDED.name RETURNING id`.
unfoldable pub put_tenant_at :
    Option TenantRow → (id name slug : String) → (quota limit : ℕ) → Statement String
unfolding insert_tenant
put_tenant_at (some t) id name slug quota limit d = some (
  t.id,
  record d { tenants = update_where (has_slug slug) (λ t. record t { name = name }) d.tenants },
)
put_tenant_at none id name slug quota limit d =
    Option.map (λ (r : Unit {0} × Database). (id, r.1))
      (insert_tenant id name slug (pos quota) (pos limit) d)

unfoldable pub put_tenant : (id name slug : String) → (quota limit : ℕ) → Statement String
unfolding put_tenant_at
put_tenant id name slug quota limit d =
    put_tenant_at (first_where (has_slug slug) d.tenants) id name slug quota limit d

-- `INSERT INTO access.users`: the identifier and the email are new, and the tenant exists.
unfoldable pub insert_user : (id tenant_id email hash role : String) → Statement (Unit {0})
insert_user id tenant_id email hash role d =
    if any (λ u. u.id == id) d.users || any (has_email email) d.users
    then none
    else if has_tenant tenant_id d
    then some (
      tt,
      record d {
        users =
            d.users
            ++ record {
              id = id;
              tenant_id = some tenant_id;
              email = email;
              password_hash = hash;
              role = role;
              created_at = d.now;
            }
              ∷ [];
      },
    )
    else none

-- `… ON CONFLICT(email) DO NOTHING`.
unfoldable pub offer_user : (id tenant_id email hash role : String) → Statement (Unit {0})
unfolding insert_user
offer_user id tenant_id email hash role d =
    if any (has_email email) d.users
    then some (tt, d)
    else insert_user id tenant_id email hash role d

-- `INSERT INTO access.api_keys`: the identifier and the hash are new, and the tenant exists.
unfoldable pub insert_key : (id tenant_id name prefix hash : String) → Statement (Unit {0})
insert_key id tenant_id name prefix hash d =
    if any (λ k. k.id == id) d.api_keys || any (has_hash hash) d.api_keys
    then none
    else if has_tenant tenant_id d
    then some (
      tt,
      record d {
        api_keys =
            d.api_keys
            ++ record {
              id = id;
              tenant_id = tenant_id;
              name = name;
              prefix = prefix;
              key_hash = hash;
              last_used_at = none;
              revoked_at = none;
              created_at = d.now;
            }
              ∷ [];
      },
    )
    else none

-- `… ON CONFLICT(key_hash) DO NOTHING`.
unfoldable pub offer_key : (id tenant_id name prefix hash : String) → Statement (Unit {0})
unfolding insert_key
offer_key id tenant_id name prefix hash d =
    if any (has_hash hash) d.api_keys
    then some (tt, d)
    else insert_key id tenant_id name prefix hash d

is_null : Option ℕ → Bool
is_null none = true
is_null (some t) = false

-- `key_hash=$1 AND revoked_at IS NULL`.
unfoldable pub is_valid_key : String → ApiKeyRow → Bool
unfolding is_null
is_valid_key hash k = has_hash hash k && is_null k.revoked_at

-- `UPDATE access.api_keys SET last_used_at=now() WHERE … RETURNING tenant_id`.
unfoldable pub touch_key : String → Statement (Option String)
unfolding is_valid_key
touch_key hash d = some (
  Option.map (λ (k : ApiKeyRow). k.tenant_id) (first_where (is_valid_key hash) d.api_keys),
  record d {
    api_keys =
        update_where (is_valid_key hash) (λ k. record k { last_used_at = some d.now }) d.api_keys;
  },
)
