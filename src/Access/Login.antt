-- ===== src/Access/Login.antt =====
-- `login`, `verify`, `bearer` and `createAPIKey` of cmd/access/main.go.
use Prim.Native.String.{◌++◌}
use sde_thp.Prelude.{
  ℕ, ◌+◌, ◌*◌, ◌/◌, Bool, true, false, not, ◌||◌, String, Option, none, some, ◌==◌, trim_space,
  split_space, first_bytes, equal_fold, first_where, if◌then◌else◌,
}
use sde_thp.Domain.{second}
use sde_thp.Database.{Database, UserRow}
use sde_thp.Effect.{
  M, Error, http, no_rows, failure, Result, ok, err, pure, lift, raise_if, clock, ◌>>=◌, ◌>>◌, exec,
  query,
}
use sde_thp.Operations.Reply.{bound, caught, or_http, or_failure}
use sde_thp.Access.Reply.{Crypto, Claims, Reply, reply, session, principal, api_key}
use sde_thp.Access.Statements.{has_email, touch_key, insert_key}

token_of : String × Option String → String
token_of (word, none) = ""
token_of (word, some rest) = if equal_fold word "Bearer" then rest else ""

unfoldable pub bearer : String → String
unfolding token_of
bearer value = token_of (split_space value)

pub record LoginInput : Type 0 where
  pub email : String
  pub password : String

-- The variables that the `Scan` of `login` leaves, and its error.
pub record Scanned : Type 0 where
  pub user_id : String
  pub tenant_id : String
  pub role : String
  pub password_hash : String
  pub error : Option Error

failed : String → Error → Scanned
failed user_id e = record {
  user_id = user_id;
  tenant_id = "";
  role = "";
  password_hash = "";
  error = some e;
}

-- A NULL tenant does not fit a string.
scan_columns : UserRow → Option String → Scanned
unfolding failed
scan_columns u none = failed u.id failure
scan_columns u (some tenant_id) = record {
  user_id = u.id;
  tenant_id = tenant_id;
  role = u.role;
  password_hash = u.password_hash;
  error = none;
}

unfoldable pub scan_user : Result (Option UserRow) → Scanned
unfolding failed scan_columns
scan_user (err e) = failed "" e
scan_user (ok none) = failed "" no_rows
scan_user (ok (some u)) = scan_columns u u.tenant_id

-- `errors.Is(err, pgx.ErrNoRows)`.
is_no_rows : Option Error → Bool
is_no_rows (some no_rows) = true
is_no_rows _ = false

-- `if err != nil { return err }`.
or_error : Option Error → Result (Unit {0})
or_error none = ok tt
or_error (some e) = err e

unfoldable pub find_user : String → Database → Option UserRow
find_user email d = first_where (has_email email) d.users

-- Eight hours.
abbrev pub lifetime : ℕ
lifetime = 28800

unfoldable pub claims_at : ℕ → Scanned → Claims
claims_at now found = record {
  tenant_id = found.tenant_id;
  role = found.role;
  subject = found.user_id;
  issuer = "nexora";
  issued_at = now / second;
  expires_at = (now + lifetime * second) / second;
}

module _ (crypto : Crypto) (jwt_secret : String) where
  unfoldable pub open_session : Scanned → M Reply
  unfolding claims_at
  open_session found = do
    now ← clock
    token ← lift (or_failure (crypto.sign jwt_secret (claims_at now found)))
    pure (reply 200 (session token lifetime found.tenant_id found.role))

  unfoldable pub login : Option LoginInput → M Reply
  unfolding open_session scan_user is_no_rows or_error find_user
  login body = do
    input ← lift (bound body)
    row ← caught (query (find_user (crypto.to_lower (trim_space input.email))))
    let found = scan_user row
    raise_if (is_no_rows found.error || not (crypto.matches found.password_hash input.password))
        (http 401 "invalid email or password")
    lift (or_error found.error)
    open_session found

  unfoldable pub verify_token : String → M Reply
  verify_token raw = do
    now ← clock
    claims ←
        lift (or_http 401 "invalid token" (crypto.parse jwt_secret "nexora" (now / second) raw))
    pure (reply 200 (principal claims.tenant_id claims.subject claims.role))

  unfoldable pub verify_key : String → M Reply
  verify_key key = do
    raise_if (key == "") (http 401 "credentials required")
    owner ← exec (touch_key (crypto.digest key))
    tenant_id ← lift (or_http 401 "invalid API key" owner)
    pure (reply 200 (principal tenant_id "" "service"))

  -- The headers Authorization and X-API-Key.
  unfoldable pub verify : (authorization key : String) → M Reply
  unfolding bearer verify_token verify_key
  verify authorization key =
      let raw = bearer authorization in
      if raw == "" then verify_key (trim_space key) else verify_token raw

-- A body that cannot be decoded counts as an empty one.
unfoldable pub key_name : Option String → String
key_name none = "default"
key_name (some name) = if trim_space name == "" then "default" else name

-- `id` is what the database generates, `random` the encoding of 32 random bytes. The slice of the
-- prefix cannot fail: it lies within `nx_live_` and that encoding.
unfoldable pub create_api_key :
    Crypto
    → (id : String) → (random : Option String) → (tenant_id : String) → Option String
    → M Reply
unfolding key_name
create_api_key crypto id random tenant_id body = do
  text ← lift (or_failure random)
  let raw = "nx_live_" ++ text
  prefix ← lift (or_failure (first_bytes 16 raw))
  exec (insert_key id tenant_id (key_name body) prefix (crypto.digest raw))
  pure (reply 201 (api_key id (key_name body) prefix raw))
