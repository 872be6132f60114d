-- ===== src/Access/Reply.antt =====
-- What the handlers of cmd/access/main.go answer, and what they take from outside: bcrypt, SHA-256
-- in hexadecimal, `strings.ToLower` and the JWT library.
use sde_thp.Prelude.{ℕ, Bool, String, Option, List}
use sde_thp.Database.{TenantRow}

-- `type claims struct`, with the registered claims that are set; times are seconds.
pub record Claims : Type 0 where
  pub tenant_id : String
  pub role : String
  pub subject : String
  pub issuer : String
  pub issued_at : ℕ
  pub expires_at : ℕ

pub record Crypto : Type 0 where
  -- `bcrypt.GenerateFromPassword`, with the salt that it draws.
  pub hash_password : (salt password : String) → Option String
  -- `bcrypt.CompareHashAndPassword(hash, password) == nil`.
  pub matches : (hash password : String) → Bool
  pub digest : String → String
  pub to_lower : String → String
  -- `SignedString` under the method HS256.
  pub sign : (secret : String) → Claims → Option String
  -- `jwt.ParseWithClaims` at a time, for the method HS256 and an issuer.
  pub parse : (secret issuer : String) → (now : ℕ) → String → Option Claims

pub data Page : Type 0 where
  session : (access_token : String) → (expires_in : ℕ) → (tenant_id role : String) → Page
  principal : (tenant_id user_id role : String) → Page
  api_key : (id name prefix key : String) → Page
  tenant : (id name slug : String) → (monthly_quota concurrency_limit : ℕ) → Page
  tenants : List TenantRow → Page
  created : String → Page

pub record Reply : Type 0 where
  pub code : ℕ
  pub body : Page

abbrev pub reply : ℕ → Page → Reply
reply code body = record { code = code; body = body }
