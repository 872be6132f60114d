-- ===== src/Access/Samples.antt =====
-- Concrete tables of the access service, and a JWT library for the claims of one login.
use Prim.Native.String.{◌++◌}
use mathlib.Core.Path.{subst}
use mathlib.Core.Option.{some-injective}
use sde_thp.Prelude.{
  ℕ, ◌<◌, ◌≡◌, refl, sym, ap, Bool, true, false, not, ◌&&◌, String, none, some, [], ◌∷◌, ltb,
  nat_eq, ◌==◌, eq_iff, and-elim, arith, if◌then◌else◌,
}
use sde_thp.Database.{Database, TenantRow, UserRow}
use sde_thp.Access.Reply.{Crypto, Claims}
use sde_thp.Access.Login.{LoginInput}

abbrev pub account : TenantRow
account = record {
  id = "acme";
  name = "Acme";
  slug = "acme";
  monthly_quota = 100;
  concurrency_limit = 2;
  created_at = 1;
}

abbrev pub ann : UserRow
ann = record {
  id = "user-1";
  tenant_id = some "acme";
  email = "ann@acme.test";
  password_hash = "#secret-word";
  role = "customer";
  created_at = 2;
}

abbrev pub tables : Database
tables = record {
  tenants = account ∷ [];
  users = ann ∷ [];
  api_keys = [];
  operations = [];
  transition_log = [];
  ledger = [];
  webhook_endpoints = [];
  webhook_outbox = [];
  event_outbox = [];
  now = 50;
}

abbrev pub input : LoginInput
input = record { email = " ann@acme.test"; password = "secret-word" }

abbrev pub the_claims : Claims
the_claims = record {
  tenant_id = "acme";
  role = "customer";
  subject = "user-1";
  issuer = "nexora";
  issued_at = 0;
  expires_at = 28800;
}

abbrev is_ours : Claims → Bool
is_ours c =
    c.tenant_id == "acme"
    && (c.role == "customer"
        && (c.subject == "user-1"
            && (c.issuer == "nexora" && (nat_eq c.issued_at 0 && nat_eq c.expires_at 28800))))

abbrev pub crypto : Crypto
crypto = record {
  hash_password = λ salt password. some ("#" ++ password);
  matches = λ hash password. not (hash == "") && hash == ("#" ++ password);
  digest = λ text. "h" ++ text;
  to_lower = λ text. text;
  sign = λ secret c. if is_ours c then some "token" else none;
  parse = λ secret issuer now token.
      if token == "token" && ltb now 28800 then some the_claims else none;
}

nat_eq-same : (a b : ℕ) → nat_eq a b ≡ true → a ≡ b
nat_eq-same a b h = ground arith

is_ours-same : (c : Claims) → is_ours c ≡ true → c ≡ the_claims
is_ours-same c h =
    let a = and-elim _ _ h in
    let b = and-elim _ _ a.1 in
    let s = and-elim _ _ b.1 in
    let d = and-elim _ _ s.1 in
    let e = and-elim _ _ d.1 in
    λ i. record {
      tenant_id = (eq_iff c.tenant_id "acme").0 a.0 i;
      role = (eq_iff c.role "customer").0 b.0 i;
      subject = (eq_iff c.subject "user-1").0 s.0 i;
      issuer = (eq_iff c.issuer "nexora").0 d.0 i;
      issued_at = nat_eq-same c.issued_at 0 e.0 i;
      expires_at = nat_eq-same c.expires_at 28800 e.1 i;
    }

signed-ours :
    (c : Claims) (token : String)
    → crypto.sign "s" c ≡ some token
    → (is_ours c ≡ true) × ("token" ≡ token)
signed-ours c token h = ours (is_ours c) refl h
  where
    ours :
        (b : Bool)
        → is_ours c ≡ b
        → (if b then some "token" else none) ≡ some token
        → (is_ours c ≡ true) × ("token" ≡ token)
    ours true e h = (e, some-injective "token" token h)
    ours false e h = cc

pub sign-parse :
    (c : Claims) (now : ℕ) (token : String)
    → crypto.sign "s" c ≡ some token
    → now < c.expires_at
    → crypto.parse "s" c.issuer now token ≡ some c
sign-parse c now token h early =
    let k = signed-ours c token h in
    let same = is_ours-same c k.0 in
    let soon : ltb now 28800 ≡ true =
      (let n = subst (λ (x : Claims). now < x.expires_at) same early in ground arith) in
    subst
      (λ (t : String). (if t == "token" && ltb now 28800 then some the_claims else none) ≡ some c)
      k.1 (rw soon (ap some (sym same)))

pub sign-text : (c : Claims) (token : String) → crypto.sign "s" c ≡ some token → token == "" ≡ false
sign-text c token h = subst (λ (t : String). t == "" ≡ false) (signed-ours c token h).1 refl

pub blank : (password : String) → crypto.matches "" password ≡ false
blank password = refl
