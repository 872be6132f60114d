-- ===== src/Access/Sessions.antt =====
-- `login` of cmd/access/main.go, and `verify` of what it gives out.
use Prim.Native.String.{◌++◌}
use sde_thp.Prelude.{
  equal_fold, ℕ, ◌+◌, ◌*◌, ◌/◌, ◌<◌, ◌≡◌, refl, true, false, String, none, some, List, ◌==◌,
  trim_space, split_space-word, has_space, arith,
}
use sde_thp.Domain.{second}
use sde_thp.Database.{Database, UserRow}
use sde_thp.Effect.{World, Command, ok, pure, lift, raise_if, clock, ◌>>=◌}
use sde_thp.Effect.Calm.{calm, calm-query_result}
use sde_thp.Operations.Reply.{bound, caught, or_http, or_failure}
use sde_thp.Access.Reply.{Crypto, Claims, reply, session, principal}
use sde_thp.Access.Login.{
  LoginInput, Scanned, scan_user, find_user, claims_at, lifetime, login, open_session, verify,
  verify_token, bearer,
}

bearer_lem : (token : String) → bearer ("Bearer" ++ (" " ++ token)) ≡ token
unfolding bearer equal_fold has_space
bearer_lem token = rw (split_space-word "Bearer" token refl) refl

abbrev pub scanned : UserRow → String → Scanned
scanned u tenant = record {
  user_id = u.id;
  tenant_id = tenant;
  role = u.role;
  password_hash = u.password_hash;
  error = none;
}

module _ (crypto : Crypto) (secret : String)
    (sign-parse : (c : Claims) (now : ℕ) (token : String)
      → crypto.sign secret c ≡ some token
      → now < c.expires_at
      → crypto.parse secret c.issuer now token ≡ some c)
    (sign-text : (c : Claims) (token : String)
      → crypto.sign secret c ≡ some token
      → token == "" ≡ false) where
  module _ (d : Database) (time : ℕ) (sent : List Command) (input : LoginInput) (u : UserRow)
      (tenant token : String)
      (known : find_user (crypto.to_lower (trim_space input.email)) d ≡ some u)
      (belongs : u.tenant_id ≡ some tenant)
      (right : crypto.matches u.password_hash input.password ≡ true)
      (signed : crypto.sign secret (claims_at time (scanned u tenant)) ≡ some token) where
    answer :
        login crypto secret (some input) (calm d time sent)
        ≡ (ok (reply 200 (session token lifetime tenant u.role)), calm d time sent)
    unfolding login open_session bound caught ◌>>=◌ lift raise_if clock pure or_failure scan_user
    answer =
        rw
          (
            calm-query_result d time sent (find_user (crypto.to_lower (trim_space input.email))),
            known,
            belongs,
            right,
            signed,
          )
          refl

    expiry : (now : ℕ) → now < time / second + lifetime → now < (time + lifetime * second) / second
    expiry now h = omega arith

    verified :
        (key : String) (w : World)
        → w.time / second < time / second + lifetime
        → verify crypto secret ("Bearer" ++ (" " ++ token)) key w
          ≡ (ok (reply 200 (principal tenant u.id u.role)), w)
    unfolding verify verify_token clock ◌>>=◌ lift or_http pure claims_at
    verified key w early =
        rw
          (
            bearer_lem token,
            sign-text (claims_at time (scanned u tenant)) token signed,
            sign-parse (claims_at time (scanned u tenant)) (w.time / second) token signed
                (expiry (w.time / second) early),
          )
          refl

    -- With the right password of a user who has a tenant, and no failure, `login` answers with a
    -- token and changes nothing; for eight hours from then, in any state and whatever key is sent
    -- with it, `verify` takes the token for that user, tenant and role and changes nothing. The JWT
    -- library reads back, before they expire, the claims that it has signed, and no token is empty.
    pub login-verify :
        (key : String) (w : World)
        → w.time / second < time / second + lifetime
        → (login crypto secret (some input) (calm d time sent)
            ≡ (ok (reply 200 (session token lifetime tenant u.role)), calm d time sent))
          × (verify crypto secret ("Bearer" ++ (" " ++ token)) key w
              ≡ (ok (reply 200 (principal tenant u.id u.role)), w))
    login-verify key w early = (answer, verified key w early)
