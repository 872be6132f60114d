-- ===== src/Gateway/Session.antt =====
-- `authenticate` of cmd/gateway/main.go with `verify` of cmd/access/main.go in the place of the
-- access service: from a login to the request that a service receives.
use Prim.Native.String.{◌++◌}
use sde_thp.Prelude.{
  ℕ, ◌+◌, ◌/◌, ◌<◌, ◌≡◌, refl, sym, ap, ◌∙◌, Bool, true, false, String, if◌then◌else◌, Option, none,
  some, List, ◌==◌, trim_space,
}
use mathlib.Core.Option.{some-injective}
use sde_thp.Domain.{second}
use sde_thp.Contracts.{Principal}
use sde_thp.Database.{Database, UserRow}
use sde_thp.Effect.{World, Command, Result, ok, err, error_code}
use sde_thp.Access.Reply.{
  Crypto, Claims, Page, session, principal, api_key, tenant, tenants, created, reply,
}
use sde_thp.Access.Login.{LoginInput, find_user, claims_at, lifetime, verify}
use sde_thp.Access.Sessions.{scanned, login-verify}
use sde_thp.Gateway.Requests.{Call, Forward, Verified, unreachable, answered, Store}
use sde_thp.Gateway.Routes.{Route, Outside, serve}
use sde_thp.Gateway.Trust.{forwarded, find_route, serve-Trusted}
use sde_thp.Gateway.Proxy.{names}

-- What the gateway decodes from the body of an answer.
unfoldable pub decoded : Page → Option Principal
decoded (principal tenant_id user_id role) =
    some record { tenant_id = tenant_id; user_id = user_id; role = role }
decoded _ = none

unfoldable pub asked : Result sde_thp.Access.Reply.Reply → Verified
unfolding decoded
asked (ok r) = answered r.code (decoded r.body)
asked (err e) = answered (error_code e) none

-- The call of `/internal/verify`, in a state of the access service.
unfoldable pub through : Crypto → String → World → String → String → Verified
unfolding asked
through crypto secret w authorization key = asked (verify crypto secret authorization key w).0

verified_principal : Verified → Option Principal
verified_principal unreachable = none
verified_principal (answered code p) = p

-- The forwarded request carries the user's tenant, identifier and role.
pub record IsOf (tenant : String) (u : UserRow) (f : Forward) : Type 0 where
  pub tenant_id : f.header "X-Nexora-Tenant-ID" ≡ tenant
  pub user_id : f.header "X-Nexora-User-ID" ≡ u.id
  pub role : f.header "X-Nexora-Role" ≡ u.role

module _ (crypto : Crypto) (secret : String)
    (sign-parse : (c : Claims) (now : ℕ) (token : String)
      → crypto.sign secret c ≡ some token
      → now < c.expires_at
      → crypto.parse secret c.issuer now token ≡ some c)
    (sign-text : (c : Claims) (token : String)
      → crypto.sign secret c ≡ some token
      → token == "" ≡ false)
    (d : Database) (time : ℕ) (sent : List Command) (input : LoginInput) (u : UserRow)
    (tenant token : String)
    (known : find_user (crypto.to_lower (trim_space input.email)) d ≡ some u)
    (belongs : u.tenant_id ≡ some tenant)
    (right : crypto.matches u.password_hash input.password ≡ true)
    (signed : crypto.sign secret (claims_at time (scanned u tenant)) ≡ some token) (w : World)
    (early : w.time / second < time / second + lifetime) where
  through-token :
      (key : String)
      → through crypto secret w ("Bearer" ++ (" " ++ token)) key
        ≡ answered 200 (some record { tenant_id = tenant; user_id = u.id; role = u.role })
  unfolding through asked decoded
  through-token key =
      ap (λ x. asked x.0)
        (login-verify crypto secret sign-parse sign-text d time sent input u tenant token known
          belongs right signed key w early).1

  -- The token that `login` gives a user, in a request over a route of the table within eight hours:
  -- if the gateway sends the request on, and the caller's header Connection names none of the three
  -- headers, the service reads the user's own tenant, identifier and role.
  pub serve-IsOf :
      (out : Outside) (method path : String) (r : Route) (c : Call) (st : Store) (f : Forward)
      → find_route method path ≡ some r
      → (r.path == "/v1/auth/login") ≡ false
      → c.header "Authorization" ≡ "Bearer" ++ (" " ++ token)
      → names (c.header "Connection") "X-Nexora-Tenant-ID" ≡ false
      → names (c.header "Connection") "X-Nexora-User-ID" ≡ false
      → names (c.header "Connection") "X-Nexora-Role" ≡ false
      → forwarded (serve (record out { verifier = through crypto secret w }) r c st).0 ≡ some f
      → IsOf tenant u f
  unfolding verified_principal
  serve-IsOf out method path r c st f listed other bearing no_tenant no_user no_role sent_on =
      let t =
        (serve-Trusted (record out { verifier = through crypto secret w }) method path r c f st
          listed other sent_on).0 in
      let same = some-injective _ _ (
        sym (
          ap verified_principal (
            ap (λ a. through crypto secret w a (c.header "X-API-Key")) bearing
            ∙ through-token (c.header "X-API-Key")))
        ∙ ap verified_principal t.verified) in
      record {
        tenant_id = t.tenant ∙ kept no_tenant ∙ sym (ap (λ (p : Principal). p.tenant_id) same);
        user_id = t.user ∙ kept no_user ∙ sym (ap (λ (p : Principal). p.user_id) same);
        role = t.role ∙ kept no_role ∙ sym (ap (λ (p : Principal). p.role) same);
      }
    where
      kept : {b : Bool} {x : String} → b ≡ false → (if b then "" else x) ≡ x
      kept e = rw e refl
