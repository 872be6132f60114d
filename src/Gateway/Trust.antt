-- ===== src/Gateway/Trust.antt =====
-- What the services may trust in a request that cmd/gateway/main.go forwards.
use sde_thp.Prelude.{
  ℕ, ◌≡◌, refl, sym, ap, ◌∙◌, Bool, true, false, not, ◌&&◌, ◌||◌, List, [], ◌∷◌, All,
  All-first_where, any, first_where, starts_with, String, Option, none, some, ◌==◌, nat_eq, ltb,
  arith, if◌then◌else◌,
}
use mathlib.Core.Option.{some-injective}
use sde_thp.Contracts.{Principal}
use sde_thp.Gateway.Requests.{
  Call, Forward, Reply, stopped, broken, relayed, bad_gateway, answered_by, health, limited, Store,
  Handler, Counter, Verified, unreachable, answered, set_header, with_principal, admit,
  authenticate, require_admin,
}
use sde_thp.Gateway.Limits.{rate_limit, limit_at, limit_of, increment, window_key}
use sde_thp.Gateway.Proxy.{
  Upstream, no_upstream, upstream, relay, forward_of, fill, names, without_hops, hop_headers, proxy,
  proxy_param, proxy_path,
}
use sde_thp.Gateway.Routes.{
  Access, anyone, signed_in, administrators, Target, to, to_param, Route, routes, Outside,
  target_of, guarded, serve,
}

-- The request that has gone to a service, if one has.
abbrev pub forwarded : Reply → Option Forward
forwarded (stopped code message) = none
forwarded broken = none
forwarded (relayed f code headers) = some f
forwarded (bad_gateway f problem) = some f
forwarded (limited limit remaining r) = forwarded r
forwarded (answered_by model answer) = none
forwarded (health code services) = none

-- Each request that a handler forwards is related to the call.
abbrev Sends : (Call → Forward → Type 0) → Handler → Type 0
Sends P next = (c : Call) (st : Store) (f : Forward) → forwarded (next c st).0 ≡ some f → P c f

module _ (out : Outside) (service : String) where
  proxy_path-Sends :
      (path : Call → String)
      → Sends (λ c f. f ≡ forward_of service (path c) c) (proxy_path out.send service path)
  unfolding proxy_path relay
  proxy_path-Sends path c st f h = sent (out.send (forward_of service (path c) c)) h
    where
      sent :
          (u : Upstream)
          → forwarded (relay c (forward_of service (path c) c) u) ≡ some f
          → f ≡ forward_of service (path c) c
      sent no_upstream h = sym (some-injective _ _ h)
      sent (upstream code headers) h = sym (some-injective _ _ h)

  -- The path that a target gives to a call.
  abbrev pub path_of : Target → Call → String
  path_of (to path) c = path
  path_of (to_param path) c = fill out.escape c.params path

  target_of-Sends :
      (t : Target) → Sends (λ c f. f ≡ forward_of service (path_of t c) c) (target_of out service t)
  unfolding target_of proxy proxy_param
  target_of-Sends (to path) = proxy_path-Sends (λ c. path)
  target_of-Sends (to_param path) = proxy_path-Sends (λ c. fill out.escape c.params path)

-- What a guard lets through.
passed :
    (b : Bool) (x y : Reply × Store) (f : Forward)
    → forwarded x.0 ≡ none
    → forwarded (if b then x else y).0 ≡ some f
    → (b ≡ false) × (forwarded y.0 ≡ some f)
passed true x y f h e = cc
passed false x y f h e = (refl, e)

holds : (b : Bool) → not b ≡ false → b ≡ true
holds true h = refl
holds false h = cc

module _ (P : Call → Forward → Type 0) (next : Handler) (h : Sends P next) where
  require_admin-Sends :
      Sends (λ c f. (c.header "X-Nexora-Role" == "admin" ≡ true) × P c f) (require_admin next)
  unfolding require_admin
  require_admin-Sends c st f e =
      let k = passed (not (c.header "X-Nexora-Role" == "admin")) _ _ f refl e in
      (holds _ k.0, h c st f k.1)

  limit_at-Sends : (limit : ℕ) (x : Counter × Store) → Sends P (limit_at limit x next)
  unfolding limit_at
  limit_at-Sends limit (n, st) c st' f e = h c st f (passed (ltb limit n.count) _ _ f refl e).1

  rate_limit-Sends : (works : Call → Bool) → Sends P (rate_limit works next)
  unfolding rate_limit
  rate_limit-Sends works c st f e =
      limit_at-Sends (limit_of (c.header "X-Nexora-Role"))
        (increment c.time (window_key (c.header "X-Nexora-Tenant-ID") c.time) st) c st f
        (passed (not (works c)) _ _ f refl e).1

  -- The principal that the access service gave for the credentials of the call.
  abbrev Verifies : (String → String → Verified) → Call → Forward → Type 0
  Verifies verify c f =
      (p : Principal) × ((verify (c.header "Authorization") (c.header "X-API-Key")
          ≡ answered 200 (some p))
        × P (with_principal p c) f)

  admit-Sends :
      (v : Verified) (c : Call) (st : Store) (f : Forward)
      → forwarded (admit v next c st).0 ≡ some f
      → (p : Principal) × ((v ≡ answered 200 (some p)) × P (with_principal p c) f)
  unfolding admit
  admit-Sends unreachable c st f e = cc
  admit-Sends (answered code none) c st f e =
      (let k = passed (not (nat_eq code 200)) _ _ f refl e in let l = k.1 in cc)
  admit-Sends (answered code (some p)) c st f e =
      let k = passed (not (nat_eq code 200)) _ _ f refl e in
      let same : code ≡ 200 = (let l = holds _ k.0 in ground arith) in
      (p, (ap (λ n. answered n (some p)) same, h (with_principal p c) st f k.1))

  authenticate-Sends :
      (verify : String → String → Verified) → Sends (Verifies verify) (authenticate verify next)
  unfolding authenticate
  authenticate-Sends verify c st f e =
      admit-Sends (verify (c.header "Authorization") (c.header "X-API-Key")) c st f e

abbrev pub is_guarded : Access → Bool
is_guarded anyone = false
is_guarded _ = true

abbrev pub may_enter : Access → String → Bool
may_enter administrators role = role == "admin"
may_enter _ role = true

-- What arrives of a header that the gateway has set: nothing, where the caller's header Connection
-- names it.
abbrev pub arriving : Call → String → String → String
arriving c name value = if names (c.header "Connection") name then "" else value

-- The access service accepted the credentials of the call, and of each of the three headers that
-- the services trust the forwarded request carries the value of its answer, or none.
pub record Trusted (out : Outside) (r : Route) (c : Call) (f : Forward) : Type 0 where
  pub principal : Principal
  pub verified :
      out.verifier (c.header "Authorization") (c.header "X-API-Key") ≡ answered 200 (some principal)
  pub entered : may_enter r.access principal.role ≡ true
  pub service : f.service ≡ r.service
  pub path : f.path ≡ path_of out r.service r.upstream c
  pub tenant : f.header "X-Nexora-Tenant-ID" ≡ arriving c "X-Nexora-Tenant-ID" principal.tenant_id
  pub user : f.header "X-Nexora-User-ID" ≡ arriving c "X-Nexora-User-ID" principal.user_id
  pub role : f.header "X-Nexora-Role" ≡ arriving c "X-Nexora-Role" principal.role

module _ (out : Outside) (r : Route) (c : Call) (f : Forward) where
  same_path :
      (p : Principal) (t : Target)
      → path_of out r.service t (with_principal p c) ≡ path_of out r.service t c
  unfolding with_principal
  same_path p (to path) = refl
  same_path p (to_param path) = refl

  trusted :
      (p : Principal)
      → out.verifier (c.header "Authorization") (c.header "X-API-Key") ≡ answered 200 (some p)
      → may_enter r.access p.role ≡ true
      → f
        ≡ forward_of r.service
            (path_of out r.service r.upstream (with_principal p c))
            (with_principal p c)
      → Trusted out r c f
  unfolding forward_of with_principal set_header without_hops hop_headers
  trusted p verified entered same = record {
    principal = p;
    verified = verified;
    entered = entered;
    service = ap (λ (x : Forward). x.service) same;
    path = ap (λ (x : Forward). x.path) same ∙ same_path p r.upstream;
    tenant = ap (λ (x : Forward). x.header "X-Nexora-Tenant-ID") same;
    user = ap (λ (x : Forward). x.header "X-Nexora-User-ID") same;
    role = ap (λ (x : Forward). x.header "X-Nexora-Role") same;
  }

  abbrev target : Handler
  target = target_of out r.service r.upstream

  guarded-Trusted :
      (a : Access) (st : Store)
      → r.access ≡ a
      → is_guarded a ≡ true
      → forwarded (guarded out a target c st).0 ≡ some f
      → Trusted out r c f
  unfolding guarded with_principal set_header
  guarded-Trusted anyone st e g h = cc
  guarded-Trusted signed_in st e g h =
      let k =
        authenticate-Sends _ (rate_limit out.works target)
          (rate_limit-Sends _ target (target_of-Sends out r.service r.upstream) out.works)
          out.verifier c st f h in
      trusted k.0 k.1.0 (ap (λ a. may_enter a k.0.role) e) k.1.1
  guarded-Trusted administrators st e g h =
      let k =
        authenticate-Sends _ (rate_limit out.works (require_admin target))
          (rate_limit-Sends _ (require_admin target)
            (require_admin-Sends _ target (target_of-Sends out r.service r.upstream)) out.works)
          out.verifier c st f h in
      trusted k.0 k.1.0 (ap (λ a. may_enter a k.0.role) e ∙ k.1.1.0) k.1.1.1

  serve_guarded :
      (st : Store)
      → is_guarded r.access ≡ true
      → forwarded (serve out r c st).0 ≡ some f
      → Trusted out r c f
  unfolding serve
  serve_guarded st = guarded-Trusted r.access st refl

-- The first route of the table with this method and path.
abbrev pub find_route : String → String → Option Route
find_route method path = first_where (λ r. r.method == method && r.path == path) routes

abbrev is_astray : Route → Bool
is_astray r =
    (not (is_guarded r.access) && not (r.path == "/v1/auth/login"))
    || (starts_with r.path "/v1/admin/" && may_enter r.access "")

none_any : {A : Type 0} (p : A → Bool) (xs : List A) → any p xs ≡ false → All (λ x. p x ≡ false) xs
none_any p [] h = tt
none_any p (x ∷ xs) h = let t = none_any p xs in (ground (arith, h), t (ground (arith, h)))

-- In the table only the login is open to anyone, and the paths of the administrators ask for them.
in_table :
    (method path : String) (r : Route) → find_route method path ≡ some r → is_astray r ≡ false
unfolding routes
in_table method path r h =
    (All-first_where (λ x. is_astray x ≡ false) (λ x. x.method == method && x.path == path) routes
      (none_any is_astray routes refl) h).0

entering :
    (a : Access) (admin : Bool) (role : String)
    → (admin && may_enter a "") ≡ false
    → may_enter a role ≡ true
    → (not admin || role == "admin") ≡ true
entering a false role h k = refl
entering administrators true role h k = k
entering signed_in true role h k = cc
entering anyone true role h k = cc

-- A request that the gateway sends on over a route of its table, the login excepted: the access
-- service accepted its credentials, it goes to the service and the path of the route, and each of
-- the headers X-Nexora-Tenant-ID, X-Nexora-User-ID and X-Nexora-Role that it carries is that of the
-- access service's answer, or is missing where the caller's own header Connection names it. Nothing
-- that the caller put into these headers arrives. Below /v1/admin/ the principal's role is `admin`.
pub serve-Trusted :
    (out : Outside) (method path : String) (r : Route) (c : Call) (f : Forward) (st : Store)
    → find_route method path ≡ some r
    → (r.path == "/v1/auth/login") ≡ false
    → forwarded (serve out r c st).0 ≡ some f
    → (t : Trusted out r c f) × ((not (starts_with r.path "/v1/admin/")
          || t.principal.role == "admin")
        ≡ true)
serve-Trusted out method path r c f st listed other sent_on =
    let fits = in_table method path r listed in
    let g : is_guarded r.access ≡ true = ground (arith, fits, other) in
    let t = serve_guarded out r c f st g sent_on in
    (
      t,
      entering r.access (starts_with r.path "/v1/admin/") t.principal.role (ground (arith, fits))
          t.entered,
    )
