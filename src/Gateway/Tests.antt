-- ===== src/Gateway/Tests.antt =====
-- Concrete requests to the gateway, and the theorems on them.
use Prim.Native.String.{◌++◌}
use sde_thp.Prelude.{
  equal_fold, ◌≤◌, refl, true, some, [], ◌∷◌, trim_space, split_space, split_comma, not, ◌||◌, ◌==◌,
  ◌≡◌, starts_with, arith,
}
use sde_thp.Contracts.{Principal}
use sde_thp.Effect.{World, ◌>>=◌, clock, lift, pure}
use sde_thp.Operations.Reply.{or_http}
use sde_thp.Access.Login.{find_user, claims_at, verify}
use sde_thp.Access.Samples.{crypto, sign-parse, sign-text, tables, input, ann}
use sde_thp.Gateway.Requests.{
  Call, Forward, answered, set_header, with_principal, authenticate, require_admin,
}
use sde_thp.Gateway.Limits.{rate_limit, increment, is_live, limit_of, window_key, limit_at, raised}
use sde_thp.Gateway.Proxy.{upstream, names, forward_of, proxy, relay}
use sde_thp.Gateway.Routes.{
  Route, routes, to, signed_in, administrators, Outside, serve, guarded, target_of,
}
use sde_thp.Gateway.Trust.{Trusted, serve-Trusted}
use sde_thp.Gateway.Window.{passes, passes-limit}
use sde_thp.Gateway.Session.{through, IsOf, serve-IsOf}

abbrev someone : Principal
someone = record { tenant_id = "acme"; user_id = "user-1"; role = "admin" }

abbrev outside : Outside
outside = record {
  verifier = λ authorization key. answered 200 (some someone);
  works = λ c. true;
  escape = λ text. text;
  send = λ f.
      upstream 200
        (("Access-Control-Allow-Origin", "*") ∷ ("Content-Type", "application/json") ∷ []);
}

-- A request that claims another tenant.
abbrev request : Call
request = record {
  header =
      set_header "Authorization" ("Bearer" ++ (" " ++ "token"))
        (set_header "X-Nexora-Tenant-ID" "other" (λ name. ""));
  path = "/v1/admin/usage";
  params = [];
  request_id = "id-1";
  time = 120;
}

abbrev usage_route : Route
usage_route = record {
  method = "GET";
  path = "/v1/admin/usage";
  access = administrators;
  service = "usage";
  upstream = to "/admin/usage";
}

abbrev sent_on : Forward
sent_on = forward_of "usage" "/admin/usage" (with_principal someone request)

serve-Trusted_example :
    (t : Trusted outside usage_route request sent_on) × ((not
          (starts_with usage_route.path "/v1/admin/")
        || t.principal.role == "admin")
      ≡ true)
unfolding serve guarded target_of authenticate rate_limit limit_at increment require_admin proxy
    relay limit_of window_key raised with_principal set_header is_live routes
serve-Trusted_example =
    serve-Trusted outside "GET" "/v1/admin/usage" usage_route request sent_on [] refl refl refl

passes-limit_example : passes (λ c. true) "acme" (request ∷ request ∷ []) [] ≤ 120
passes-limit_example =
    passes-limit (λ c. true) "acme" 2 (request ∷ request ∷ []) [] (refl, (refl, tt)) refl

abbrev get_tenant_route : Route
get_tenant_route = record {
  method = "GET";
  path = "/v1/tenant";
  access = signed_in;
  service = "access";
  upstream = to "/tenant";
}

abbrev later : World
later = record { db = tables; time = 3600000000000; faults = []; sent = [] }

abbrev of_ann : Forward
of_ann =
    forward_of "access" "/tenant" (
      with_principal (record { tenant_id = "acme"; user_id = "user-1"; role = "customer" }) request)

serve-IsOf_example : IsOf "acme" ann of_ann
unfolding serve find_user trim_space claims_at through verify split_space equal_fold ◌>>=◌ clock
    lift or_http pure routes names split_comma
serve-IsOf_example =
    serve-IsOf crypto "s" sign-parse sign-text tables 0 [] input ann "acme" "token" refl refl refl
      refl later (omega arith) outside "GET" "/v1/tenant" get_tenant_route request [] of_ann refl
      refl refl refl refl refl refl
