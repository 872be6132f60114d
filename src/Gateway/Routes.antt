-- ===== src/Gateway/Routes.antt =====
-- `main` of cmd/gateway/main.go: the routes to the services, with their guards.
use sde_thp.Prelude.{Bool, String, List, [], ◌∷◌}
use sde_thp.Gateway.Requests.{Call, Forward, Handler, Verified, authenticate, require_admin}
use sde_thp.Gateway.Limits.{rate_limit}
use sde_thp.Gateway.Proxy.{Upstream, proxy, proxy_param}

-- Who may call a route.
pub data Access : Type 0 where
  anyone signed_in administrators : Access

-- `proxy(…, path)` and `proxyParam(…, path)`.
pub data Target : Type 0 where
  to to_param : String → Target

pub record Route : Type 0 where
  pub method : String
  pub path : String
  pub access : Access
  pub service : String
  pub upstream : Target

route : String → String → Access → String → Target → Route
route method path access service upstream = record {
  method = method;
  path = path;
  access = access;
  service = service;
  upstream = upstream;
}

-- The table of `main`, without `/v1/assistant` and `/readyz`.
unfoldable pub routes : List Route
unfolding route
routes =
    route "POST" "/v1/auth/login" anyone "access" (to "/auth/login")
    ∷ route "GET" "/v1/tenant" signed_in "access" (to "/tenant")
    ∷ route "POST" "/v1/api-keys" signed_in "access" (to "/api-keys")
    ∷ route "POST" "/v1/operations" signed_in "operations" (to "/operations")
    ∷ route "GET" "/v1/operations" signed_in "operations" (to "/operations")
    ∷ route "GET" "/v1/operations/:id" signed_in "operations" (to_param "/operations/:id")
    ∷ route "DELETE" "/v1/operations/:id" signed_in "operations" (to_param "/operations/:id")
    ∷ route "POST" "/v1/operations/:id/redrive" signed_in "operations"
        (to_param "/operations/:id/redrive")
    ∷ route "GET" "/v1/usage" signed_in "usage" (to "/usage")
    ∷ route "GET" "/v1/events" signed_in "usage" (to "/events")
    ∷ route "GET" "/v1/webhooks" signed_in "usage" (to "/webhooks")
    ∷ route "POST" "/v1/webhooks" signed_in "usage" (to "/webhooks")
    ∷ route "DELETE" "/v1/webhooks/:id" signed_in "usage" (to_param "/webhooks/:id")
    ∷ route "POST" "/v1/worker/poll" signed_in "operations" (to "/worker/poll")
    ∷ route "POST" "/v1/worker/operations/:id/heartbeat" signed_in "operations"
        (to_param "/worker/operations/:id/heartbeat")
    ∷ route "POST" "/v1/worker/operations/:id/complete" signed_in "operations"
        (to_param "/worker/operations/:id/complete")
    ∷ route "POST" "/v1/worker/operations/:id/fail" signed_in "operations"
        (to_param "/worker/operations/:id/fail")
    ∷ route "GET" "/v1/admin/tenants" administrators "access" (to "/admin/tenants")
    ∷ route "POST" "/v1/admin/tenants" administrators "access" (to "/admin/tenants")
    ∷ route "GET" "/v1/admin/operations" administrators "operations" (to "/operations")
    ∷ route "GET" "/v1/admin/usage" administrators "usage" (to "/admin/usage")
    ∷ []

-- What the gateway takes from outside.
pub record Outside : Type 0 where
  pub verifier : String → String → Verified
  pub works : Call → Bool
  pub escape : String → String
  pub send : Forward → Upstream

module _ (out : Outside) where
  unfoldable pub target_of : String → Target → Handler
  unfolding proxy proxy_param
  target_of service (to path) = proxy out.send service path
  target_of service (to_param path) = proxy_param out.send out.escape service path

  unfoldable pub guarded : Access → Handler → Handler
  unfolding authenticate rate_limit require_admin
  guarded anyone next = next
  guarded signed_in next = authenticate out.verifier (rate_limit out.works next)
  guarded administrators next =
      authenticate out.verifier (rate_limit out.works (require_admin next))

  unfoldable pub serve : Route → Handler
  unfolding guarded target_of
  serve r = guarded r.access (target_of r.service r.upstream)
