-- ===== src/Gateway/Proxy.antt =====
-- `proxy`, `proxyParam`, `proxyPath` and `stripUpstreamCORSHeaders` of cmd/gateway/main.go.
-- `url.PathEscape` and what a service answers are arguments. The reverse proxy of `net/http/httputil`
-- removes the headers of a single connection after the director has run; the headers that it adds
-- (X-Forwarded-For, and Te, Connection and Upgrade where they are put back) are left out.
use Prim.Native.String.{◌++◌}
use sde_thp.Prelude.{
  ℕ, Bool, not, ◌||◌, String, any, equal_fold, split_comma, trim_space, ◌==◌, if◌then◌else◌, List,
  [], ◌∷◌, select_where, has_prefix_fold, replace_all,
}
use sde_thp.Gateway.Requests.{Call, Forward, Reply, relayed, bad_gateway, Handler, set_header}

unfoldable pub is_cors : String × String → Bool
is_cors (name, value) = has_prefix_fold "access-control-" name

unfoldable pub strip_cors : List (String × String) → List (String × String)
unfolding is_cors
strip_cors headers = select_where (λ h. not (is_cors h)) headers

-- The path of a route with its parameters put in, in order.
unfoldable pub fill : (String → String) → List (String × String) → String → String
fill escape [] path = path
fill escape ((name, value) ∷ params) path =
    fill escape params (replace_all (":" ++ name) (escape value) path)

-- An error of the call to the service, or its status and headers.
pub data Upstream : Type 0 where
  no_upstream : Upstream
  upstream : ℕ → List (String × String) → Upstream

unfoldable pub relay : Call → Forward → Upstream → Reply
unfolding strip_cors
relay c f no_upstream = bad_gateway f record {
  kind = "about:blank";
  title = "Bad Gateway";
  status = 502;
  detail = "upstream service unavailable";
  instance_path = f.path;
  request_id = c.request_id;
}
relay c f (upstream code headers) = relayed f code (strip_cors headers)

-- The headers of a single connection.
unfoldable pub hop_headers : List String
hop_headers =
    "Connection" ∷ "Proxy-Connection" ∷ "Keep-Alive" ∷ "Proxy-Authenticate" ∷ "Proxy-Authorization"
    ∷ "Te" ∷ "Trailer" ∷ "Transfer-Encoding" ∷ "Upgrade" ∷ []

-- The value of the header Connection names the header; the values of one name are joined by commas.
unfoldable pub names : String → String → Bool
names connection name = any (λ word. equal_fold (trim_space word) name) (split_comma connection)

-- The header without those of a single connection and those that Connection names.
unfoldable pub without_hops : (String → String) → String → String
unfolding hop_headers names
without_hops header name =
    if any (λ hop. name == hop) hop_headers || names (header "Connection") name
    then ""
    else header name

-- The director, which sets the path of the route and the request's identifier, and what the
-- reverse proxy removes after it.
unfoldable pub forward_of : String → String → Call → Forward
unfolding without_hops
forward_of service path c = record {
  service = service;
  path = path;
  header = without_hops (set_header "X-Request-ID" c.request_id c.header);
}

module _ (send : Forward → Upstream) where
  unfoldable pub proxy_path : String → (Call → String) → Handler
  unfolding relay forward_of
  proxy_path service path c st = let f = forward_of service (path c) c in (relay c f (send f), st)

  unfoldable pub proxy : String → String → Handler
  unfolding proxy_path
  proxy service path = proxy_path service (λ c. path)

  unfoldable pub proxy_param : (String → String) → String → String → Handler
  unfolding proxy_path fill
  proxy_param escape service path = proxy_path service (λ c. fill escape c.params path)
