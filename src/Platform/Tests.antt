-- ===== src/Platform/Tests.antt =====
-- A request without the secret, and the theorems on it.
use sde_thp.Prelude.{
  ℕ, ◌≡◌, true, false, String, none, some, ◌==◌, inl, eq_iff, trim_space, if◌then◌else◌,
}
use sde_thp.Platform.Http.{
  Context, Handler, problem, problem_with, http_error, returned, panicked, returned_error,
  require_internal, serve_route, serve_route-recover,
}
use sde_thp.Platform.Config.{load_config}
use sde_thp.Platform.Guards.{serve_route-require_internal, require_internal-load_config}

abbrev context : Context
context = record { header = λ name. ""; path = "/internal/operations/1"; request_id = "" }

abbrev greet : Handler String
greet c = record { written = some "hello"; ending = returned }

abbrev crash : Handler String
crash c = record { written = none; ending = panicked }

abbrev text : ℕ → String
text code = "Unauthorized"

serve_route-require_internal_example :
    serve_route text "id-1" (require_internal "s" greet) context ≡ (
      "id-1",
      problem record {
        kind = "about:blank";
        title = "Unauthorized";
        status = 401;
        detail = "invalid internal credentials";
        instance_path = "/internal/operations/1";
        request_id = "id-1";
      },
    )
unfolding trim_space
serve_route-require_internal_example =
    serve_route-require_internal text "id-1" "s" greet context
      (inl (λ e. no_secret ((eq_iff "" "s").1 e)))
  where
    no_secret : false ≡ true → ⊥
    no_secret e = cc

serve_route-recover_example : serve_route text "id-1" crash context ≡ (
  "id-1",
  problem (problem_with text 500 "internal server error" "/internal/operations/1" "id-1"),
)
unfolding trim_space
serve_route-recover_example = serve_route-recover text "id-1" crash context

require_internal-load_config_example :
    require_internal (load_config (λ key. "") (λ s. none)).internal_secret greet context ≡ (
      if context.header "X-Internal-Secret" == (load_config (λ key. "") (λ s. none)).internal_secret
      then greet context
      else record {
        written = none;
        ending = returned_error (http_error 401 (some "invalid internal credentials"));
      })
require_internal-load_config_example =
    require_internal-load_config (λ key. "") (λ s. none) greet context
