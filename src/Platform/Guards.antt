-- ===== src/Platform/Guards.antt =====
-- What the guards and the error handler of internal/platform/http.go promise together.
use sde_thp.Prelude.{
  ℕ, ◌≡◌, refl, Bool, true, false, not, ◌||◌, String, Option, ℤ, if◌then◌else◌, none, some, ◌==◌,
  ◌⊎◌, inl, inr, ◌∙◌, trim_space, eq_iff, arith,
}
use sde_thp.Platform.Config.{load_config, env-nonempty}
use sde_thp.Platform.Http.{
  Context, Handler, problem, http_error, returned_error, require_internal, serve_route,
  serve_route-recover,
}

module _ {A : Type 0} (status_text : ℕ → String) (fresh secret : String) where
  -- A request to an internal route whose header is not the service's secret, or to a service whose
  -- secret is empty, is answered, whatever the handler would do, by the problem 401 with the text
  -- `invalid internal credentials`, the request's path and the identifier of the response's header:
  -- the request's own, or a fresh one.
  pub serve_route-require_internal :
      (next : Handler A) (c : Context)
      → (¬ (c.header "X-Internal-Secret" ≡ secret)) ⊎ (secret ≡ "")
      → let given = trim_space (c.header "X-Request-ID") in
        let id = if given == "" then fresh else given in
        serve_route status_text fresh (require_internal secret next) c ≡ (
          id,
          problem record {
            kind = "about:blank";
            title = status_text 401;
            status = 401;
            detail = "invalid internal credentials";
            instance_path = c.path;
            request_id = id;
          },
        )
  unfolding require_internal
  serve_route-require_internal next c h =
      serve_route-recover status_text fresh (require_internal secret next) c ∙ rw (refused h) refl
    where
      differs : (b : Bool) → (b ≡ true → ⊥) → not b ≡ true
      differs true k = absurd (k refl)
      differs false k = refl

      refused :
          (¬ (c.header "X-Internal-Secret" ≡ secret)) ⊎ (secret ≡ "")
          → (secret == "" || not (c.header "X-Internal-Secret" == secret)) ≡ true
      refused (inl other) =
          let k : not (c.header "X-Internal-Secret" == secret) ≡ true =
            differs _ (λ e. other ((eq_iff (c.header "X-Internal-Secret") secret).0 e)) in
          ground (arith, k)
      refused (inr empty) =
          let k : (secret == "") ≡ true = (eq_iff secret "").1 empty in ground (arith, k)

-- With the settings that `LoadConfig` reads the secret of the internal routes is never empty,
-- whatever the environment holds: a request is let through exactly when it carries the secret.
pub require_internal-load_config :
    {A : Type 0} (getenv : String → String) (atoi : String → Option ℤ) (next : Handler A)
    (c : Context)
    → let secret = (load_config getenv atoi).internal_secret in
      require_internal secret next c ≡ (
        if c.header "X-Internal-Secret" == secret then next c else record {
          written = none;
          ending = returned_error (http_error 401 (some "invalid internal credentials"));
        })
unfolding require_internal load_config
require_internal-load_config getenv atoi next c =
    rw (env-nonempty getenv atoi "INTERNAL_SECRET" "development-internal-secret" refl) (
      negated
        (record {
          written = none;
          ending = returned_error (http_error 401 (some "invalid internal credentials"));
        })
        (next c) (c.header "X-Internal-Secret" == (load_config getenv atoi).internal_secret))
  where
    negated :
        {A : Type 0} (x y : A) (b : Bool) → (if false || not b then x else y) ≡ (if b then y else x)
    negated x y true = refl
    negated x y false = refl
