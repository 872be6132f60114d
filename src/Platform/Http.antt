-- ===== src/Platform/Http.antt =====
-- internal/platform/http.go: the middleware of the servers and the handler of their errors.
-- `A` is what a handler writes as its response. `http.StatusText` and the bytes of
-- `crypto/rand` are arguments.
use sde_thp.Prelude.{
  ℕ, ◌≡◌, refl, ap, not, ◌||◌, String, Option, none, some, ◌==◌, trim_space, if◌then◌else◌,
}
use sde_thp.Contracts.{Problem}

-- `echo.Context`: the request, and what `c.Set` has stored.
pub record Context : Type 0 where
  pub header : String → String
  pub path : String
  pub request_id : String

-- An `*echo.HTTPError`, whose message may be no string, or another error.
pub data Failure : Type 0 where
  http_error : ℕ → Option String → Failure
  other_error : Failure

-- How a handler ends.
pub data Ending : Type 0 where
  returned panicked : Ending
  returned_error : Failure → Ending

-- `written` is the response that has been committed, if any.
pub record Outcome (A : Type 0) : Type 0 where
  pub written : Option A
  pub ending : Ending

abbrev pub Handler : Type 0 → Type 0
Handler A = Context → Outcome A

-- The deferred function of `Recover`.
unfoldable recovered : Ending → Ending
recovered panicked = returned_error (http_error 500 (some "internal server error"))
recovered e = e

module _ {A : Type 0} where
  abbrev refuse : ℕ → String → Outcome A
  refuse code message = record {
    written = none;
    ending = returned_error (http_error code (some message));
  }

  -- The response's header X-Request-ID, beside the outcome.
  unfoldable pub request_id : String → Handler A → Context → String × Outcome A
  request_id fresh next c =
      let given = trim_space (c.header "X-Request-ID") in
      let id = if given == "" then fresh else given in (id, next (record c { request_id = id }))

  unfoldable pub recover : Handler A → Handler A
  unfolding recovered
  recover next c = let o = next c in record o { ending = recovered o.ending }

  unfoldable pub require_internal : String → Handler A → Handler A
  require_internal secret next c =
      if secret == "" || not (c.header "X-Internal-Secret" == secret)
      then refuse 401 "invalid internal credentials"
      else next c

  unfoldable pub require_tenant : Handler A → Handler A
  require_tenant next c =
      if c.header "X-Nexora-Tenant-ID" == "" then refuse 401 "tenant context missing" else next c

module _ (status_text : ℕ → String) where
  status_of : Failure → ℕ
  status_of (http_error code message) = code
  status_of other_error = 500

  detail_of : Failure → String
  detail_of (http_error code (some message)) = message
  detail_of (http_error code none) = status_text code
  detail_of other_error = "internal server error"

  unfoldable pub problem_of : Failure → Context → Problem
  unfolding status_of detail_of
  problem_of e c = record {
    kind = "about:blank";
    title = status_text (status_of e);
    status = status_of e;
    detail = detail_of e;
    instance_path = c.path;
    request_id = c.request_id;
  }

-- What the client receives.
pub data Answer (A : Type 0) : Type 0 where
  page : A → Answer A
  problem : Problem → Answer A
  empty_page dropped_connection : Answer A

module _ {A : Type 0} (status_text : ℕ → String) where
  -- A response that is already committed is left as it is.
  unfoldable pub problem_handler : Option A → Failure → Context → Answer A
  unfolding problem_of
  problem_handler (some a) e c = page a
  problem_handler none e c = problem (problem_of status_text e c)

  unfoldable answer : Outcome A → Context → Answer A
  unfolding problem_handler
  answer o c = elim o.ending [
    | returned ↦ elim o.written [ some a ↦ page a | none ↦ empty_page ]
    | panicked ↦ dropped_connection
    | returned_error e ↦ problem_handler o.written e c
  ]

  -- A route of `NewServer` whose handler is `next`: the answer, and its header X-Request-ID.
  unfoldable pub serve_route : String → Handler A → Context → String × Answer A
  unfolding request_id recover answer
  serve_route fresh next c =
      let (id, o) = request_id fresh (recover next) c in
      (id, answer o (record c { request_id = id }))

-- The problem of a code and a text.
abbrev pub problem_with : (ℕ → String) → ℕ → String → String → String → Problem
problem_with status_text code detail path id = record {
  kind = "about:blank";
  title = status_text code;
  status = code;
  detail = detail;
  instance_path = path;
  request_id = id;
}

module _ {A : Type 0} (status_text : ℕ → String) where
  -- What a client is to receive: the response that the handler has written; else the problem of
  -- the HTTP error that it has returned, the problem 500 of another error or of a panic, or an
  -- empty page.
  abbrev pub received : Option A → Ending → String → String → Answer A
  received (some a) ending path id = page a
  received none returned path id = empty_page
  received none panicked path id =
      problem (problem_with status_text 500 "internal server error" path id)
  received none (returned_error (http_error code (some message))) path id =
      problem (problem_with status_text code message path id)
  received none (returned_error (http_error code none)) path id =
      problem (problem_with status_text code (status_text code) path id)
  received none (returned_error other_error) path id =
      problem (problem_with status_text 500 "internal server error" path id)

  answer-recovered :
      (written : Option A) (ending : Ending) (c : Context)
      → answer status_text (record { written = written; ending = recovered ending }) c
        ≡ received written ending c.path c.request_id
  unfolding answer recovered problem_handler problem_of
  answer-recovered none returned c = refl
  answer-recovered (some a) returned c = refl
  answer-recovered none panicked c = refl
  answer-recovered (some a) panicked c = refl
  answer-recovered none (returned_error (http_error code (some message))) c = refl
  answer-recovered none (returned_error (http_error code none)) c = refl
  answer-recovered none (returned_error other_error) c = refl
  answer-recovered (some a) (returned_error e) c = refl

  -- A route of `NewServer`, whatever its handler does, panics included: its request identifier is
  -- the request's own without the space around it, or a fresh one where there is none; the answer
  -- is what the handler has written, else an empty page after a return, the problem of an HTTP
  -- error, or the problem 500 after any other error or a panic, and a problem carries the request
  -- identifier. No connection is dropped.
  pub serve_route-recover :
      (fresh : String) (next : Handler A) (c : Context)
      → let given = trim_space (c.header "X-Request-ID") in
        let id = if given == "" then fresh else given in
        let o = next (record c { request_id = id }) in
        serve_route status_text fresh next c ≡ (id, received o.written o.ending c.path id)
  unfolding serve_route request_id recover
  serve_route-recover fresh next c =
      let given = trim_space (c.header "X-Request-ID") in
      let id = if given == "" then fresh else given in
      let o = next (record c { request_id = id }) in
      ap (λ a. (id, a)) (answer-recovered o.written o.ending (record c { request_id = id }))
