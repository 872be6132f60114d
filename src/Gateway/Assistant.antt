-- ===== src/Gateway/Assistant.antt =====
-- `assistant` and `ready` of cmd/gateway/main.go. The answers of the services and of OpenRouter
-- are arguments, the latter for a model, a question and the operations as text.
use sde_thp.Prelude.{
  ℕ, Bool, true, false, not, ◌&&◌, String, Option, none, some, List, [], ◌∷◌, map, ltb, nat_eq,
  ◌==◌, trim_space, byte_length, if◌then◌else◌,
}
use sde_thp.Worker.Providers.{Completion, call_open_router, first_model}
use sde_thp.Gateway.Requests.{Call, Reply, stopped, answered_by, health, Handler}

-- The answer to `GET /operations?limit=20`: none, or its status and its body.
pub data Loaded : Type 0 where
  not_loaded : Loaded
  loaded : ℕ → String → Loaded

pub record Models : Type 0 where
  pub open_router_key : String
  pub primary_model : String
  pub fallback_model : String
  pub load : (tenant role : String) → Loaded
  pub ask : (model question operations : String) → Completion

reply_of : Option (String × String) → Reply
reply_of none = stopped 502 "AI providers were unavailable"
reply_of (some (model, answer)) = answered_by model answer

unfoldable pub answer_with : Models → String → Loaded → Reply
unfolding reply_of call_open_router first_model
answer_with m question not_loaded = stopped 503 "operations service unavailable"
answer_with m question (loaded code operations) =
    if not (nat_eq code 200)
    then stopped 502 "could not load operation context"
    else reply_of (
        first_model (λ model. call_open_router (m.ask model question operations))
          (m.primary_model ∷ m.fallback_model ∷ []))

answer_to : Models → Option String → Call → Reply
unfolding answer_with
answer_to m none c = stopped 400 "question is required"
answer_to m (some question) c =
    if trim_space question == ""
    then stopped 400 "question is required"
    else if ltb 2000 (byte_length question)
    then stopped 400 "question is too long"
    else answer_with m question (m.load (c.header "X-Nexora-Tenant-ID") (c.header "X-Nexora-Role"))

-- The question is `none` where the body cannot be decoded.
unfoldable pub assistant : Models → Option String → Handler
unfolding answer_to
assistant m question c st =
    if m.open_router_key == ""
    then (stopped 503 "OPENROUTER_API_KEY is not configured", st)
    else (answer_to m question c, st)

is_healthy : Option ℕ → Bool
is_healthy none = false
is_healthy (some code) = nat_eq code 200

all_healthy : (String → Option ℕ) → List String → Bool
all_healthy probe [] = true
all_healthy probe (name ∷ names) = is_healthy (probe name) && all_healthy probe names

-- `probe` is the status of the answer to `/healthz`, if there is one.
unfoldable pub ready : (probe : String → Option ℕ) → Handler
unfolding is_healthy all_healthy
ready probe c st =
    let names = "access" ∷ "operations" ∷ "usage" ∷ [] in
    (
      health (if all_healthy probe names then 200 else 503)
          (map (λ name. (name, if is_healthy (probe name) then "ok" else "unavailable")) names),
      st,
    )
