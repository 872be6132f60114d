-- ===== src/Worker/Providers.antt =====
-- What the services make of an answer of OpenRouter: `callOpenRouter` of cmd/worker/main.go,
-- `askOpenRouter` of cmd/gateway/main.go and the loop of `explain` of
-- cmd/enterprise-worker/main.go.
use sde_thp.Prelude.{
  Bool, ◌||◌, ltb, leb, ℕ, String, Option, none, some, List, [], ◌∷◌, ◌==◌, trim_space,
  if◌then◌else◌,
}

-- A status that is not 2xx, as each of the three programs tests it.
abbrev is_bad : ℕ → Bool
is_bad status = ltb status 200 || leb 300 status

-- The call fails, or gives a status and the contents of the choices that its body decodes to.
pub data Completion : Type 0 where
  no_completion : Completion
  completion : ℕ → Option (List String) → Completion

first_choice : List String → Option String
first_choice [] = none
first_choice (content ∷ contents) = if trim_space content == "" then none else some content

unfoldable pub call_open_router : Completion → Option String
unfolding first_choice
call_open_router no_completion = none
call_open_router (completion code none) = none
call_open_router (completion code (some contents)) =
    let first = first_choice contents in if is_bad code then none else first

-- The enterprise worker takes the first choice, though it be empty.
any_choice : List String → Option String
any_choice [] = none
any_choice (content ∷ contents) = some content

unfoldable pub private_answer : Completion → Option String
unfolding any_choice
private_answer no_completion = none
private_answer (completion code none) = none
private_answer (completion code (some contents)) =
    let first = any_choice contents in if is_bad code then none else first

-- `for _, model := range`: the model that answers first, with its answer.
unfoldable pub first_model : (String → Option String) → List String → Option (String × String)
first_model ask [] = none
first_model ask (model ∷ models) =
    let rest = first_model ask models in
    elim (ask model) [ some answer ↦ some (model, answer) | none ↦ rest ]

-- The settings of the enterprise worker, and what OpenRouter answers a model on a prompt that is
-- built from the task type, the result and the failure.
pub record Explainer : Type 0 where
  pub open_router_key : String
  pub primary_model : String
  pub fallback_model : String
  pub ask : (model task_type result failure : String) → Completion

text_of : Option (String × String) → String
text_of none = "AI explanation was unavailable; inspect the private worker error details."
text_of (some (model, answer)) = answer

-- `explain` of cmd/enterprise-worker/main.go.
unfoldable pub explain_private : Explainer → (task_type result failure : String) → String
unfolding text_of private_answer first_model
explain_private x task_type result failure =
    if x.open_router_key == ""
    then if failure == ""
      then "The private worker completed the operation successfully."
      else "The private worker could not complete the operation. Check the target service, network path, and error details."
    else text_of (
        first_model (λ model. private_answer (x.ask model task_type result failure))
          (x.primary_model ∷ x.fallback_model ∷ []))
