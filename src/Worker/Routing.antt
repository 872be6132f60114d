-- ===== src/Worker/Routing.antt =====
-- Which worker takes a message of the stream that both kinds of worker read: `workerPoll` and the
-- CLOUD worker's `process`.
use sde_thp.Prelude.{
  ◌≡◌, ◌⊎◌, inl, inr, refl, ◌∙◌, Bool, true, false, ◌&&◌, String, Option, none, some, ◌==◌, eq_iff,
  any, Bool-cases, Option-cases, if◌then◌else◌,
}
use sde_thp.Contracts.{QueueEnvelope}
use sde_thp.Operations.Json.{Json}
use sde_thp.Operations.Poll.{decoded, private_for}
use sde_thp.Worker.Cloud.{
  Outside, Action, acknowledge, post_fail, report_failure, process, process_envelope, is_past,
}
use sde_thp.Worker.Cloud

-- A claim, a call of the target, a result or a usage event.
abbrev pub is_work : Action → Bool
is_work acknowledge = false
is_work (post_fail id code message retryable explanation) = false
is_work _ = true

module _ (json : Json) (w : Outside) (tenant : String)
    (same : (text : String) → w.unmarshal_envelope text ≡ json.unmarshal_envelope text) where
  not_private :
      (e : QueueEnvelope)
      → (e.execution_mode == "CLOUD") ≡ true
      → private_for tenant (some e) ≡ none
  unfolding private_for
  not_private e h = rw (other e.execution_mode h) (neither (e.tenant_id == tenant) e)
    where
      other : (mode : String) → (mode == "CLOUD") ≡ true → (mode == "PRIVATE") ≡ false
      other mode k = rw ((eq_iff mode "CLOUD").0 k) refl

      neither : (b : Bool) (x : QueueEnvelope) → (if b && false then some x else none) ≡ none
      neither true x = refl
      neither false x = refl

  idle :
      (e : QueueEnvelope)
      → (e.execution_mode == "CLOUD") ≡ false
      → any is_work (process_envelope w e) ≡ false
  unfolding process_envelope report_failure
  idle e h = elim (Bool-cases (is_past w e.deadline)) [
    | inl p ↦ rw p refl
    | inr p ↦ rw p (rw h refl)
  ]

  -- The two programs decode a message alike: then no message is both handed to a private worker,
  -- of whatever tenant, and run by the CLOUD worker. Either the poll passes it over, or the CLOUD
  -- worker neither claims, nor calls, completes or announces anything for it.
  pub decoded-process :
      (message : Option String)
      → (decoded json tenant message ≡ none) ⊎ (any is_work (process w message) ≡ false)
  unfolding decoded process Cloud.decoded
  decoded-process none = inl refl
  decoded-process (some text) = elim (Option-cases (json.unmarshal_envelope text)) [
    | inl e ↦ inl (rw e refl)
    | inr (env, e) ↦ elim (Bool-cases (env.execution_mode == "CLOUD")) [
      | inl h ↦ inl (rw e (not_private env h))
      | inr h ↦ inr (rw (same text ∙ e) (idle env h))
    ]
  ]
