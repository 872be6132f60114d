-- ===== src/Usage/Removal.antt =====
-- `deleteWebhook` of cmd/usage/main.go after `recordEvent`.
use mathlib.Core.Path.{subst}
use sde_thp.Prelude.{
  ◌≡◌, sym, ◌∙◌, inl, inr, Bool, true, ◌&&◌, String, List, [], ◌∷◌, ◌++◌, any, map, select_where,
  arith, ◌==◌, eq_iff, Bool-cases,
}
use sde_thp.Contracts.{OperationEvent}
use sde_thp.Database.{Database, EndpointRow, WebhookRow}
use sde_thp.Effect.Hoare.{Hoare-bind, Hoare-exec, refuse}
use sde_thp.Operations.Reply.{Headers}
use sde_thp.Operations.Leases.{IsRefused}
use sde_thp.Usage.Statements.{is_endpoint, is_enabled_for, new_webhook, delete_endpoint}
use sde_thp.Usage.Webhooks.{delete_webhook}
use sde_thp.Usage.Charging.{Recorded, webhook_rows}

any-after : {A : Type 0} (p : A → Bool) (xs ys : List A) → any p ys ≡ true → any p (xs ++ ys) ≡ true
any-after p [] ys h = h
any-after p (x ∷ xs) ys h = ground (arith, any-after p xs ys h)

-- The endpoint of a tenant, if it gets the tenant's events.
abbrev pub is_listening : String → String → EndpointRow → Bool
is_listening id tenant e = e.id == id && is_enabled_for tenant e

module _ (q : WebhookRow → Bool) (id tenant : String) (make : EndpointRow → WebhookRow)
    (hit : (e : EndpointRow) → e.id == id ≡ true → q (make e) ≡ true) where
  any-made :
      (es : List EndpointRow)
      → any (is_listening id tenant) es ≡ true
      → any q (map make (select_where (is_enabled_for tenant) es)) ≡ true
  any-made [] h = h
  any-made (e ∷ es) h = elim (Bool-cases (is_enabled_for tenant e)) [
    | inl on ↦ rw on (ground (arith, any-made es, hit e))
    | inr off ↦ rw off (any-made es (ground arith))
  ]

any-endpoint :
    (id tenant : String) (es : List EndpointRow)
    → any (is_listening id tenant) es ≡ true
    → any (λ e. is_endpoint id tenant e && e.id == id) es ≡ true
unfolding is_endpoint is_enabled_for
any-endpoint id tenant [] h = h
any-endpoint id tenant (e ∷ es) h = ground (arith, any-endpoint id tenant es)

module _ (new_id : String → String) (start : Database) (event : OperationEvent) (id : String)
    (headers : Headers) where
  abbrev named : Database → Bool
  named d =
      any
        (λ o.
          any (λ e. is_endpoint id headers.tenant e && e.id == o.endpoint_id) d.webhook_endpoints)
        d.webhook_outbox

  named_after :
      headers.tenant ≡ event.tenant_id
      → any (is_listening id event.tenant_id) start.webhook_endpoints ≡ true
      → named (record start {
        webhook_outbox = start.webhook_outbox ++ webhook_rows new_id start event;
      })
        ≡ true
  unfolding new_webhook
  named_after mine listening = rw mine (
      any-after _ start.webhook_outbox _ (
        any-made _ id event.tenant_id _
          (λ e same.
            subst
              (λ (x : String).
                any (λ e. is_endpoint id event.tenant_id e && e.id == x) start.webhook_endpoints
                ≡ true)
              (sym ((eq_iff e.id id).0 same))
              (any-endpoint id event.tenant_id start.webhook_endpoints listening))
          start.webhook_endpoints listening))

  -- In the state that `recordEvent` leaves when it has charged an event, an enabled endpoint of the
  -- event's tenant cannot be deleted by a request of the tenant, whichever calls fail: the answer is
  -- an error and no table changes.
  pub delete_webhook-IsRefused :
      headers.tenant ≡ event.tenant_id
      → any (is_listening id event.tenant_id) start.webhook_endpoints ≡ true
      → (d : Database) → Recorded new_id start event d
      → IsRefused d (delete_webhook id headers)
  unfolding delete_webhook delete_endpoint
  delete_webhook-IsRefused mine listening d r =
      Hoare-bind {R = λ _ _. ⊥} _ _
        (Hoare-exec _ λ d' same.
          let kept =
            subst (λ x. named x ≡ true) (sym (same ∙ r.tables)) (named_after mine listening) in
          (rw kept refuse, rw kept refuse, same))
        (λ _. record { at = λ w h. absurd h })
