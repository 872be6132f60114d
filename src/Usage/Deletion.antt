-- ===== src/Usage/Deletion.antt =====
-- `deleteWebhook` of cmd/usage/main.go: what it removes, and when.
use mathlib.Core.Path.{subst}
use sde_thp.Prelude.{
  ℕ, ◌≡◌, ◌⊎◌, refl, sym, ap, inl, inr, Bool, true, false, not, ◌&&◌, String, Option, List, [], ◌∷◌,
  any, count_where, select_where, nat_eq, arith, ◌==◌, eq_iff, Bool-cases,
}
use sde_thp.Database.{Database, EndpointRow, WebhookRow}
use sde_thp.Effect.Hoare.{
  Hoare, Done, refuse, wrote, Hoare-bind, Hoare-exec, Hoare-guard, Hoare-pure,
}
use sde_thp.Operations.Reply.{Headers}
use sde_thp.Usage.Reply.{reply, nothing}
use sde_thp.Usage.Statements.{is_endpoint, delete_endpoint}
use sde_thp.Usage.Webhooks.{delete_webhook}

module _ {A : Type 0} (p : A → Bool) where
  none_selected :
      (xs : List A)
      → any p xs ≡ false
      → (count_where p xs ≡ 0) × (select_where (λ x. not (p x)) xs ≡ xs)
  none_selected [] h = (refl, refl)
  none_selected (x ∷ xs) h =
      let e : p x ≡ false = ground (arith, h) in
      let rest = none_selected xs in
      let t = rest (ground (arith, h)) in rw e (t.0, ap (λ ys. x ∷ ys) t.1)

  some_counted : (xs : List A) → any p xs ≡ true → nat_eq (count_where p xs) 0 ≡ false
  some_counted [] h = cc
  some_counted (x ∷ xs) h = elim (Bool-cases (p x)) [
    | inl e ↦ rw e (ground arith)
    | inr e ↦ rw e (let rest = some_counted xs in rest (ground (arith, e, h)))
  ]

module _ (id tenant : String) where
  abbrev pub is_own : EndpointRow → Bool
  is_own e = e.id == id && e.tenant_id == tenant

  abbrev holds_back : List EndpointRow → WebhookRow → Bool
  holds_back es o = any (λ e. is_own e && e.id == o.endpoint_id) es

  own_named :
      (es : List EndpointRow) → any is_own es ≡ true → any (λ e. is_own e && e.id == id) es ≡ true
  own_named [] h = h
  own_named (e ∷ es) h = ground (arith, own_named es)

  held :
      (es : List EndpointRow) (o : WebhookRow)
      → any is_own es ≡ true
      → (o.endpoint_id == id) ≡ true
      → holds_back es o ≡ true
  held es o own h =
      subst (λ (x : String). any (λ e. is_own e && e.id == x) es ≡ true)
        (sym ((eq_iff o.endpoint_id id).0 h)) (own_named es own)

  -- An endpoint that exists is held back by each delivery for it.
  unheld :
      (es : List EndpointRow) (os : List WebhookRow)
      → any is_own es ≡ true
      → any (holds_back es) os ≡ false
      → any (λ o. o.endpoint_id == id) os ≡ false
  unheld es [] own h = h
  unheld es (o ∷ os) own h = ground (arith, h, held es o own, unheld es os own)

-- The tenant had the endpoint, no delivery was recorded for it, and it alone has been removed.
pub record Deleted (start : Database) (id tenant : String) (d : Database) : Type 0 where
  pub own : any (is_own id tenant) start.webhook_endpoints ≡ true
  pub idle : any (λ (o : WebhookRow). o.endpoint_id == id) start.webhook_outbox ≡ false
  pub tables : d ≡ record start {
    webhook_endpoints =
        select_where
          (λ (e : EndpointRow). not (e.id == id && e.tenant_id == tenant))
          start.webhook_endpoints;
  }

module _ (start : Database) (id : String) (headers : Headers) where
  abbrev Struck : ℕ → Database → Type 0
  Struck n d =
      ((nat_eq n 0 ≡ false) × Deleted start id headers.tenant d)
      ⊎ ((nat_eq n 0 ≡ true) × (d ≡ start))

  delete_endpoint-Struck : Done Struck (delete_endpoint id headers.tenant start)
  unfolding delete_endpoint is_endpoint
  delete_endpoint-Struck =
      elim (Bool-cases
        (any (holds_back id headers.tenant start.webhook_endpoints) start.webhook_outbox)) [
          | inl held ↦ rw held refuse
          | inr free ↦
              rw free (elim (Bool-cases (any (is_own id headers.tenant) start.webhook_endpoints)) [
                | inl own ↦ wrote (
                    inl (
                      some_counted (is_own id headers.tenant) start.webhook_endpoints own,
                      record {
                        own = own;
                        idle =
                            unheld id headers.tenant start.webhook_endpoints start.webhook_outbox
                              own free;
                        tables = refl;
                      },
                    ))
                | inr none_own ↦
                    let k =
                      none_selected (is_own id headers.tenant) start.webhook_endpoints none_own in
                    wrote (
                      inr (
                        ap (λ n. nat_eq n 0) k.0,
                        ap (λ es. record start { webhook_endpoints = es }) k.1,
                      ))
              ])
        ]

  abbrev pub Either : Database → Type 0
  Either d = (d ≡ start) ⊎ Deleted start id headers.tenant d

  -- `deleteWebhook`, whichever calls fail. If it answers, the answer is 204, the tenant had the
  -- endpoint, no delivery was recorded for it, and it alone has been removed: no other tenant's
  -- endpoint and no delivery is lost. If it fails, either that holds or no table has changed.
  pub delete_webhook-Deleted :
      Hoare
        (λ d. d ≡ start)
        (delete_webhook id headers)
        (λ r d. (r ≡ reply 204 nothing) × Deleted start id headers.tenant d)
        Either
  unfolding delete_webhook
  delete_webhook-Deleted =
      Hoare-bind {R = Struck} _ _
        (Hoare-exec _ λ d e.
          let q =
            subst (λ x. Done Struck (delete_endpoint id headers.tenant x)) (sym e)
              delete_endpoint-Struck in
          (q, ended q, inl e))
        (λ n.
          Hoare-guard _ _ _ (λ d s. either n d s)
            (λ some_row. Hoare-pure _ (λ d s. (refl, removed n d some_row s))))
    where
      either : (n : ℕ) (d : Database) → Struck n d → Either d
      either n d (inl s) = inr s.1
      either n d (inr s) = inl s.1

      removed :
          (n : ℕ) (d : Database)
          → nat_eq n 0 ≡ false
          → Struck n d
          → Deleted start id headers.tenant d
      removed n d h (inl s) = s.1
      removed n d h (inr s) = absurd (ground (arith, h, s.0))

      ended : {o : Option (ℕ × Database)} → Done Struck o → Done (λ _. Either) o
      ended refuse = refuse
      ended (wrote {a} {d} s) = wrote (either a d s)
