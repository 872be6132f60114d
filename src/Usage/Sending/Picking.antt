-- ===== src/Usage/Sending/Picking.antt =====
-- The rows that `dispatchBatch` of cmd/usage/main.go picks, and the deliveries made of them.
use mathlib.Core.Path.{subst}
use sde_thp.Prelude.{
  ◌≡◌, refl, sym, inl, inr, true, Option, none, some, List, [], ◌∷◌, All, All-map, All-selected,
  All-take, any, first_where, ltb, ◌==◌, eq_flip, arith, Bool-cases, and-elim,
}
use sde_thp.Database.{Database, EndpointRow, WebhookRow}
use sde_thp.Usage.Statements.{has_webhook_id}
use sde_thp.Usage.Deliveries.{
  Delivery, delivery_of, add_delivery, joined, picked, insert_created, by_created, is_due,
  is_waiting, is_picked,
}
use sde_thp.Usage.Sending.{IsFor, same_id}

module _ (P : WebhookRow → Type 0) where
  All-insert_created :
      (x : WebhookRow) (xs : List WebhookRow) → P x → All P xs → All P (insert_created x xs)
  unfolding insert_created
  All-insert_created x [] p h = (p, tt)
  All-insert_created x (y ∷ xs) p h = elim (Bool-cases (ltb y.created_at x.created_at)) [
    | inl e ↦ rw e (h.0, All-insert_created x xs p h.1)
    | inr e ↦ rw e (p, h)
  ]

  All-by_created : (xs : List WebhookRow) → All P xs → All P (by_created xs)
  unfolding by_created
  All-by_created [] h = tt
  All-by_created (x ∷ xs) h = All-insert_created x (by_created xs) h.0 (All-by_created xs h.1)

-- A row that was picked is the only one with its identifier, and it waits.
record IsPicked (o r : WebhookRow) : Type 0 where
  same : same_id o r ≡ true → o ≡ r
  waiting : is_waiting r.status ≡ true

All-IsPicked :
    (d : Database) (o : WebhookRow)
    → All (λ r. same_id o r ≡ true → o ≡ r) d.webhook_outbox
    → All (IsPicked o) (picked d)
unfolding picked is_due
All-IsPicked d o h = All-take (IsPicked o) 20 _ (
    All-by_created (IsPicked o) _ (
      All-map (λ r. (same_id o r ≡ true → o ≡ r) × (is_due d.now r ≡ true)) (IsPicked o)
        (λ r k. record { same = k.0; waiting = (and-elim _ _ k.1).0 }) _
        (All-selected (λ r. same_id o r ≡ true → o ≡ r) (is_due d.now) d.webhook_outbox h)))

module _ (d : Database) (o : WebhookRow) where
  any-waiting :
      (rs : List WebhookRow)
      → All (IsPicked o) rs
      → any (has_webhook_id o.id) rs ≡ true
      → is_waiting o.status ≡ true
  any-waiting [] h e = cc
  any-waiting (r ∷ rs) h e = elim (Bool-cases (r.id == o.id)) [
    | inl same ↦
        subst (λ z. is_waiting z.status ≡ true) (sym (h.0.same (eq_flip r.id o.id same)))
          h.0.waiting
    | inr other ↦ any-waiting rs h.1 (ground arith)
  ]

  -- A row that the UPDATE sets in flight was waiting.
  pub is_picked-waiting :
      All (λ r. same_id o r ≡ true → o ≡ r) d.webhook_outbox
      → is_picked d o ≡ true
      → is_waiting o.status ≡ true
  unfolding is_picked
  is_picked-waiting h e = any-waiting (picked d) (All-IsPicked d o h) (and-elim _ _ e).0

  added-IsFor :
      (r : WebhookRow) (m : Option EndpointRow) (xs : List Delivery)
      → IsPicked o r
      → first_where (λ e. e.id == r.endpoint_id) d.webhook_endpoints ≡ m
      → All (λ x. o.id == x.id ≡ true → IsFor d o x) xs
      → All (λ x. o.id == x.id ≡ true → IsFor d o x) (add_delivery r m xs)
  unfolding add_delivery delivery_of
  added-IsFor r none xs p found h = h
  added-IsFor r (some e) xs p found h = (
    (λ same.
        subst (λ z. IsFor d z (delivery_of r e)) (sym (p.same same))
          record { waiting = p.waiting; endpoint = e; found = found; made = refl }),
    h,
  )

  joined-IsFor :
      (rs : List WebhookRow)
      → All (IsPicked o) rs
      → All (λ x. o.id == x.id ≡ true → IsFor d o x) (joined d.webhook_endpoints rs)
  unfolding joined
  joined-IsFor [] h = tt
  joined-IsFor (r ∷ rs) h = added-IsFor r _ _ h.0 refl (joined-IsFor rs h.1)

  pub picked-IsFor :
      All (λ r. same_id o r ≡ true → o ≡ r) d.webhook_outbox
      → All (λ x. o.id == x.id ≡ true → IsFor d o x) (joined d.webhook_endpoints (picked d))
  picked-IsFor h = joined-IsFor (picked d) (All-IsPicked d o h)
