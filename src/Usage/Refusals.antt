-- ===== src/Usage/Refusals.antt =====
-- The errors of `recordEvent` of cmd/usage/main.go are answered by codes from 300 on.
use sde_thp.Prelude.{ℕ, refl, String, Option, none, some, nat_eq, Bool-cases, inl, inr}
use sde_thp.Contracts.{OperationEvent}
use sde_thp.Effect.{World, error_code, commit}
use sde_thp.Effect.Refusals.{
  IsRefusal, Refuses, Refuses-pure, Refuses-lift, Refuses-raise_if, Refuses-clock, Refuses-announce,
  Refuses-exec, Refuses-bind, Refuses-transaction,
}
use sde_thp.Operations.Reply.{bound}
use sde_thp.Usage.Record.{record_event, record_checked, charge, announce_to, with_defaults}

module _ (new_id : String → String) (marshal : OperationEvent → String) where
  Refuses-announce_to :
      (e : OperationEvent) (rows : ℕ) → Refuses (announce_to new_id marshal e rows)
  unfolding announce_to
  Refuses-announce_to e rows = elim (Bool-cases (nat_eq rows 0)) [
    | inl old ↦ rw old (Refuses-pure tt)
    | inr new ↦ rw new (Refuses-exec _)
  ]

  Refuses-charge : (e : OperationEvent) → Refuses (charge new_id marshal e)
  unfolding charge
  Refuses-charge e =
      Refuses-bind _ _ (Refuses-exec _)
        λ rows. Refuses-bind _ _ (Refuses-announce_to e rows) λ _. Refuses-pure (commit tt)

  Refuses-bound : {A : Type 0} (body : Option A) (w : World) → IsRefusal (bound body, w)
  unfolding bound error_code
  Refuses-bound none w = refl
  Refuses-bound (some a) w = tt

  -- An event that is not recorded is refused by a code from 300 on.
  pub record_event-Refuses :
      (body : Option OperationEvent) → Refuses (record_event new_id marshal body)
  unfolding record_event record_checked error_code
  record_event-Refuses body =
      Refuses-bind _ _ (Refuses-lift (bound body) (Refuses-bound body)) λ event.
        Refuses-bind _ _ (Refuses-raise_if _ _ refl) λ _. Refuses-bind _ _ Refuses-clock λ now.
          Refuses-bind _ _ (Refuses-transaction _ (Refuses-charge (with_defaults now event)))
            λ _. Refuses-bind _ _ (Refuses-announce _) λ _. Refuses-pure _
