-- ===== src/Operations/Safety.antt =====
-- Every handler of the operations service keeps the database sound, whatever calls fail. Here
-- are the rules for one statement; each child takes the handlers of one module.
pub mod Basic
pub mod Claims
pub mod Submitting
pub mod Failures
pub mod Finishing
pub mod Expiry
pub mod Reaping
pub mod Service
use sde_thp.Prelude.{
  ℕ, ◌≡◌, ◌<◌, refl, Bool, true, false, String, Option, none, some, All, All-map, List, any,
  Bool-cases, inl, inr, ◌==◌,
}
use sde_thp.Database.{Database, OperationRow}
use sde_thp.Effect.{M, World, Result, ok, err, Statement, exec}
use sde_thp.Operations.Reply.{ignore, caught}
use sde_thp.Effect.Hoare.{Hoare, Keeps, Post, Done, refuse, wrote, Hoare-exec}
use sde_thp.Operations.Statements.{
  update_operations, update_returning, insert_operation, insert_transition, insert_outbox, has_key,
}
use sde_thp.Operations.Rows.{has_id, is_running}
use sde_thp.Operations.Invariant.{IsRowValid}
use sde_thp.Operations.History.{Sound}
use sde_thp.Operations.History.Steps.{SafeUpdate, update-Sound, insert-Sound, Sound-of_same}

module _ {P : Database → Type 0} {A : Type 0} where
  -- A dropped error: the error's tables are the result's.
  pub Hoare-ignore :
      {E F : Database → Type 0} (m : M A) → Hoare P m (λ _. E) E → Hoare P (ignore m) (λ _. E) F
  unfolding ignore
  Hoare-ignore {E = E} m h = record { at = λ w p. ended (m w) (h.at w p) }
    where
      ended : (x : Result A × World) → Post (λ _. E) E x → E x.1.db
      ended (ok a, w) p = p
      ended (err e, w) p = p

  pub Keeps-ignore : (m : M A) → Keeps P m → Keeps P (ignore m)
  Keeps-ignore m h = Hoare-ignore m h

  pub Keeps-caught : (m : M A) → Keeps P m → Keeps P (caught m)
  unfolding caught
  Keeps-caught m h = record { at = λ w p. ended (m w) (h.at w p) }
    where
      ended : (x : Result A × World) → Post (λ _. P) P x → P x.1.db
      ended (ok a, w) p = p
      ended (err e, w) p = p

module _ (before : Database) where
  pub Keeps-exec :
      {A : Type 0} (s : Statement A)
      → ((d : Database) → Sound before d → Done (λ _. Sound before) (s d))
      → Keeps (Sound before) (exec s)
  Keeps-exec s k = Hoare-exec s (λ d h. (k d h, k d h, h))

  module _ (p : OperationRow → Bool) (set : ℕ → OperationRow → OperationRow)
      (safe : (now : ℕ) → SafeUpdate p (set now)) where
    pub Keeps-update :
        ((now : ℕ) (o : OperationRow) → IsRowValid o → p o ≡ true → IsRowValid (set now o))
        → Keeps (Sound before) (exec (update_operations p set))
    unfolding update_operations
    Keeps-update rows = Keeps-exec (update_operations p set) λ d h. wrote (
        update-Sound before d h p (set d.now) (safe d.now) (
          All-map IsRowValid (λ o. p o ≡ true → IsRowValid (set d.now o)) (rows d.now) d.operations
            h.valid.rows))

    pub Keeps-update_returning :
        ((now : ℕ) (o : OperationRow) → IsRowValid o → p o ≡ true → IsRowValid (set now o))
        → Keeps (Sound before) (exec (update_returning p set))
    unfolding update_returning
    Keeps-update_returning rows = Keeps-exec (update_returning p set) λ d h. wrote (
        update-Sound before d h p (set d.now) (safe d.now) (
          All-map IsRowValid (λ o. p o ≡ true → IsRowValid (set d.now o)) (rows d.now) d.operations
            h.valid.rows))

  pub Keeps-insert_outbox :
      (event_key event_type operation_id tenant_id payload : String)
      → Keeps
          (Sound before)
          (exec (insert_outbox event_key event_type operation_id tenant_id payload))
  unfolding insert_outbox
  Keeps-insert_outbox k t o n p = Keeps-exec (insert_outbox k t o n p) λ d h.
      elim (Bool-cases (any (λ e. e.event_key == k) d.event_outbox)) [
        | inl e ↦ rw (e, insert_outbox) (wrote h)
        | inr e ↦ rw (e, insert_outbox) (wrote (Sound-of_same before d h _ refl refl))
      ]

  pub Keeps-insert_transition :
      (operation_id tenant_id reason : String)
      → Keeps (Sound before) (exec (insert_transition operation_id tenant_id reason))
  unfolding insert_transition
  Keeps-insert_transition o t r = Keeps-exec (insert_transition o t r) λ d h.
      elim (Bool-cases (any (has_id o) d.operations)) [
        | inl e ↦ rw (e, insert_transition) (wrote (Sound-of_same before d h _ refl refl))
        | inr e ↦ rw (e, insert_transition) refuse
      ]

  -- The three tests of the INSERT are what the new row must pass.
  pub Keeps-insert_operation :
      (new : ℕ → OperationRow)
      → ((now : ℕ) → IsRowValid (new now))
      → ((now : ℕ) → is_running (new now).status ≡ false)
      → Keeps (Sound before) (exec (λ d. insert_operation (new d.now) d))
  unfolding insert_operation
  Keeps-insert_operation new valid idle =
      Keeps-exec (λ d. insert_operation (new d.now) d)
        λ d h.
          let o = new d.now in
          elim (Bool-cases (any (has_key o.tenant_id o.idempotency_key) d.operations)) [
            | inl key ↦ rw (key, insert_operation) (wrote h)
            | inr key ↦ elim (Bool-cases (any (has_id o.id) d.operations)) [
              | inl id ↦ rw (key, id, insert_operation) refuse
              | inr id ↦ elim (Bool-cases (any (λ t. t.id == o.tenant_id) d.tenants)) [
                | inl t ↦
                    rw (key, id, t, insert_operation)
                      (wrote
                        (insert-Sound before d h (new d.now) (valid d.now) (idle d.now) id key))
                | inr t ↦ rw (key, id, t, insert_operation) refuse
              ]
            ]
          ]
