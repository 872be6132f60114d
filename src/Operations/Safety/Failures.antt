-- ===== src/Operations/Safety/Failures.antt =====
-- The row that a failure report writes: by the primary key, the one that was read.
use sde_thp.Prelude.{
  ◌≡◌, sym, ◌∙◌, Bool, true, ◌&&◌, String, some, All, List, [], ◌∷◌, and-elim, ltb, ltb→lt,
  first_where, first_where-only, eq_iff, update_where,
}
use sde_thp.Database.{Database, OperationRow}
use sde_thp.Operations.Rows.{is_running, is_leased, is_leased_in, set_failed}
use sde_thp.Operations.Finish.{FailInput, failure_status}
use sde_thp.Operations.Invariant.{IsRowValid, same_id}
use sde_thp.Operations.Invariant.Rows.{set_failed-IsRowValid}
use sde_thp.Operations.History.{Sound}
use sde_thp.Operations.History.Steps.{set_failed-SafeUpdate, update-Sound}

pub is_leased-running :
    (id worker : String) (o : OperationRow)
    → is_leased id worker o ≡ true
    → is_running o.status ≡ true
unfolding is_leased
is_leased-running id worker o e = (and-elim _ _ (and-elim _ _ e).0).1

pub is_leased_in-running :
    (tenant id worker : String) (o : OperationRow)
    → is_leased_in tenant id worker o ≡ true
    → is_running o.status ≡ true
unfolding is_leased_in
is_leased_in-running tenant id worker o e = is_leased-running id worker o (and-elim _ _ e).1

pub is_leased-id :
    (id worker : String) (o : OperationRow) → is_leased id worker o ≡ true → o.id ≡ id
unfolding is_leased
is_leased-id id worker o e = (eq_iff o.id id).0 (and-elim _ _ (and-elim _ _ e).0).0

pub is_leased_in-id :
    (tenant id worker : String) (o : OperationRow)
    → is_leased_in tenant id worker o ≡ true
    → o.id ≡ id
unfolding is_leased_in
is_leased_in-id tenant id worker o e = is_leased-id id worker o (and-elim _ _ e).1

-- One failed row, by the row that was read.
module _ (before d : Database) (h : Sound before d) (p : OperationRow → Bool) (id : String)
    (o : OperationRow) (input : FailInput)
    (runs : (x : OperationRow) → p x ≡ true → is_running x.status ≡ true)
    (named : (x : OperationRow) → p x ≡ true → x.id ≡ id)
    (found : first_where p d.operations ≡ some o) where
  pub only : All (λ y. p y ≡ true → y ≡ o) d.operations
  only =
      first_where-only same_id p (λ x y e k. (eq_iff x.id y.id).1 (named x e ∙ sym (named y k)))
        d.operations h.valid.ids found

  pub failed-Sound : Sound before (record d {
    operations =
        update_where p
          (set_failed
            (failure_status input o)
            input.error_code
            input.error_message
            input.ai_explanation
            d.now)
          d.operations;
  })
  unfolding failure_status
  failed-Sound =
      update-Sound before d h p _
        (set_failed-SafeUpdate p d.now runs (input.retryable && ltb o.attempt o.max_attempts)
          input.error_code input.error_message input.ai_explanation)
        (kept d.operations h.valid.rows only)
    where
      kept :
          (xs : List OperationRow)
          → All IsRowValid xs
          → All (λ y. p y ≡ true → y ≡ o) xs
          → All
              (λ y.
                p y ≡ true
                → IsRowValid (
                    set_failed
                      (failure_status input o)
                      input.error_code
                      input.error_message
                      input.ai_explanation
                      d.now
                      y))
              xs
      kept [] v u = tt
      kept (x ∷ xs) v u = (
        (λ e.
            set_failed-IsRowValid d.now x v.0 (input.retryable && ltb o.attempt o.max_attempts)
              input.error_code input.error_message input.ai_explanation (runs x e)
              (λ b. rw (u.0 e) (ltb→lt _ _ (and-elim _ _ b).1))),
        kept xs v.1 u.1,
      )
