-- ===== src/Operations/Safety/Finishing.antt =====
-- The reports of a worker. A failure goes back to wait only if the row that was read has an
-- attempt left; the primary key makes the row that is written the same one.
use mathlib.Core.Path.{subst}
use sde_thp.Prelude.{
  ℕ, ◌≡◌, sym, ◌∙◌, Bool, String, Option, none, some, All-first_where, arith, first_where,
  update_where,
}
use sde_thp.Domain.{OperationStatus}
use sde_thp.Database.{Database, OperationRow}
use sde_thp.Effect.{ok, exec}
use sde_thp.Effect.Hoare.{
  Hoare, Keeps, wrote, Hoare-bind, Hoare-query, Hoare-lift, Hoare-exec, Hoare-transaction,
  Hoare-pure, Hoare-drop_error, Keeps-bind, Keeps-lift, Keeps-pure, Keeps-raise_if,
  Keeps-transaction, keeps_rules,
}
use sde_thp.Operations.Json.{Json}
use sde_thp.Operations.Rows.{is_leased, is_leased_in, set_failed, set_succeeded}
use sde_thp.Operations.Statements.{find_operation, update_operations, update_returning}
use sde_thp.Operations.Reply.{Headers, bound, or_http}
use sde_thp.Operations.Finish.{
  CompleteInput, FailInput, failure_status, retry_if, fail_row, fail, insert_event, worker_complete,
  worker_fail_row, worker_fail,
}
use sde_thp.Operations.Invariant.{IsRowValid}
use sde_thp.Operations.Invariant.Rows.{set_succeeded-IsRowValid}
use sde_thp.Operations.History.{Sound}
use sde_thp.Operations.History.Steps.{set_succeeded-SafeUpdate}
use sde_thp.Operations.Safety.{Keeps-update_returning, Keeps-insert_outbox}
use sde_thp.Operations.Safety.Failures.{
  is_leased-running, is_leased_in-running, is_leased-id, is_leased_in-id, failed-Sound,
}

module _ (before : Database) where
  retry_if-Sound :
      (status : OperationStatus) (o : OperationRow) → Keeps (Sound before) (retry_if status o)
  unfolding retry_if
  retry_if-Sound status o = search keeps_rules

  -- The tables after the SELECT of a failure report.
  abbrev Read : (OperationRow → Bool) → OperationRow → Database → Type 0
  Read p o d = Sound before d × (find_operation p d ≡ some o)

  or_http-some :
      {A : Type 0} (code : ℕ) (message : String) (o : Option A) (a : A)
      → or_http code message o ≡ ok a
      → o ≡ some a
  unfolding or_http
  or_http-some code message none a e = cc
  or_http-some code message (some b) a e = ground arith

  fail_row-Sound :
      (id : String) (input : FailInput) (o : OperationRow)
      → Hoare
          (Read (is_leased id input.worker_id) o)
          (fail_row id input o)
          (λ _. Sound before)
          (Sound before)
  unfolding fail_row update_operations find_operation
  fail_row-Sound id input o =
      Hoare-bind _ _ (Hoare-exec _ λ d h. (wrote (failed d h), wrote (failed d h), h.0)) λ rows.
        Keeps-bind _ _ (Keeps-raise_if _ _)
          λ _. Keeps-bind _ _ (retry_if-Sound _ o) (λ _. Keeps-pure _)
    where
      failed :
          (d : Database)
          → Read (is_leased id input.worker_id) o d
          → Sound before (record d {
            operations =
                update_where
                  (is_leased id input.worker_id)
                  (set_failed
                    (failure_status input o)
                    input.error_code
                    input.error_message
                    input.ai_explanation
                    d.now)
                  d.operations;
          })
      failed d h =
          failed-Sound before d h.0 (is_leased id input.worker_id) id o input
            (is_leased-running id input.worker_id) (is_leased-id id input.worker_id) h.1

  pub fail-Sound : (id : String) (body : Option FailInput) → Keeps (Sound before) (fail id body)
  unfolding fail
  fail-Sound id body = Keeps-bind _ _ (Keeps-lift (bound body)) λ input.
      Hoare-bind _ _ (Hoare-query (find_operation (is_leased id input.worker_id)) (λ d p. p))
        λ found.
          Hoare-bind _ _
            (Hoare-lift {Q = λ o d. Read (is_leased id input.worker_id) o d}
              (or_http 409 "operation cannot be failed" found)
              (λ o e d p. (p.0, p.1 ∙ or_http-some 409 "operation cannot be failed" found o e))
              (λ d p. p.0))
            λ o. fail_row-Sound id input o

  module _ (json : Json) where
    insert_event-Sound :
        (key kind id tenant payload : String)
        → Keeps (Sound before) (insert_event json key kind id tenant payload)
    unfolding insert_event
    insert_event-Sound key kind id tenant payload = Keeps-insert_outbox before key kind id tenant _

    completed-Sound :
        (headers : Headers) (id : String) (input : CompleteInput)
        → Keeps (Sound before) (
            exec (
              update_returning
                (is_leased_in headers.tenant id input.worker_id)
                (set_succeeded input.result input.ai_explanation)))
    completed-Sound headers id input =
        Keeps-update_returning before (is_leased_in headers.tenant id input.worker_id)
          (set_succeeded input.result input.ai_explanation)
          (λ now.
            set_succeeded-SafeUpdate (is_leased_in headers.tenant id input.worker_id) now
              (is_leased_in-running headers.tenant id input.worker_id) input.result
              input.ai_explanation)
          (λ now o v e.
            set_succeeded-IsRowValid now o v input.result input.ai_explanation
              (is_leased_in-running headers.tenant id input.worker_id o e))

    pub worker_complete-Sound :
        (headers : Headers) (id : String) (body : Option CompleteInput)
        → Keeps (Sound before) (worker_complete json headers id body)
    unfolding worker_complete
    worker_complete-Sound headers id body = Keeps-bind _ _ (Keeps-lift (bound body)) λ input.
        Keeps-bind _ _
          (Keeps-transaction _ (
            Keeps-bind _ _ (completed-Sound headers id input) λ found.
              Keeps-bind _ _ (Keeps-lift _)
                λ o. Keeps-bind _ _ (insert_event-Sound _ _ _ _ _) (λ _. Keeps-pure _)))
          (λ _. Keeps-pure _)

    worker_fail_row-Sound :
        (headers : Headers) (id : String) (input : FailInput) (o : OperationRow)
        → Hoare
            (Read (is_leased_in headers.tenant id input.worker_id) o)
            (worker_fail_row json headers id input o)
            (λ _. Sound before)
            (Sound before)
    unfolding worker_fail_row update_operations find_operation
    worker_fail_row-Sound headers id input o =
        Hoare-bind _ _
          (Hoare-transaction {E = Sound before} {Q = λ _. Sound before} _ (λ d h. h.0)
            λ start h.
              Hoare-bind _ _
                (Hoare-exec {E = λ _. Unit} {Q = λ _. Sound before} _ λ d e. (
                  wrote (subst (λ s. Sound before (after s)) (sym e) (failed start h)),
                  wrote tt,
                  tt,
                ))
                λ rows. Hoare-bind _ _ (Hoare-drop_error _ (Keeps-raise_if _ _)) λ _.
                  Hoare-bind _ _ (Hoare-drop_error _ (insert_event-Sound _ _ _ _ _))
                    λ _. Hoare-pure _ (λ d p. (p, p)))
          λ _. Keeps-bind _ _ (retry_if-Sound _ o) (λ _. Keeps-pure _)
      where
        after : Database → Database
        after d = record d {
          operations =
              update_where (is_leased_in headers.tenant o.id input.worker_id)
                (set_failed (failure_status input o) input.error_code input.error_message
                  input.ai_explanation d.now)
                d.operations;
        }

        failed :
            (d : Database)
            → Read (is_leased_in headers.tenant id input.worker_id) o d
            → Sound before (after d)
        failed d h =
            let e =
              is_leased_in-id headers.tenant id input.worker_id o
                (All-first_where IsRowValid (is_leased_in headers.tenant id input.worker_id)
                  d.operations h.0.valid.rows h.1).1 in
            failed-Sound before d h.0 (is_leased_in headers.tenant o.id input.worker_id) o.id o
              input (is_leased_in-running headers.tenant o.id input.worker_id)
              (is_leased_in-id headers.tenant o.id input.worker_id)
              (subst
                (λ s.
                  first_where (is_leased_in headers.tenant s input.worker_id) d.operations ≡ some o)
                (sym e) h.1)

    pub worker_fail-Sound :
        (headers : Headers) (id : String) (body : Option FailInput)
        → Keeps (Sound before) (worker_fail json headers id body)
    unfolding worker_fail
    worker_fail-Sound headers id body = Keeps-bind _ _ (Keeps-lift (bound body)) λ input.
        Hoare-bind _ _
          (Hoare-query (find_operation (is_leased_in headers.tenant id input.worker_id)) (λ d p. p))
          λ found.
            Hoare-bind _ _
              (Hoare-lift {Q = λ o d. Read (is_leased_in headers.tenant id input.worker_id) o d}
                (or_http 409 "operation cannot be failed" found)
                (λ o e d p. (p.0, p.1 ∙ or_http-some 409 "operation cannot be failed" found o e))
                (λ d p. p.0))
              λ o. worker_fail_row-Sound headers id input o
