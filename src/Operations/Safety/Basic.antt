-- ===== src/Operations/Safety/Basic.antt =====
-- The handlers that change one row in one statement, and those that only read.
use sde_thp.Prelude.{ℤ, ◌≡◌, refl, true, List, [], ◌∷◌, String, Option, none, some, and-elim}
use sde_thp.Database.{Database, OperationRow, EventRow}
use sde_thp.Effect.{exec}
use sde_thp.Effect.Hoare.{
  Keeps, Keeps-bind, Keeps-pure, Keeps-query, Keeps-clock, wrote, keeps_rules,
}
use sde_thp.Operations.Rows.{
  cancellable, enqueueable, is_running, is_leased, is_leased_in, set_cancelled, set_extended,
  set_succeeded,
}
use sde_thp.Operations.Reply.{Headers}
use sde_thp.Operations.Cancel.{is_cancellable, cancel}
use sde_thp.Operations.Claim.{changed, heartbeat, worker_heartbeat}
use sde_thp.Contracts.{OperationEvent}
use sde_thp.Operations.Enqueue.{is_waiting}
use sde_thp.Operations.Finish.{CompleteInput, complete}
use sde_thp.Operations.Outbox.{
  HttpResult, update_event, settle_event, dispatch_events, dispatch_event_batch,
}
use sde_thp.Operations.Read.{get, get_internal, list}
use sde_thp.Operations.Invariant.Rows.{
  set_cancelled-IsRowValid, set_extended-IsRowValid, set_succeeded-IsRowValid,
}
use sde_thp.Operations.History.{Sound}
use sde_thp.Operations.History.Steps.{
  set_cancelled-SafeUpdate, set_extended-SafeUpdate, set_succeeded-SafeUpdate, Sound-of_same,
}
use sde_thp.Operations.Safety.{Keeps-exec, Keeps-update, Keeps-ignore}
use sde_thp.Operations.Statements.{update_operations}

module _ (before : Database) where
  cancel_guard :
      (tenant id : String) (o : OperationRow)
      → is_cancellable tenant id o ≡ true
      → cancellable o.status ≡ true
  unfolding is_cancellable
  cancel_guard tenant id o e = (and-elim _ _ e).1

  pub cancel-Sound : (headers : Headers) (id : String) → Keeps (Sound before) (cancel headers id)
  unfolding cancel
  cancel-Sound headers id =
      Keeps-bind _ _
        (Keeps-update before (is_cancellable headers.tenant id) set_cancelled
          (λ now.
            set_cancelled-SafeUpdate (is_cancellable headers.tenant id) now
              (cancel_guard headers.tenant id))
          (λ now o v e. set_cancelled-IsRowValid now o v (cancel_guard headers.tenant id o e)))
        (λ rows. search keeps_rules)

  pub get-Sound : (headers : Headers) (id : String) → Keeps (Sound before) (get headers id)
  unfolding get
  get-Sound headers id = search keeps_rules

  pub get_internal-Sound : (id : String) → Keeps (Sound before) (get_internal id)
  unfolding get_internal
  get_internal-Sound id = search keeps_rules

  pub list-Sound :
      (headers : Headers) (limit : ℤ) (status : String)
      → Keeps (Sound before) (list headers limit status)
  unfolding list
  list-Sound headers limit status = search keeps_rules

  leased_guard :
      (id worker : String) (o : OperationRow)
      → is_leased id worker o ≡ true
      → is_running o.status ≡ true
  unfolding is_leased
  leased_guard id worker o e = (and-elim _ _ (and-elim _ _ e).0).1

  leased_in_guard :
      (tenant id worker : String) (o : OperationRow)
      → is_leased_in tenant id worker o ≡ true
      → is_running o.status ≡ true
  unfolding is_leased_in
  leased_in_guard tenant id worker o e = leased_guard id worker o (and-elim _ _ e).1

  pub heartbeat-Sound : (id worker : String) → Keeps (Sound before) (heartbeat id worker)
  unfolding heartbeat
  heartbeat-Sound id worker =
      Keeps-bind _ _
        (Keeps-update before (is_leased id worker) (set_extended 30)
          (λ now. set_extended-SafeUpdate (is_leased id worker) now (leased_guard id worker) 30)
          (λ now o v e. set_extended-IsRowValid now o v 30 (leased_guard id worker o e)))
        (λ rows. search keeps_rules)

  pub worker_heartbeat-Sound :
      (headers : Headers) (id worker : String)
      → Keeps (Sound before) (worker_heartbeat headers id worker)
  unfolding worker_heartbeat
  worker_heartbeat-Sound headers id worker =
      Keeps-bind _ _
        (Keeps-update before (is_leased_in headers.tenant id worker) (set_extended 45)
          (λ now.
            set_extended-SafeUpdate (is_leased_in headers.tenant id worker) now
              (leased_in_guard headers.tenant id worker) 45)
          (λ now o v e.
            set_extended-IsRowValid now o v 45 (leased_in_guard headers.tenant id worker o e)))
        (λ rows. search keeps_rules)

  complete_row-Sound :
      (id : String) (input : CompleteInput)
      → Keeps (Sound before) (
          exec (
            update_operations
              (is_leased id input.worker_id)
              (set_succeeded input.result input.ai_explanation)))
  complete_row-Sound id input =
      Keeps-update before (is_leased id input.worker_id)
        (set_succeeded input.result input.ai_explanation)
        (λ now.
          set_succeeded-SafeUpdate (is_leased id input.worker_id) now
            (leased_guard id input.worker_id) input.result input.ai_explanation)
        (λ now o v e.
          set_succeeded-IsRowValid now o v input.result input.ai_explanation
            (leased_guard id input.worker_id o e))

  pub complete-Sound :
      (id : String) (body : Option CompleteInput) → Keeps (Sound before) (complete id body)
  unfolding complete changed
  complete-Sound id body = search (keeps_rules, complete_row-Sound)

  -- The event outbox is not part of the invariant.
  settle_event-Sound :
      (x : EventRow) (failure : Option String) → Keeps (Sound before) (settle_event x failure)
  unfolding settle_event update_event
  settle_event-Sound x none =
      Keeps-ignore _ (Keeps-exec before _ λ d h. wrote (Sound-of_same before d h _ refl refl))
  settle_event-Sound x (some message) =
      Keeps-ignore _ (Keeps-exec before _ λ d h. wrote (Sound-of_same before d h _ refl refl))

  dispatch_events-Sound :
      (post : OperationEvent → HttpResult) (xs : List EventRow)
      → Keeps (Sound before) (dispatch_events post xs)
  unfolding dispatch_events
  dispatch_events-Sound post [] = Keeps-pure tt
  dispatch_events-Sound post (x ∷ xs) =
      Keeps-bind _ _ (Keeps-bind _ _ Keeps-clock (λ now. settle_event-Sound x _))
        (λ _. dispatch_events-Sound post xs)

  pub dispatch_event_batch-Sound :
      (post : OperationEvent → HttpResult) → Keeps (Sound before) (dispatch_event_batch post)
  unfolding dispatch_event_batch
  dispatch_event_batch-Sound post =
      Keeps-bind _ _ (Keeps-query _) (λ xs. dispatch_events-Sound post xs)

module _ (before : Database) where
  waiting_guard :
      (id : String) (o : OperationRow) → is_waiting id o ≡ true → enqueueable o.status ≡ true
  unfolding is_waiting
  waiting_guard id o e = (and-elim _ _ e).1
