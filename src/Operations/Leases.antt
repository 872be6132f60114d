-- ===== src/Operations/Leases.antt =====
-- Who may report on an operation, and what a claim gives.
use mathlib.Core.Option
use sde_thp.Prelude.{
  ℕ, ◌≡◌, refl, Bool, true, false, ◌&&◌, String, none, some, List, [], ◌∷◌, arith, first_where,
  count_where, update_where, nat_eq, if◌then◌else◌,
}
use sde_thp.Database.{Database, OperationRow}
use sde_thp.Effect.{M, http, exec, query, lift, raise_if, ◌>>=◌, ◌>>◌}
use sde_thp.Effect.Hoare.{Hoare, Hoare-bind}
use sde_thp.Effect.Steps.{transaction_at, query_at, exec_at, lift_ok, lift_err, stop_guard}
use sde_thp.Operations.Json.{Json}
use sde_thp.Operations.Rows.{of_tenant, is_leased, is_leased_in}
use sde_thp.Operations.Statements.{update_operations, update_returning, find_operation}
use sde_thp.Operations.Reply.{Headers, bound, or_http}
use sde_thp.Operations.Claim.{changed, heartbeat, worker_heartbeat}
use sde_thp.Operations.Finish.{
  CompleteInput, FailInput, complete, fail, worker_complete, worker_fail,
}

-- An UPDATE whose WHERE clause selects nothing.
none_selected :
    (p : OperationRow → Bool) (f : OperationRow → OperationRow) (xs : List OperationRow)
    → first_where p xs ≡ none
    → (update_where p f xs ≡ xs) × (count_where p xs ≡ 0)
none_selected p f [] e = (refl, refl)
none_selected p f (x ∷ xs) e = ground (arith, none_selected p f xs)

-- A further condition selects nothing more.
first_where-and :
    {A : Type 0} (q p : A → Bool) (xs : List A)
    → first_where p xs ≡ none
    → first_where (λ x. q x && p x) xs ≡ none
first_where-and q p [] h = h
first_where-and q p (x ∷ xs) h = narrowed (q x) (p x) h (first_where-and q p xs)
  where
    narrowed :
        (a b : Bool)
        → (if b then some x else first_where p xs) ≡ none
        → (first_where p xs ≡ none → first_where (λ x. q x && p x) xs ≡ none)
        → (if a && b then some x else first_where (λ x. q x && p x) xs) ≡ none
    narrowed a true h k = cc
    narrowed true false h k = k h
    narrowed false false h k = k h

-- The handler is refused, and the tables stay as they are.
abbrev pub IsRefused : {A : Type 0} → Database → M A → Type 0
IsRefused start m = Hoare (λ d. d ≡ start) m (λ _ _. ⊥) (λ d. d ≡ start)

module _ (start : Database) (p : OperationRow → Bool) (absent : find_operation p start ≡ none) where
  idle_update :
      (set : ℕ → OperationRow → OperationRow) → update_operations p set start ≡ some (0, start)
  unfolding update_operations find_operation
  idle_update set =
      let h = none_selected p (set start.now) start.operations absent in
      λ i. some (h.1 i, record start { operations = h.0 i })

  pub idle_returning :
      (set : ℕ → OperationRow → OperationRow) → update_returning p set start ≡ some (none, start)
  unfolding update_returning find_operation
  idle_returning set =
      let h = none_selected p (set start.now) start.operations absent in
      λ i. some (Option.map (set start.now) (absent i), record start { operations = h.0 i })

  -- An UPDATE that strikes no row, answered by 409.
  update-IsRefused :
      {A : Type 0} (set : ℕ → OperationRow → OperationRow) (message : String) (rest : M A)
      → IsRefused start (
          exec (update_operations p set) >>= λ rows.
          raise_if (nat_eq rows 0) (http 409 message) >> rest)
  update-IsRefused set message rest =
      exec_at start _ _ 0 start (idle_update set) refl refl (stop_guard _ _ _ refl (λ d h. h))

  -- A SELECT that finds no row, answered by 409.
  read-IsRefused :
      {A : Type 0} (message : String) (rest : OperationRow → M A)
      → IsRefused start
          (query (find_operation p) >>= λ found. lift (or_http 409 message found) >>= rest)
  unfolding or_http
  read-IsRefused message rest = query_at start _ _ refl (rw absent (lift_err _ _ (λ d h. h)))

module _ (json : Json) (start : Database) (headers : Headers) (id : String) where
  -- The worker does not hold the lease of the operation.
  abbrev pub Lacks : String → Type 0
  Lacks worker = find_operation (is_leased id worker) start ≡ none

  Lacks-in_tenant :
      (worker : String)
      → Lacks worker
      → find_operation (is_leased_in headers.tenant id worker) start ≡ none
  unfolding find_operation is_leased_in
  Lacks-in_tenant worker =
      first_where-and (of_tenant headers.tenant) (is_leased id worker) start.operations

  heartbeat-IsRefused :
      (worker : String)
      → Lacks worker
      → IsRefused start (heartbeat id worker) × IsRefused start (worker_heartbeat headers id worker)
  unfolding heartbeat worker_heartbeat changed
  heartbeat-IsRefused worker absent = (
    update-IsRefused start (is_leased id worker) absent _ _ _,
    update-IsRefused start (is_leased_in headers.tenant id worker) (Lacks-in_tenant worker absent) _
        _ _,
  )

  complete-IsRefused :
      (done : CompleteInput)
      → Lacks done.worker_id
      → IsRefused start (complete id (some done))
        × IsRefused start (worker_complete json headers id (some done))
  unfolding complete worker_complete bound changed or_http
  complete-IsRefused done absent = (
    lift_ok _ _ (update-IsRefused start (is_leased id done.worker_id) absent _ _ _),
    lift_ok _ _ (
        Hoare-bind _ _
          (transaction_at {Q = λ _ _. ⊥} start _ refl (
            exec_at start _ _ none start
              (idle_returning start _ (Lacks-in_tenant done.worker_id absent) _) tt tt
              (lift_err _ _ (λ d h. tt))))
          (λ _. record { at = λ w h. absurd h })),
  )

  fail-IsRefused :
      (failed : FailInput)
      → Lacks failed.worker_id
      → IsRefused start (fail id (some failed))
        × IsRefused start (worker_fail json headers id (some failed))
  unfolding fail worker_fail bound
  fail-IsRefused failed absent = (
    lift_ok _ _ (read-IsRefused start (is_leased id failed.worker_id) absent _ _),
    lift_ok _ _ (
        read-IsRefused start (is_leased_in headers.tenant id failed.worker_id)
          (Lacks-in_tenant failed.worker_id absent) _ _),
  )

  -- Without the lease no worker can extend, complete or fail an operation, over the internal
  -- routes or a private worker's, whatever the report says and whichever calls fail: the answer
  -- is an error and no table changes.
  pub report-IsRefused :
      (worker : String) (done : CompleteInput) (failed : FailInput)
      → Lacks worker
      → Lacks done.worker_id
      → Lacks failed.worker_id
      → (IsRefused start (heartbeat id worker)
          × IsRefused start (worker_heartbeat headers id worker))
        × ((IsRefused start (complete id (some done))
              × IsRefused start (worker_complete json headers id (some done)))
            × (IsRefused start (fail id (some failed))
                × IsRefused start (worker_fail json headers id (some failed))))
  report-IsRefused worker done failed h k l =
      (heartbeat-IsRefused worker h, (complete-IsRefused done k, fail-IsRefused failed l))
