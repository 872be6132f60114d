-- ===== src/Operations/Invariant/Rows.antt =====
-- Every SET clause of cmd/operations/main.go, under its WHERE clause, keeps a row in order.
use sde_thp.Prelude.{ℕ, ◌≡◌, ◌<◌, Bool, true, false, String, Option, arith, if◌then◌else◌}
use sde_thp.Domain.{dead_lettered, retrying}
use sde_thp.Database.{OperationRow}
use sde_thp.Operations.Rows.{
  enqueueable, cancellable, redrivable, claimable, is_running, set_queued, set_cancelled,
  set_redriven, set_running, set_extended, set_succeeded, set_failed, set_expired,
}
use sde_thp.Operations.Invariant.{IsRowValid}

module _ (now : ℕ) (o : OperationRow) (h : IsRowValid o) where
  pub set_queued-IsRowValid : enqueueable o.status ≡ true → IsRowValid (set_queued now o)
  unfolding set_queued enqueueable is_running
  set_queued-IsRowValid e = ground arith

  pub set_cancelled-IsRowValid : cancellable o.status ≡ true → IsRowValid (set_cancelled now o)
  unfolding set_cancelled cancellable is_running
  set_cancelled-IsRowValid e = ground arith

  pub set_redriven-IsRowValid : redrivable o.status ≡ true → IsRowValid (set_redriven now o)
  unfolding set_redriven redrivable is_running
  set_redriven-IsRowValid e = ground arith

  pub set_running-IsRowValid :
      (worker : String) (n : ℕ)
      → claimable o.status ≡ true
      → IsRowValid (set_running worker n now o)
  unfolding set_running claimable is_running
  set_running-IsRowValid worker n e = ground arith

  pub set_extended-IsRowValid :
      (n : ℕ) → is_running o.status ≡ true → IsRowValid (set_extended n now o)
  unfolding set_extended is_running
  set_extended-IsRowValid n e = ground arith

  pub set_succeeded-IsRowValid :
      (result : Option String) (explanation : String)
      → is_running o.status ≡ true
      → IsRowValid (set_succeeded result explanation now o)
  unfolding set_succeeded is_running
  set_succeeded-IsRowValid result explanation e = ground arith

  -- A failure may send a row back to wait only if an attempt is left.
  pub set_failed-IsRowValid :
      (b : Bool) (code message explanation : String)
      → is_running o.status ≡ true
      → (b ≡ true → o.attempt < o.max_attempts)
      → IsRowValid
          (set_failed (if b then retrying else dead_lettered) code message explanation now o)
  unfolding set_failed is_running
  set_failed-IsRowValid true code message explanation e k = ground arith
  set_failed-IsRowValid false code message explanation e k = ground arith

  pub set_expired-IsRowValid :
      (b : Bool) (message : String)
      → is_running o.status ≡ true
      → (b ≡ true → o.attempt < o.max_attempts)
      → IsRowValid (set_expired (if b then retrying else dead_lettered) message now o)
  unfolding set_expired is_running
  set_expired-IsRowValid true message e k = ground arith
  set_expired-IsRowValid false message e k = ground arith
