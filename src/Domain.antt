-- ===== src/Domain.antt =====
-- internal/domain/state.go: the statuses of an operation, the transition table and the retry delay.
pub mod Lifecycle
pub mod Backoff
mod Tests
use sde_thp.Prelude.{
  ℕ, ◌*◌, ◌^◌, Bool, true, false, ◌||◌, List, [], ◌∷◌, String, ℤ, pos, pos_part, ltb_ℤ, any,
  if◌then◌else◌,
}

pub data OperationStatus : Type 0 where
  pending queued running succeeded failed retrying dead_lettered cancelled : OperationStatus

-- The text of a status, as the database and the replies carry it.
unfoldable pub status_text : OperationStatus → String
status_text pending = "PENDING"
status_text queued = "QUEUED"
status_text running = "RUNNING"
status_text succeeded = "SUCCEEDED"
status_text failed = "FAILED"
status_text retrying = "RETRYING"
status_text dead_lettered = "DEAD_LETTERED"
status_text cancelled = "CANCELLED"

-- `==` of two statuses; their texts are all different.
unfoldable pub status_eq : OperationStatus → OperationStatus → Bool
status_eq pending pending = true
status_eq queued queued = true
status_eq running running = true
status_eq succeeded succeeded = true
status_eq failed failed = true
status_eq retrying retrying = true
status_eq dead_lettered dead_lettered = true
status_eq cancelled cancelled = true
status_eq _ _ = false

-- The keys of `transitions[from]`; a status with no entry has none.
transitions : OperationStatus → List OperationStatus
transitions pending = queued ∷ cancelled ∷ []
transitions queued = running ∷ cancelled ∷ []
transitions running = succeeded ∷ failed ∷ retrying ∷ dead_lettered ∷ cancelled ∷ []
transitions failed = retrying ∷ dead_lettered ∷ cancelled ∷ []
transitions retrying = queued ∷ running ∷ dead_lettered ∷ cancelled ∷ []
transitions _ = []

unfoldable pub can_transition : OperationStatus → OperationStatus → Bool
unfolding transitions status_eq
can_transition from to = any (status_eq to) (transitions from)

unfoldable pub is_terminal : OperationStatus → Bool
unfolding status_eq
is_terminal status =
    status_eq status succeeded || status_eq status dead_lettered || status_eq status cancelled

-- `time.Second`, in the nanoseconds of a `time.Duration`.
abbrev pub second : ℕ
second = 1000000000

unfoldable pub retry_delay : ℤ → ℕ
retry_delay attempt =
    let at_least = if ltb_ℤ attempt (pos 1) then pos 1 else attempt in
    let at_most = if ltb_ℤ (pos 6) at_least then pos 6 else at_least in
    2 ^ pos_part at_most * second
