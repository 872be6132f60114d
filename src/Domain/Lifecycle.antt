-- ===== src/Domain/Lifecycle.antt =====
-- The transition table of internal/domain/state.go as a graph.
use sde_thp.Prelude.{◌≡◌, refl, ◌↔◌, ◌≢◌, true, false, not, arith}
use sde_thp.Domain.{
  OperationStatus, pending, queued, running, succeeded, failed, retrying, dead_lettered, cancelled,
  can_transition, is_terminal,
}

-- A status is terminal exactly when the table has no transition out of it.
pub is_terminal_iff :
    (s : OperationStatus)
    → (is_terminal s ≡ true) ↔ ((t : OperationStatus) → can_transition s t ≡ false)
unfolding is_terminal can_transition
is_terminal_iff s = (λ h t. ground arith, λ h. ground (arith, h cancelled))

-- A status can be cancelled exactly when it is not terminal.
pub can_transition-cancelled :
    (s : OperationStatus) → can_transition s cancelled ≡ not (is_terminal s)
unfolding is_terminal can_transition
can_transition-cancelled s = ground arith

infix 40 ◌⟶*◌
-- Some number of transitions of the table.
pub data ◌⟶*◌ : OperationStatus → OperationStatus → Type 0 where
  here : {s : OperationStatus} → s ⟶* s
  then : {s t u : OperationStatus} → can_transition s t ≡ true → t ⟶* u → s ⟶* u

pub ⟶*_trans : {s t u : OperationStatus} → s ⟶* t → t ⟶* u → s ⟶* u
⟶*_trans here k = k
⟶*_trans (then e h) k = then e (⟶*_trans h k)

pub ⟶*_step : {s t : OperationStatus} → can_transition s t ≡ true → s ⟶* t
⟶*_step e = then e here

-- Nothing leaves a terminal status, by any number of transitions.
pub ⟶*-is_terminal : {s t : OperationStatus} → is_terminal s ≡ true → s ⟶* t → s ≡ t
⟶*-is_terminal h here = refl
⟶*-is_terminal {s} h (then {t = u} e r) = ground (arith, (is_terminal_iff s).0 h u)

no_entry : (s t : OperationStatus) → can_transition s t ≡ true → t ≢ pending
unfolding can_transition
no_entry s t h e = ground arith

-- Nothing returns to `pending`.
pub ⟶*-pending : {s t : OperationStatus} → s ⟶* t → t ≡ pending → s ≡ pending
⟶*-pending here e = e
⟶*-pending {s} (then {t = u} c r) e = absurd (no_entry s u c (⟶*-pending r e))

-- Every status that is not terminal can still succeed.
pub ⟶*-succeeded : (s : OperationStatus) → is_terminal s ≡ false → s ⟶* succeeded
unfolding is_terminal can_transition
⟶*-succeeded pending h = then {t = queued} refl (then {t = running} refl (⟶*_step refl))
⟶*-succeeded queued h = then {t = running} refl (⟶*_step refl)
⟶*-succeeded running h = ⟶*_step refl
⟶*-succeeded failed h = then {t = retrying} refl (then {t = running} refl (⟶*_step refl))
⟶*-succeeded retrying h = then {t = running} refl (⟶*_step refl)
⟶*-succeeded succeeded h = here
⟶*-succeeded dead_lettered h = cc
⟶*-succeeded cancelled h = cc
