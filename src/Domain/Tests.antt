-- ===== src/Domain/Tests.antt =====
-- Runs of internal/domain/state.go at fixed inputs.
use sde_thp.Prelude.{◌≡◌, ◌≤◌, ◌<◌, ◌↔◌, refl, true, false, not, pos, negsuc, arith, ◌*◌}
use sde_thp.Domain.{
  OperationStatus, cancelled, retrying, can_transition, is_terminal, second, retry_delay,
}
use sde_thp.Domain.Lifecycle.{is_terminal_iff, can_transition-cancelled}
use sde_thp.Domain.Backoff.{retry_delay_bounds, retry_delay-suc}

retry_delay_negative : retry_delay (negsuc 1) ≡ 2 * second
unfolding retry_delay
retry_delay_negative = refl

is_terminal_iff_example :
    (is_terminal cancelled ≡ true) ↔ ((t : OperationStatus) → can_transition cancelled t ≡ false)
is_terminal_iff_example = is_terminal_iff cancelled

can_transition-cancelled_example : can_transition retrying cancelled ≡ not (is_terminal retrying)
can_transition-cancelled_example = can_transition-cancelled retrying

retry_delay_bounds_example :
    (2 * second ≤ retry_delay (negsuc 3)) × (retry_delay (negsuc 3) ≤ 64 * second)
retry_delay_bounds_example = retry_delay_bounds (negsuc 3)

retry_delay-suc_example :
    (3 < 6 → retry_delay (pos 4) ≡ 2 * retry_delay (pos 3))
    × (6 ≤ 3 → retry_delay (pos 4) ≡ retry_delay (pos 3))
retry_delay-suc_example = retry_delay-suc 3 (omega arith)
