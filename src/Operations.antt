-- ===== src/Operations.antt =====
-- cmd/operations/main.go.
pub mod Json
pub mod Rows
pub mod Statements
pub mod Reply
pub mod Create
pub mod Enqueue
pub mod Read
pub mod Cancel
pub mod Claim
pub mod Finish
pub mod Poll
pub mod Reaper
pub mod Outbox
pub mod Invariant
pub mod History
pub mod Safety
pub mod Service
pub mod Leases
pub mod Isolation
pub mod Replay
pub mod Atomic
pub mod Claiming
pub mod Delivery
pub mod Draining
pub mod Refusing
pub mod Admission
pub mod Failing
pub mod Samples
mod Tests
