-- ===== src/Usage.antt =====
-- cmd/usage/main.go: the ledger of charged units, and the webhooks of the tenants.
pub mod Reply
pub mod Statements
pub mod Record
pub mod Report
pub mod Webhooks
pub mod Deliveries
pub mod Hub
pub mod Charging
pub mod Calls
pub mod Refusals
pub mod Once
pub mod Sending
pub mod Subscribers
pub mod Removal
pub mod Deletion
mod Tests
