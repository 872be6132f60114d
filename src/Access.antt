-- ===== src/Access.antt =====
-- cmd/access/main.go: the tenants, their users and their keys.
pub mod Reply
pub mod Statements
pub mod Login
pub mod Sessions
pub mod Tenants
pub mod Bootstrap
pub mod Keys
pub mod Denials
pub mod Tenancy
pub mod Seeding
pub mod Samples
mod Tests
