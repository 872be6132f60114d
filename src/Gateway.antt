-- ===== src/Gateway.antt =====
-- cmd/gateway/main.go: the entrance of the system.
pub mod Requests
pub mod Limits
pub mod Proxy
pub mod Routes
pub mod Assistant
pub mod Trust
pub mod Window
pub mod Session
mod Tests
