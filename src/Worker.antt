-- ===== src/Worker.antt =====
-- The two worker processes: cmd/worker (the CLOUD worker, fed by a Redis stream) and
-- cmd/enterprise-worker (the outbound agent, fed by the gateway). What they do to the outside is
-- a list of actions in order; what they hear from it is an argument.
pub mod Outside
pub mod Providers
pub mod Cloud
pub mod Agent
pub mod Verdict
pub mod Leased
pub mod Routing
pub mod Agreement
mod Tests
