-- ===== src/Platform.antt =====
-- internal/platform: what the services share.
pub mod Http
pub mod Guards
pub mod Config
mod Tests
