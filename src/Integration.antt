-- ===== src/Integration.antt =====
-- internal/integration.
pub mod ArgoCd
