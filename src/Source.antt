-- ===== src/Source.antt =====
-- internal/source.
pub mod Provider
pub mod Revision
