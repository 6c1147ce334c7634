-- ===== src/Azure.antt =====
-- internal/azure, but its listener, which is in Events.
pub mod Auth
pub mod KeyVault
