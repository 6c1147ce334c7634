-- ===== src/Canary.antt =====
-- internal/canary.
pub mod Template
pub mod Deployment
pub mod Endpoint
pub mod NetworkPolicy
pub mod Cleanup
pub mod Agreement
