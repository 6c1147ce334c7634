-- ===== src/Controller.antt =====
-- internal/controller/dynamicsecretpolicy_controller.go: the reconciler of a DynamicSecretPolicy.
pub mod Machine
pub mod Materialize
pub mod Endpoint
pub mod Validation
pub mod Status
pub mod Gc
pub mod Watch
pub mod Provision
pub mod Settle
pub mod Rotation
