-- ===== src/Controller/Rotation/Progress.antt =====
-- How a rotation goes on from round to round of `Reconcile`
-- (internal/controller/dynamicsecretpolicy_controller.go).
pub mod Phases
pub mod Rounds
pub mod Completion
