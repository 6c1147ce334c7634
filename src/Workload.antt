-- ===== src/Workload.antt =====
-- internal/workload: the naming of revision secrets and the mutation of pod templates.
pub mod Names
pub mod Mutate
pub mod Rotation
pub mod Adapter
