-- ===== src/Probes.antt =====
-- internal/probes.
pub mod JobName
pub mod Job
pub mod Escape
pub mod Sanitize
pub mod Sql
pub mod Postgres
pub mod MySql
pub mod Tls
pub mod Http
pub mod Factory
pub mod FailureLogs
