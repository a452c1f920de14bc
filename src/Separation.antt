-- ===== src/Separation.antt =====
-- internal/separationjob/manager.go: jobs that split audio into stems and keep them in a store.
pub mod Types
pub mod Separate
pub mod Jobs
pub mod Stored
pub mod Stems
mod Runs
