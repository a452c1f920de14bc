-- ===== src/Analysis.antt =====
-- internal/analysisjob/manager.go: who speaks when and what, as jobs.
pub mod Types
pub mod Merge
pub mod Samples
pub mod Timeline
pub mod Share
pub mod Effects
pub mod Jobs
pub mod Transcribe
pub mod Analyze
pub mod Serial
pub mod Ensures
pub mod Report
pub mod Submit
mod Runs
