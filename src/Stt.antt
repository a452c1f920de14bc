-- ===== src/Stt.antt =====
-- internal/sttjob/manager.go: transcription jobs in the background.
pub mod Jobs
pub mod Gates
pub mod Final
mod Runs
