-- ===== src/Transcription.antt =====
-- transcriptions of internal/server/server.go, with recordTranscribedUpload and streamTranscription.
pub mod Types
pub mod Prepare
pub mod Handle
pub mod Inside
pub mod Served
mod Runs
