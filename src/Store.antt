-- ===== src/Store.antt =====
-- internal/store/store.go: the audio files on disk.
pub mod Files
pub mod Names
pub mod Refines
mod Runs
