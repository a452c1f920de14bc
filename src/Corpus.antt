-- ===== src/Corpus.antt =====
-- internal/sttcorpus/sttcorpus.go: a corpus of recordings with their transcripts.
pub mod Types
pub mod Record
pub mod Files
pub mod Windows
pub mod Kept
pub mod Rows
mod Runs
