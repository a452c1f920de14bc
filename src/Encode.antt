-- ===== src/Encode.antt =====
-- internal/encode/normalize.go: uploads brought to the WAV format of a provider.
pub mod Wav16
pub mod Matches
pub mod Normalize
pub mod Again
mod Runs
