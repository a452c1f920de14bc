-- ===== src/Wav.antt =====
-- internal/pcmwav/pcmwav.go: mono PCM16 WAV data, written and read.
pub mod Bytes
pub mod Parse
pub mod Encode
pub mod RoundTrip
pub mod Fuel
mod Runs
