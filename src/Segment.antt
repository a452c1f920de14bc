-- ===== src/Segment.antt =====
-- internal/segment/segment.go: sentences packed into chunks of bounded length.
pub mod Text
pub mod Pack
pub mod Helper
pub mod Fields
pub mod Words
pub mod Caps
pub mod Endings
mod Runs
