-- ===== src/Server.antt =====
-- internal/server/server.go: the construction of the HTTP server, its routing of speech requests,
-- and the handlers of speech jobs.
pub mod Text
pub mod Types
pub mod Setup
pub mod Route
pub mod Known
pub mod Accepted
pub mod Jobs
pub mod Results
pub mod Created
pub mod Streamed
pub mod Form
pub mod Decoded
pub mod Auth
pub mod Keys
pub mod Runs
mod JobRuns
mod FormRuns
