-- ===== src/Queue.antt =====
-- internal/queue/queue.go: synthesis jobs scheduled per provider.
pub mod Types
pub mod Timers
pub mod Jobs
pub mod Resources
pub mod Worker
pub mod Idle
pub mod System
pub mod Effect
pub mod Exclusion
pub mod Reach
pub mod Counters
pub mod Ownership
pub mod Balance
pub mod Safety
pub mod Delivery
pub mod Calls
pub mod Placement
pub mod Privacy
pub mod Handoff
mod Runs
