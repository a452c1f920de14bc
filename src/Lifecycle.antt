-- ===== src/Lifecycle.antt =====
-- internal/lifecycle/lifecycle.go: sidecar processes kept resident within a VRAM budget.
pub mod Types
pub mod Room
pub mod Start
pub mod Calls
pub mod Spare
pub mod Oldest
pub mod Retry
pub mod Budget
pub mod Moves
pub mod Holding
pub mod Ensures
pub mod Guard
mod Runs
