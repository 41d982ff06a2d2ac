-- ===== src/Service.antt =====
-- internal/service: the orchestration service. The children follow service.go part by part.
pub mod State
pub mod Logs
pub mod Tasks
pub mod Runs
pub mod Budget
pub mod Start
pub mod Parallel
pub mod Leases
pub mod Execution
pub mod Finish
pub mod Invariant
pub mod Dispatch
pub mod Overrides
pub mod Conflicts
pub mod Locks
pub mod Machine
pub mod Concurrency
pub mod Contracts
pub mod Planning
pub mod Snapshots
pub mod Rollback
