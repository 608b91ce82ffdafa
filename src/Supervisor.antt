-- ===== src/Supervisor.antt =====
-- controller/miner_supervisor.py: the worker that owns the miner processes, from its lease and its queue
-- to its startup, rounds and shutdown.
pub mod Lease
pub mod Order
pub mod Claims
pub mod State
pub mod Process
pub mod Recovery
pub mod Exit
pub mod Stop
pub mod Spawn
pub mod Start
pub mod Health
pub mod Rounds
pub mod Due
pub mod Refresh
pub mod Execute
pub mod Startup
pub mod Lifetime
mod Children
pub mod Safety
pub mod Schedule
pub mod Pending
pub mod Rollback
pub mod Taking
pub mod Acquire
pub mod Wire
pub mod Accepted
pub mod Delivered
pub mod Phases
pub mod Settings
pub mod Timely
