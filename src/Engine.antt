-- ===== src/Engine.antt =====
-- controller/twitch_miner/engine.py: the polling loop that watches one configured channel.
pub mod State
pub mod Channels
pub mod Metadata
pub mod Claims
pub mod Selection
pub mod Progress
pub mod Step
pub mod Rules
pub mod Refreshing
pub mod Confined
pub mod Priority
pub mod Safety
pub mod Raised
pub mod Verdict
pub mod Memory
