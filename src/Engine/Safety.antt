-- ===== src/Engine/Safety.antt =====
-- Every operation of controller/twitch_miner/engine.py keeps the engine confined.
mod Rules
pub mod Claims
pub mod Channels
pub mod Metadata
pub mod Step
