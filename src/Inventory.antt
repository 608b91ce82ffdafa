-- ===== src/Inventory.antt =====
-- controller/twitch_miner/inventory.py: the campaign inventory and timed drop eligibility.
pub mod Merge
pub mod Campaign
pub mod MergeLaws
pub mod Popped
pub mod Ordered
pub mod DropMerge
pub mod Parse
pub mod WellFormed
pub mod Conditions
pub mod Eligibility
