-- ===== src/Tests.antt =====
-- Runs of the definitions at concrete inputs, and the theorems at inputs that meet their hypotheses.
mod Control
mod Inventory
mod Supervisor
mod Engine
mod Worker
mod Wire
mod Settings
