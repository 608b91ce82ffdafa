-- ===== src/Control.antt =====
-- controller/models.py and controller/services.py: the database of the control room and its
-- transactions.
pub mod Text
pub mod Channels
pub mod Model
pub mod Resolve
pub mod Commands
pub mod Accounts
pub mod Selections
pub mod Presets
pub mod Launch
pub mod Normalized
pub mod Consistent
pub mod KeepsQueue
pub mod KeepsTables
pub mod KeepsPresets
pub mod KeepsAccounts
pub mod Calls
pub mod Starting
pub mod Coalescing
pub mod Serving
pub mod Stopping
pub mod Reference
