-- ===== src/Examples.antt =====
-- Concrete inputs on which the theorems apply.
pub mod Stores
pub mod Holders
pub mod LuaStates
pub mod Guards
pub mod Tables
pub mod Objects
pub mod Hooks
pub mod AsyncDefines
pub mod Signals
pub mod Accounting
pub mod Startup
pub mod States
pub mod Deadline
pub mod Sync
pub mod Monitor
pub mod Utilities
