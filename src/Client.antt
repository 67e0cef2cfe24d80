-- ===== src/Client.antt =====
-- The client half of the crate: what src/client holds.
pub mod Configuration
pub mod Calls
pub mod Handles
pub mod Context
pub mod Api
