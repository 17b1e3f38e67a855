-- ===== src/Manager.antt =====
-- The NBD device manager.
pub mod System
pub mod Client
pub mod Ends
pub mod Devices
pub mod Disconnect
