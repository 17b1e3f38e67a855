-- ===== src/Usb.antt =====
-- The scan for USB devices that may be passed through.
pub mod Types
pub mod Policy
pub mod Scan
