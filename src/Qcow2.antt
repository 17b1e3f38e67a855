-- ===== src/Qcow2.antt =====
-- The qcow2 writer.
pub mod Bitmap
pub mod Interval
pub mod Alloc
pub mod Layout
pub mod Write
