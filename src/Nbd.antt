-- ===== src/Nbd.antt =====
-- The NBD client of vhd-tool.
pub mod Types
pub mod Socket
pub mod Options
pub mod Handshake
pub mod Replies
pub mod Results
pub mod Commands
pub mod Progress
pub mod Extents
