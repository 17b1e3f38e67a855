-- ===== src/Tests.antt =====
-- The theorems at concrete inputs.
pub mod Nbd
pub mod Others
pub mod Scan
pub mod Extauth
pub mod Extents
pub mod Igmp
pub mod Rrdd
pub mod XenApi
