-- ===== src/Extauth.antt =====
-- The plugin that configures a host for Active Directory.
pub mod KeyValue
pub mod Subjects
pub mod Files
pub mod Hooks
