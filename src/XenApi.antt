-- ===== src/XenApi.antt =====
-- python3/examples/XenAPI/XenAPI.py: the session of a client of xapi.
pub mod Session
