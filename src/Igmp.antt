-- ===== src/Igmp.antt =====
-- ocaml/xenopsd/scripts/igmp_query_injector.py: IGMP queries for virtual interfaces that get connected.
pub mod Injector
pub mod Watches
pub mod Phases
pub mod Once
