-- ===== src/Rrdd.antt =====
-- ocaml/xcp-rrdd: the file through which a plugin hands its data to the daemon.
pub mod Types
pub mod Parse
pub mod Reader
pub mod Described
pub mod RoundTrip
pub mod Updated
pub mod Collecting
pub mod Layout
pub mod Reading
pub mod Sources
pub mod Writer
