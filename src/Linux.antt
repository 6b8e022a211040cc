-- ===== src/Linux.antt =====
-- crates/caml-linux-media/src/lib.rs: what a Linux host can do.
pub mod Probe
