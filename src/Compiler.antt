-- ===== src/Compiler.antt =====
-- crates/caml-core/src/compiler.rs: from a manifest to the graph of compiled pipelines.
pub mod Types
pub mod Host
pub mod Overlay
pub mod Resolve
pub mod Pipeline
pub mod Graph
