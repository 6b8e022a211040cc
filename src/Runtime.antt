-- ===== src/Runtime.antt =====
-- crates/caml-core/src/runtime.rs: the buffer pool, the media, the loop of a pipeline and
-- the supervisor.
pub mod Pool
pub mod Media
pub mod Loop
pub mod Supervisor
