-- ===== src/Ffmpeg.antt =====
-- crates/caml-ffmpeg, the part that needs no binding: H264 is src/h264.rs, Checks and Worker what a worker is told.
pub mod H264
pub mod Checks
pub mod Worker
