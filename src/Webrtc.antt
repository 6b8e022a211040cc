-- ===== src/Webrtc.antt =====
-- crates/caml-webrtc/src/lib.rs: the sink that sends encoded packets over RTP. Packetize is what the
-- sender does with one packet, Sink the queue between the pipeline and the sender, Factory the
-- settings.
pub mod Packetize
pub mod Sink
pub mod Factory
