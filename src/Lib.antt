-- ===== src/Lib.antt =====
-- caml: a media pipeline compiler and runtime, crates/caml-core, with parts of crates/caml-ffmpeg,
-- crates/caml-webrtc and crates/caml-linux-media.
--
-- A YAML manifest names pipelines, each from a camera to outputs. The frontend reads and validates
-- it, the compiler turns it into a graph with a resource plan, checked against what probes report of
-- the host, and the runtime moves media through a pool of shared buffers: a loop for each pipeline
-- pulls payloads from its source through transforms into its sink, under a supervisor that restarts it.
-- The WebRTC sink queues packets for a sender task; FFmpeg's sources bring H.264 into Annex B.
--
--   Text                         strings: lists of code points, and the methods of str in use
--   Units                        crates/caml-core/src/units.rs: ByteSize, Bitrate, parse_duration
--   Frontend, Frontend/Validate  crates/caml-core/src/frontend.rs, with ManifestError of error.rs
--   Compiler/Types               crates/caml-core/src/compiler.rs, the types, with CompileError
--   Compiler/Host                compiler.rs: HostCapabilities::merge, the probes, validate_for,
--                                validate_host_target
--   Compiler/Overlay             compiler.rs: expand_overlay_template, compile_overlay_profile
--   Compiler/Resolve             compiler.rs: resolve_*, capability_requirements_for,
--                                recovery_policy_for
--   Compiler/Pipeline            compiler.rs: validate_pipeline, compile_pipeline
--   Compiler/Graph               compiler.rs: compile_internal and the entry points of CamlCompiler
--   Runtime/Pool                 crates/caml-core/src/runtime.rs: BufferPool, MediaBuffer,
--                                PooledBuffer; Pool/World has the sequences of a program's actions
--   Runtime/Media                runtime.rs: MediaStorage, MediaPayload, RecordingSink, DropPolicy,
--                                with RuntimeError of error.rs
--   Runtime/Loop                 runtime.rs: run_pipeline_once, run_pipeline_loop
--   Runtime/Supervisor           runtime.rs: supervise_pipeline_task
--   Ffmpeg/H264                  crates/caml-ffmpeg/src/h264.rs
--   Ffmpeg/Checks, Worker        crates/caml-ffmpeg/src/worker.rs: worker_spec_for_pipeline, with the checks
--                                it calls in transcode.rs, device.rs and hwaccel.rs
--   Webrtc/Sink                  crates/caml-webrtc/src/lib.rs: the shared state of WebRtcSink and its
--                                sender; Sink/Machine has the steps of both
--   Webrtc/Packetize             the same file: process_packet
--   Webrtc/Factory               the same file: build_sink, new_configured
--   Linux/Probe                  crates/caml-linux-media/src/lib.rs: LinuxCapabilityProbe
--   Base                         lists, options, results and tests that the parts share
--
-- Definitions have the names of the source, in snake case; `from_str` is parse_byte_size and
-- parse_bitrate, `fmt` is show_byte_size and show_bitrate, and the two `drop` are drop_media and
-- drop_pooled. A `Result` is a Result, `?` a do block, a `for` loop a recursion on the list, and a
-- function body that is long in the source is a chain of functions with its parts.
--
-- Numbers. The unsigned integers are natural numbers; checked_mul, saturating_mul and saturating_add
-- are written out with the bound 2 ^ 64 - 1, and the reference count of a slot wraps at 2 ^ 64.
-- Counts and lengths in memory have no bound. A Duration is its nanoseconds. The f32
-- backoff_multiplier is a whole number: the code gives it 2.0 and 1.0 only. What powi and mul_f32 make
-- of it is the parameter Scale of Runtime/Supervisor, which may round, and may answer with a panic,
-- which ends the task; where a theorem needs that small powers of two are exact, it says so.
--
-- Parameters. Url::parse and the YAML parser are functions that a definition takes; so is a
-- capability probe, and the address that an allocation returns. A HashMap is an association list
-- whose insert replaces, and a HashSet is a list. The packetizer and the writer of RTP packets, the hash
-- behind stable_ssrc, and the stages of a pipeline are functions on a state. The files of a Linux host
-- are the record Files of what std::fs and std::path answer, and those an overlay names, with what
-- FFmpeg finds in them, the record Assets.
--
-- Loops are structural, but for two of Ffmpeg/H264, which run on the length of the payload and one
-- more as fuel and answer `none` without it: their cursor grows in each round, so that it is enough.
--
-- Concurrency. Each method of the pool and of its handles holds the pool's lock around what it does
-- to the pool, so an interleaving of threads is a sequence of actions.
--
-- The supervisor's loop runs over a list of rounds, each what the world does in one turn: the answer
-- of build_pipeline, how run_pipeline_once ends and how long it took, and the cancellations. The loop of
-- a pipeline runs over a list of ticks, each what its `select!` meets. The WebRTC sink and its sender
-- share a state behind a lock: what one of them does under the lock is one step, and a run is any
-- sequence of steps of both; a wait for a notification may end at any time.
--
-- Not modelled: serde's deserialization, Display of ManifestError and CompileError, the fan-out router
-- and the handle of runtime.rs, its mock stages, the trait of metrics.rs, the rest of the crate for
-- FFmpeg, the libcamera source and camera modules of the crate for Linux media, and src/, which are
-- mostly I/O through bindings.
mod Base
pub mod Text
pub mod Units
pub mod Frontend
pub mod Compiler
pub mod Runtime
pub mod Ffmpeg
pub mod Webrtc
pub mod Linux
