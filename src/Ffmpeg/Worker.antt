-- ===== src/Ffmpeg/Worker.antt =====
-- crates/caml-ffmpeg: what a worker is told to do for a pipeline, worker_spec_for_pipeline of
-- src/worker.rs with the checks it calls in src/hwaccel.rs, src/transcode.rs and src/device.rs.
pub mod Succeeds
pub mod Servable
pub mod Accepts
mod Tests
use Prim.Native.String.{String}
use caml.Base.Int.{ℤ, pos, negsuc}
use caml.Base.{
  ℕ, suc, ◌/◌, Bool, true, false, not, ◌||◌, ◌&&◌, ◌++◌, Option, none, some, unwrap_or, ◌==◌,
  if◌then◌else◌, Result, ok, err, ◌>>=◌, ◌>>◌, reject_if, ok_or, try_each, any,
}
use caml.Compiler.Types.{
  CompiledPipeline, CompiledNetworkProfile, CompiledProcessingProfile, CompiledOverlayProfile,
  CompiledOverlayLayer, CompiledWatermarkOverlay, ResolvedInputBackend, CodecPath,
}
use caml.Ffmpeg.Checks.{
  Assets, default_draw_text_font_path, about, map_err, Rotation, unrotated, clockwise, half_turn,
  counter_clockwise, show_i32, unsupported_rotation, rotation_of, normalize_rotation, uses_text,
  best_video_stream, about_watermark, validate_watermark_asset, validate_layer,
  validate_overlay_runtime,
}
use caml.Frontend.{InputType, StreamStrategy, Transport}
use caml.Frontend
use caml.Runtime.Media.{RuntimeError}
use caml.Text.{Text, codes, trim, to_ascii_lowercase, text_eq, show_u64}
use caml.Units.{Duration, from_millis}

pub data InputSpec : Type 0 where
  rtsp : (transport : Transport) → InputSpec
  device : (backend : ResolvedInputBackend) → (frame_rate : Option ℕ) → InputSpec

pub data TranscodeBackend : Type 0 where
  software pi4_hardware_encode pi5_hardware_decode : TranscodeBackend

pub data WorkerMode : Type 0 where
  passthrough : (default_frame_duration : Duration) → WorkerMode
  transcode :
      (processing : CompiledProcessingProfile)
      → (overlay : Option CompiledOverlayProfile) → (backend : TranscodeBackend)
      → (default_frame_duration : Duration) → WorkerMode

pub record WorkerSpec : Type 0 where
  pub pipeline_id : Text
  pub input : Text
  pub input_spec : InputSpec
  pub mode : WorkerMode

abbrev pub default_frame_duration_ns : Duration
default_frame_duration_ns = from_millis 33

unfoldable pub adapter : CompiledPipeline → Text → RuntimeError
unfolding about
adapter p rest = RuntimeError.adapter (about p rest)

unfoldable pub frame_duration_from_processing : CompiledProcessingProfile → Option Duration
frame_duration_from_processing q =
    if q.frame_rate == 0 then none else some (1_000_000_000 / q.frame_rate)

unfoldable pub transcode_backend_for_pipeline :
    CompiledPipeline → CodecPath → Result RuntimeError TranscodeBackend
unfolding adapter
transcode_backend_for_pipeline p CodecPath.software_transcode = ok software
transcode_backend_for_pipeline p CodecPath.hardware_transcode = ok pi4_hardware_encode
transcode_backend_for_pipeline p CodecPath.hardware_decode = ok pi5_hardware_decode
transcode_backend_for_pipeline p CodecPath.passthrough =
    err (adapter p (codes " does not have a transcode codec path"))

-- `validate_transcode_support`.
module _ (p : CompiledPipeline) where
  abbrev pub encoder_unfit : CompiledProcessingProfile → Text → RuntimeError
  encoder_unfit q rest = adapter p (codes " requested encoder '" ++ q.encoder ++ codes "'" ++ rest)

  unfoldable pub validate_encoder :
      CompiledProcessingProfile → Text → CodecPath → Result RuntimeError (Unit {0})
  unfolding adapter text_eq
  validate_encoder q encoder CodecPath.hardware_transcode =
      reject_if (not (text_eq encoder (codes "hardware") || text_eq encoder (codes "v4l2m2m"))) (
        encoder_unfit q
          (codes " but Raspberry Pi hardware transcode requires 'hardware' or 'v4l2m2m'"))
  validate_encoder q encoder CodecPath.passthrough =
      err (adapter p (codes " cannot request transcode support while compiled for passthrough"))
  validate_encoder q encoder _ =
      reject_if (not (text_eq encoder (codes "software") || text_eq encoder (codes "libx264"))) (
        encoder_unfit q (
          codes
            " but the current FFmpeg backend only implements software H.264 encode for this pipeline"))

  abbrev pub codec_unfit : CompiledProcessingProfile → RuntimeError
  codec_unfit q = adapter p (
      codes " requested codec '"
      ++ q.codec
      ++ codes "' but the current FFmpeg backend only implements software H.264 transcode")

  abbrev pub no_frame_rate : RuntimeError
  no_frame_rate = adapter p (codes " must set a positive frame_rate for software transcode")

  -- The checks after that of the frame rate, of the codec, and of the encoder.
  abbrev pub after_rate : CompiledProcessingProfile → Result RuntimeError (Unit {0})
  after_rate q = map_err RuntimeError.adapter (normalize_rotation q.rotation) >>= λ _. ok tt

  abbrev pub after_codec : CompiledProcessingProfile → Result RuntimeError (Unit {0})
  after_codec q = ok_or (frame_duration_from_processing q) no_frame_rate >>= λ _. after_rate q

  abbrev pub after_encoder : CompiledProcessingProfile → Result RuntimeError (Unit {0})
  after_encoder q =
      reject_if (not (text_eq (to_ascii_lowercase (trim q.codec)) (codes "h264"))) (codec_unfit q)
      >> after_codec q

  unfoldable pub validate_transcode_support :
      CompiledProcessingProfile → Result RuntimeError (Unit {0})
  unfolding adapter text_eq trim to_ascii_lowercase validate_encoder frame_duration_from_processing
      normalize_rotation
  validate_transcode_support q =
      validate_encoder q (to_ascii_lowercase (trim q.encoder)) p.codec_path >> after_encoder q

  -- `worker_spec_for_pipeline`.
  unfoldable pub input_spec_of :
      Transport → InputType → ResolvedInputBackend → Result RuntimeError InputSpec
  unfolding adapter
  input_spec_of transport InputType.rtsp backend = ok (rtsp transport)
  input_spec_of transport InputType.device ResolvedInputBackend.libcamera_device = err (
      adapter p (
        codes
          " selected a libcamera device backend, but the current FFmpeg adapter only implements RTSP and V4L2-backed device ingest"))
  input_spec_of transport InputType.device ResolvedInputBackend.ffmpeg_rtsp =
      err (adapter p (codes " resolved an invalid FFmpeg RTSP backend for device input"))
  input_spec_of transport InputType.device backend =
      ok (device backend (positive_rate p.processing))
    where
      positive_rate : Option CompiledProcessingProfile → Option ℕ
      positive_rate none = none
      positive_rate (some q) = if q.frame_rate == 0 then none else some q.frame_rate

abbrev pub transport_of : Option CompiledNetworkProfile → Transport
transport_of none = Frontend.Transport.tcp
transport_of (some profile) = profile.transport

abbrev pub duration_of : Option CompiledProcessingProfile → Duration
duration_of none = default_frame_duration_ns
duration_of (some q) = unwrap_or (frame_duration_from_processing q) default_frame_duration_ns

module _ (assets : Assets) (p : CompiledPipeline) where
  unfoldable pub transcode_mode : String → Duration → Result RuntimeError WorkerMode
  unfolding adapter validate_transcode_support validate_overlay_runtime
      transcode_backend_for_pipeline
  transcode_mode what duration =
      ok_or p.processing (
        adapter p
          (codes " was compiled for " ++ codes what ++ codes " but has no processing profile"))
      >>= λ q.
          validate_transcode_support p q
          >> (map_err RuntimeError.adapter (validate_overlay_runtime assets p p.overlay)
              >> (transcode_backend_for_pipeline p p.codec_path >>= λ backend.
                  ok (transcode q p.overlay backend duration)))

  unfoldable pub mode_of : Duration → StreamStrategy → Result RuntimeError WorkerMode
  unfolding transcode_mode
  mode_of duration StreamStrategy.passthrough = ok (passthrough duration)
  mode_of duration StreamStrategy.transcode = transcode_mode "transcode" duration
  mode_of duration StreamStrategy.hardware_decode = transcode_mode "hardware decode" duration

  unfoldable pub worker_spec_for_pipeline : Result RuntimeError WorkerSpec
  unfolding input_spec_of mode_of frame_duration_from_processing
  worker_spec_for_pipeline = do
    input_spec ← input_spec_of p (transport_of p.network) p.input.kind p.resolved_backend
    mode ← mode_of (duration_of p.processing) p.strategy
    ok (record { pipeline_id = p.id; input = p.input.source; input_spec = input_spec; mode = mode })
