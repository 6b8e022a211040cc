-- ===== src/Compiler/Types.antt =====
-- crates/caml-core/src/compiler.rs, the types, with the `CompileError` of error.rs. The float
-- `backoff_multiplier` is a whole number here: the program gives it no value but 2.0 and, in the
-- sentinel, 1.0.
use caml.Base.Int.{ℤ}
use caml.Base.{ℕ, List, [], Option, none}
use caml.Frontend.{
  HardwareTarget, InputType, StreamStrategy, Transport, OverlayPosition, OverlayTimezone,
  OutputProfile,
}
use caml.Text.{Text, codes}
use caml.Units.{Duration, from_millis, from_secs}

pub data CompileError : Type 0 where
  hardware_mismatch invalid_configuration duplicate_pipeline_id : Text → CompileError
  unsupported_capability probe_failure : Text → CompileError
  resource_limit_exceeded :
      (configured_limit_bytes : ℕ) → (estimated_usage_bytes : ℕ) → CompileError

pub data ResolvedInputBackend : Type 0 where
  ffmpeg_rtsp v4l2_device libcamera_device auto_device : ResolvedInputBackend

pub data ExecutionMode : Type 0 where
  encoded_packets decoded_frames : ExecutionMode

pub data CodecPath : Type 0 where
  passthrough software_transcode hardware_transcode hardware_decode : CodecPath

pub data CapabilityRequirement : Type 0 where
  ffmpeg v4l2 libcamera rtp_packetization pi4_hardware_encoder : CapabilityRequirement
  pi5_stateless_decoder draw_text_filter overlay_filter scale_filter : CapabilityRequirement
  color_channel_mixer_filter : CapabilityRequirement

pub data ResourceWarning : Type 0 where
  high_memory_usage : ResourceWarning

pub record BufferPoolPlan : Type 0 where
  pub pipeline_id : Text
  pub buffer_size : ℕ
  pub buffer_count : ℕ
  pub estimated_bytes : ℕ

pub record CompiledSystem : Type 0 where
  pub hardware_target : HardwareTarget
  pub cma_allocation_limit_bytes : ℕ

pub record ResourcePlan : Type 0 where
  pub configured_limit_bytes : ℕ
  pub estimated_pool_bytes : ℕ
  pub estimated_backend_bytes : Option ℕ
  pub buffer_pools : List BufferPoolPlan
  pub warnings : List ResourceWarning

pub record CompiledInput : Type 0 where
  pub kind : InputType
  pub source : Text

pub record CompiledNetworkProfile : Type 0 where
  pub transport : Transport
  pub packet_size_limit : ℕ
  pub stall_timeout : Duration

pub record CompiledProcessingProfile : Type 0 where
  pub codec : Text
  pub encoder : Text
  pub preset : Text
  pub tune : Text
  pub frame_rate : ℕ
  pub bitrate_bps : ℕ
  pub rotation : Option ℤ

pub record CompiledTextOverlayStyle : Type 0 where
  pub position : OverlayPosition
  pub font_size : ℕ
  pub font_color : Text
  pub background_color : Text
  pub background_alpha : ℕ
  pub padding : ℕ
  pub margin : ℕ

pub record CompiledTimestampOverlay : Type 0 where
  pub format : Text
  pub timezone : OverlayTimezone
  pub style : CompiledTextOverlayStyle

pub record CompiledTextOverlay : Type 0 where
  pub text : Text
  pub style : CompiledTextOverlayStyle

pub record CompiledWatermarkOverlay : Type 0 where
  pub image_path : Text
  pub position : OverlayPosition
  pub max_width_px : Option ℕ
  pub opacity : ℕ
  pub margin : ℕ

pub data CompiledOverlayLayer : Type 0 where
  timestamp : CompiledTimestampOverlay → CompiledOverlayLayer
  text : CompiledTextOverlay → CompiledOverlayLayer
  watermark : CompiledWatermarkOverlay → CompiledOverlayLayer

pub record CompiledOverlayProfile : Type 0 where
  pub layers : List CompiledOverlayLayer

pub data RecoveryClass : Type 0 where
  network device hardware : RecoveryClass

pub record RecoveryPolicy : Type 0 where
  pub class : RecoveryClass
  pub max_restarts : ℕ
  pub initial_backoff : Duration
  pub max_backoff : Duration
  pub backoff_multiplier : ℕ
  pub reset_after : Duration

pub record RuntimePolicy : Type 0 where
  pub buffer_size : ℕ
  pub watchdog_timeout : Duration
  pub buffer_count : ℕ

pub record CompiledPipeline : Type 0 where
  pub id : Text
  pub input : CompiledInput
  pub strategy : StreamStrategy
  pub network : Option CompiledNetworkProfile
  pub processing : Option CompiledProcessingProfile
  pub overlay : Option CompiledOverlayProfile
  pub runtime : RuntimePolicy
  pub resolved_backend : ResolvedInputBackend
  pub execution_mode : ExecutionMode
  pub codec_path : CodecPath
  pub recovery : RecoveryPolicy
  pub capability_requirements : List CapabilityRequirement
  pub outputs : List OutputProfile

pub record CompiledGraph : Type 0 where
  pub system : CompiledSystem
  pub pipelines : List CompiledPipeline
  pub resource_plan : ResourcePlan

-- `CompiledPipeline::sentinel`.
unfoldable pub sentinel : CompiledPipeline
sentinel = record {
  id = codes "__sentinel__";
  input = record { kind = InputType.rtsp; source = [] };
  strategy = StreamStrategy.passthrough;
  network = none;
  processing = none;
  overlay = none;
  runtime = record { buffer_size = 1; watchdog_timeout = from_secs 0; buffer_count = 0 };
  resolved_backend = ResolvedInputBackend.ffmpeg_rtsp;
  execution_mode = ExecutionMode.encoded_packets;
  codec_path = CodecPath.passthrough;
  recovery = record {
    class = RecoveryClass.network;
    max_restarts = 0;
    initial_backoff = from_millis 0;
    max_backoff = from_millis 0;
    backoff_multiplier = 1;
    reset_after = from_millis 0;
  };
  capability_requirements = [];
  outputs = [];
}
