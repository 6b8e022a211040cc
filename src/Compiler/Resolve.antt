-- ===== src/Compiler/Resolve.antt =====
-- crates/caml-core/src/compiler.rs: what follows from a pipeline's strategy, input, backend and
-- encoder. Each `match` of the source is a function by clauses on what the source matches.
mod Tests
use caml.Base.{
  Bool, true, false, ◌||◌, List, [], ◌∷◌, ◌++◌, Option, none, some, if◌then◌else◌, is_some_and,
  unwrap_or, any,
}
use caml.Compiler.Types.{
  ResolvedInputBackend, ExecutionMode, CodecPath, CapabilityRequirement, RecoveryClass,
  RecoveryPolicy,
}
use caml.Frontend.{
  InputType, StreamStrategy, InputBackend, OutputProfile, ProcessingProfile, OverlayLayer,
  OverlayProfile, PipelineNode,
}
use caml.Text.{Text, codes, text_eq, trim, to_ascii_lowercase}
use caml.Units.{from_millis, from_secs}

-- `resolve_backend`.
abbrev pub resolve_input : InputType → InputBackend → ResolvedInputBackend
resolve_input InputType.rtsp _ = ResolvedInputBackend.ffmpeg_rtsp
resolve_input InputType.device InputBackend.auto = ResolvedInputBackend.auto_device
resolve_input InputType.device InputBackend.ffmpeg = ResolvedInputBackend.auto_device
resolve_input InputType.device InputBackend.v4l2 = ResolvedInputBackend.v4l2_device
resolve_input InputType.device InputBackend.libcamera = ResolvedInputBackend.libcamera_device

unfoldable pub resolve_backend : PipelineNode → ResolvedInputBackend
resolve_backend p = resolve_input p.input_type (unwrap_or p.backend InputBackend.auto)

-- `resolve_execution_mode`.
unfoldable pub resolve_execution_mode : StreamStrategy → ExecutionMode
resolve_execution_mode StreamStrategy.passthrough = ExecutionMode.encoded_packets
resolve_execution_mode StreamStrategy.transcode = ExecutionMode.decoded_frames
resolve_execution_mode StreamStrategy.hardware_decode = ExecutionMode.decoded_frames

-- `encoder == "hardware" || encoder == "v4l2m2m"`, of the encoder trimmed and in lower case.
unfoldable pub names_hardware : Text → Bool
names_hardware encoder =
    let e = to_ascii_lowercase (trim encoder) in
    text_eq e (codes "hardware") || text_eq e (codes "v4l2m2m")

-- `resolve_codec_path`; without processing the encoder is "software".
abbrev pub encoder_path : Option ProcessingProfile → CodecPath
encoder_path none = CodecPath.software_transcode
encoder_path (some processing) =
    if names_hardware processing.encoder
    then CodecPath.hardware_transcode
    else CodecPath.software_transcode

abbrev pub strategy_path : StreamStrategy → Option ProcessingProfile → CodecPath
strategy_path StreamStrategy.passthrough processing = CodecPath.passthrough
strategy_path StreamStrategy.hardware_decode processing = CodecPath.hardware_decode
strategy_path StreamStrategy.transcode processing = encoder_path processing

unfoldable pub resolve_codec_path : PipelineNode → CodecPath
resolve_codec_path p = strategy_path p.strategy p.processing

-- The tests of `overlay_uses_text` and `overlay_uses_watermark` on one layer.
unfoldable pub is_text_layer : OverlayLayer → Bool
is_text_layer (OverlayLayer.timestamp _ _ _ _ _) = true
is_text_layer (OverlayLayer.text _ _ _) = true
is_text_layer (OverlayLayer.watermark _ _ _ _ _) = false

unfoldable pub is_watermark_layer : OverlayLayer → Bool
is_watermark_layer (OverlayLayer.timestamp _ _ _ _ _) = false
is_watermark_layer (OverlayLayer.text _ _ _) = false
is_watermark_layer (OverlayLayer.watermark _ _ _ _ _) = true

unfoldable pub overlay_uses_text : Option OverlayProfile → Bool
overlay_uses_text overlay = is_some_and overlay λ profile. any is_text_layer profile.layers

unfoldable pub overlay_uses_watermark : Option OverlayProfile → Bool
overlay_uses_watermark overlay =
    is_some_and overlay λ profile. any is_watermark_layer profile.layers

-- The parts of `capability_requirements_for`, each what one statement pushes.
abbrev pub input_requirements : InputType → InputBackend → List CapabilityRequirement
input_requirements InputType.rtsp _ = CapabilityRequirement.ffmpeg ∷ []
input_requirements InputType.device InputBackend.auto = []
input_requirements InputType.device InputBackend.ffmpeg = CapabilityRequirement.ffmpeg ∷ []
input_requirements InputType.device InputBackend.v4l2 = CapabilityRequirement.v4l2 ∷ []
input_requirements InputType.device InputBackend.libcamera = CapabilityRequirement.libcamera ∷ []

unfoldable pub output_requirements : List OutputProfile → List CapabilityRequirement
output_requirements [] = []
output_requirements (OutputProfile.webrtc_rtp _ ∷ outputs) =
    CapabilityRequirement.rtp_packetization ∷ output_requirements outputs
output_requirements (OutputProfile.recording _ _ ∷ outputs) = output_requirements outputs

abbrev pub codec_requirements : CodecPath → List CapabilityRequirement
codec_requirements CodecPath.hardware_transcode = CapabilityRequirement.pi4_hardware_encoder ∷ []
codec_requirements _ = []

abbrev pub strategy_requirements : StreamStrategy → List CapabilityRequirement
strategy_requirements StreamStrategy.hardware_decode =
    CapabilityRequirement.pi5_stateless_decoder ∷ []
strategy_requirements _ = []

-- `capability_requirements_for`.
unfoldable pub capability_requirements_for : PipelineNode → List CapabilityRequirement
unfolding resolve_codec_path overlay_uses_text overlay_uses_watermark output_requirements
capability_requirements_for p =
    input_requirements p.input_type (unwrap_or p.backend InputBackend.auto)
    ++ (output_requirements p.outputs
        ++ (codec_requirements (resolve_codec_path p)
            ++ (strategy_requirements p.strategy
                ++ ((if overlay_uses_text p.overlay
                      then CapabilityRequirement.draw_text_filter ∷ []
                      else [])
                    ++ (if overlay_uses_watermark p.overlay
                        then CapabilityRequirement.overlay_filter
                          ∷ CapabilityRequirement.scale_filter
                          ∷ CapabilityRequirement.color_channel_mixer_filter ∷ []
                        else [])))))

-- `recovery_policy_for`: the class, and the numbers that belong to it.
abbrev pub recovery_class : InputType → StreamStrategy → RecoveryClass
recovery_class _ StreamStrategy.hardware_decode = RecoveryClass.hardware
recovery_class InputType.rtsp _ = RecoveryClass.network
recovery_class InputType.device _ = RecoveryClass.device

abbrev pub class_policy : RecoveryClass → RecoveryPolicy
class_policy RecoveryClass.network = record {
  class = RecoveryClass.network;
  max_restarts = 5;
  initial_backoff = from_millis 250;
  max_backoff = from_secs 5;
  backoff_multiplier = 2;
  reset_after = from_secs 30;
}
class_policy RecoveryClass.device = record {
  class = RecoveryClass.device;
  max_restarts = 3;
  initial_backoff = from_secs 1;
  max_backoff = from_secs 30;
  backoff_multiplier = 2;
  reset_after = from_secs 60;
}
class_policy RecoveryClass.hardware = record {
  class = RecoveryClass.hardware;
  max_restarts = 3;
  initial_backoff = from_secs 2;
  max_backoff = from_secs 60;
  backoff_multiplier = 2;
  reset_after = from_secs 120;
}

unfoldable pub recovery_policy_for : PipelineNode → RecoveryPolicy
recovery_policy_for p = class_policy (recovery_class p.input_type p.strategy)
