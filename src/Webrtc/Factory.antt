-- ===== src/Webrtc/Factory.antt =====
-- crates/caml-webrtc/src/lib.rs: the settings of a sink. `stable_ssrc`, a hash of the standard library,
-- is a parameter.
pub mod Wanted
pub mod Fields
pub mod Built
mod Tests
use Prim.Native.String.{String}
use caml.Base.{
  ℕ, ◌+◌, ◌/◌, Bool, true, false, List, [], ◌∷◌, ◌++◌, Option, none, some, unwrap_or, leb, ◌==◌,
  if◌then◌else◌, Result, ok, err, ◌>>=◌, ◌>>◌, reject_if,
}
use mathlib.Core.Option
use caml.Compiler.Host.{no_capabilities, static_probe, CapabilityProbe}
use caml.Compiler.Types.{CompiledPipeline, CompiledNetworkProfile, CompiledProcessingProfile}
use caml.Frontend.{OutputProfile, WebrtcRtp, webrtc_rtp, recording}
use caml.Frontend
use caml.Runtime.Media.{RuntimeError, DropPolicy, block, drop_oldest, drop_newest}
use caml.Text.{Text, codes, text_eq, parse_u64, show_u64}
use caml.Units.{Duration}
use caml.Webrtc.Packetize.{WebRtcSenderConfig, u32_max}
use caml.Webrtc.Sink.{WebRtcSink}

abbrev pub default_packet_size_limit : ℕ
default_packet_size_limit = 1200

abbrev pub default_queue_limit : ℕ
default_queue_limit = 10

abbrev pub h264_payload_type : ℕ
h264_payload_type = 102

abbrev pub video_clock_rate : ℕ
video_clock_rate = 90_000

-- `webrtc_capabilities`.
unfoldable pub webrtc_capabilities : CapabilityProbe
webrtc_capabilities = static_probe (record no_capabilities { rtp_packetization_available = true })

-- `str::parse::<u32>`.
abbrev pub in_u32 : Option ℕ → Option ℕ
in_u32 none = none
in_u32 (some n) = if leb n u32_max then some n else none

unfoldable pub parse_u32 : Text → Option ℕ
unfolding parse_u64
parse_u32 s = in_u32 (parse_u64 s)

unfoldable pub frontend_to_runtime_drop_policy : Frontend.DropPolicy → DropPolicy
frontend_to_runtime_drop_policy Frontend.DropPolicy.block = block
frontend_to_runtime_drop_policy Frontend.DropPolicy.drop_oldest = drop_oldest
frontend_to_runtime_drop_policy Frontend.DropPolicy.drop_newest = drop_newest

-- The first WebRTC output, and its settings, or none of them and `Block`.
unfoldable pub find_webrtc : List OutputProfile → Option WebrtcRtp
find_webrtc [] = none
find_webrtc (webrtc_rtp profile ∷ outputs) = some profile
find_webrtc (recording queue_limit drop_policy ∷ outputs) = find_webrtc outputs

abbrev pub settings_of : Option WebrtcRtp → WebrtcRtp
settings_of (some profile) = profile
settings_of none = record {
  codec = none;
  payload_type = none;
  mtu = none;
  ssrc = none;
  clock_rate = none;
  queue_limit = none;
  drop_policy = Frontend.DropPolicy.block;
}

-- The greatest size of a packet, of the output, the network or by default.
unfoldable pub final_mtu : CompiledPipeline → Option ℕ → ℕ
final_mtu pipeline (some mtu) = mtu
final_mtu pipeline none =
    unwrap_or (Option.map (λ profile. profile.packet_size_limit) pipeline.network)
      default_packet_size_limit

-- The duration of a frame at the rate of the processing profile, if that is not 0.
abbrev pub frame_duration_at : ℕ → Option Duration
frame_duration_at rate = if rate == 0 then none else some (1_000_000_000 / rate)

abbrev pub profile_frame_duration : Option CompiledProcessingProfile → Option Duration
profile_frame_duration none = none
profile_frame_duration (some profile) = frame_duration_at profile.frame_rate

-- `new_configured`, with the sink and the settings of its sender's task.
unfoldable pub new_configured :
    WebRtcSenderConfig → ℕ → DropPolicy → Result RuntimeError (WebRtcSink × WebRtcSenderConfig)
new_configured config queue_limit drop_policy =
    reject_if (leb config.packet_size_limit 12) (
      RuntimeError.sink (
        codes "pipeline '"
        ++ (config.pipeline_id
            ++ (codes "' packet_size_limit "
                ++ (show_u64 config.packet_size_limit ++ codes " is too small for RTP output")))))
    >> (reject_if (queue_limit == 0) (
          RuntimeError.sink (
            codes "pipeline '"
            ++ (config.pipeline_id ++ codes "' queue_limit must be at least 1 for WebRTC output")))
        >> ok (
          record {
            pipeline_id = config.pipeline_id;
            queue_limit = queue_limit;
            drop_policy = drop_policy;
          },
          config,
        ))

module _ (stable_ssrc : Text → ℕ) where
  -- `WebRtcSink::new`.
  unfoldable pub new :
      Text → ℕ → Option Duration → Result RuntimeError (WebRtcSink × WebRtcSenderConfig)
  unfolding new_configured
  new pipeline_id packet_size_limit default_frame_duration =
      new_configured
        record {
          pipeline_id = pipeline_id;
          packet_size_limit = packet_size_limit;
          default_frame_duration = default_frame_duration;
          codec = codes "h264";
          payload_type = h264_payload_type;
          ssrc = stable_ssrc pipeline_id;
          clock_rate = video_clock_rate;
        }
        default_queue_limit block

  -- The source of the stream: "stable" or nothing for the pipeline's, a number, or any other text.
  unfoldable pub ssrc_of : Text → Option Text → ℕ
  unfolding parse_u32 text_eq
  ssrc_of pipeline_id none = stable_ssrc pipeline_id
  ssrc_of pipeline_id (some text) =
      if text_eq text (codes "stable")
      then stable_ssrc pipeline_id
      else unwrap_or (parse_u32 text) (stable_ssrc text)

  abbrev pub sender_config : CompiledPipeline → WebrtcRtp → WebRtcSenderConfig
  sender_config pipeline settings = record {
    pipeline_id = pipeline.id;
    packet_size_limit = final_mtu pipeline settings.mtu;
    default_frame_duration = profile_frame_duration pipeline.processing;
    codec = unwrap_or settings.codec (codes "h264");
    payload_type = unwrap_or settings.payload_type h264_payload_type;
    ssrc = ssrc_of pipeline.id settings.ssrc;
    clock_rate = unwrap_or settings.clock_rate video_clock_rate;
  }

  -- `build_sink`, for the settings of the output.
  unfoldable pub build_with :
      CompiledPipeline → WebrtcRtp → Result RuntimeError (WebRtcSink × WebRtcSenderConfig)
  unfolding ssrc_of final_mtu new_configured frontend_to_runtime_drop_policy
  build_with pipeline settings =
      let queue_limit = unwrap_or settings.queue_limit default_queue_limit in
      reject_if (queue_limit == 0) (
        RuntimeError.sink (
          codes "pipeline '"
          ++ (pipeline.id ++ codes "' queue_limit must be at least 1 for WebRTC output")))
      >> new_configured (sender_config pipeline settings) queue_limit
          (frontend_to_runtime_drop_policy settings.drop_policy)

  unfoldable pub build_sink :
      CompiledPipeline → Result RuntimeError (WebRtcSink × WebRtcSenderConfig)
  unfolding find_webrtc build_with
  build_sink pipeline = build_with pipeline (settings_of (find_webrtc pipeline.outputs))
