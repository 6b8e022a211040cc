-- ===== src/Compiler/Host.antt =====
-- crates/caml-core/src/compiler.rs: what the host can do, the probes that find out, and the checks
-- of a requirement and of the hardware target against it. A probe is the function behind the trait
-- `CapabilityProbe`; a composite probe is a list of them.
pub mod Merge
pub mod Composite
pub mod Meets
mod Tests
use Prim.Native.String.{String}
use caml.Base.{
  Bool, true, false, not, ◌||◌, List, [], ◌∷◌, ◌++◌, Option, none, some, Result, ok, err, ◌>>=◌,
  reject_if,
}
use caml.Compiler.Types.{
  CompileError, unsupported_capability, probe_failure, CapabilityRequirement, ffmpeg, v4l2,
  libcamera, rtp_packetization, pi4_hardware_encoder, pi5_stateless_decoder, draw_text_filter,
  overlay_filter, scale_filter, color_channel_mixer_filter,
}
use caml.Frontend.{HardwareTarget, raspberry_pi4, raspberry_pi5, generic_linux}
use caml.Text.{Text, codes}

pub data PiModel : Type 0 where
  pi4 pi5 : PiModel

pub record HostCapabilities : Type 0 where
  pub ffmpeg_available : Bool
  pub v4l2_available : Bool
  pub libcamera_available : Bool
  pub rtp_packetization_available : Bool
  pub pi_model : Option PiModel
  pub has_pi4_h264_encoder : Bool
  pub has_pi5_stateless_decoder : Bool
  pub has_drawtext_filter : Bool
  pub has_overlay_filter : Bool
  pub has_scale_filter : Bool
  pub has_color_channel_mixer_filter : Bool

-- `HostCapabilities::default()`.
abbrev pub no_capabilities : HostCapabilities
no_capabilities = record {
  ffmpeg_available = false;
  v4l2_available = false;
  libcamera_available = false;
  rtp_packetization_available = false;
  pi_model = none;
  has_pi4_h264_encoder = false;
  has_pi5_stateless_decoder = false;
  has_drawtext_filter = false;
  has_overlay_filter = false;
  has_scale_filter = false;
  has_color_channel_mixer_filter = false;
}

-- `{:?}` of a model.
unfoldable pub debug_pi_model : PiModel → Text
debug_pi_model pi4 = codes "Pi4"
debug_pi_model pi5 = codes "Pi5"

pub disagreement : PiModel → PiModel → CompileError
unfolding debug_pi_model
disagreement left right = probe_failure (
    codes "capability probes disagreed on the detected Raspberry Pi model: "
    ++ (debug_pi_model left ++ (codes " vs " ++ debug_pi_model right)))

-- The `match` on the two models in `merge`.
abbrev pub merge_model : Option PiModel → Option PiModel → Result CompileError (Option PiModel)
merge_model none none = ok none
merge_model none (some model) = ok (some model)
merge_model (some model) none = ok (some model)
merge_model (some pi4) (some pi4) = ok (some pi4)
merge_model (some pi4) (some pi5) = err (disagreement pi4 pi5)
merge_model (some pi5) (some pi4) = err (disagreement pi5 pi4)
merge_model (some pi5) (some pi5) = ok (some pi5)

-- `HostCapabilities::merge`.
pub merge : HostCapabilities → HostCapabilities → Result CompileError HostCapabilities
merge a b = do
  pi_model ← merge_model a.pi_model b.pi_model
  ok (record {
    ffmpeg_available = a.ffmpeg_available || b.ffmpeg_available;
    v4l2_available = a.v4l2_available || b.v4l2_available;
    libcamera_available = a.libcamera_available || b.libcamera_available;
    rtp_packetization_available = a.rtp_packetization_available || b.rtp_packetization_available;
    pi_model = pi_model;
    has_pi4_h264_encoder = a.has_pi4_h264_encoder || b.has_pi4_h264_encoder;
    has_pi5_stateless_decoder = a.has_pi5_stateless_decoder || b.has_pi5_stateless_decoder;
    has_drawtext_filter = a.has_drawtext_filter || b.has_drawtext_filter;
    has_overlay_filter = a.has_overlay_filter || b.has_overlay_filter;
    has_scale_filter = a.has_scale_filter || b.has_scale_filter;
    has_color_channel_mixer_filter =
        a.has_color_channel_mixer_filter || b.has_color_channel_mixer_filter;
  })

abbrev pub CapabilityProbe : Type 0
CapabilityProbe = HardwareTarget → Result CompileError HostCapabilities

-- `StaticCapabilityProbe::new` with its `capabilities`.
pub static_probe : HostCapabilities → CapabilityProbe
static_probe capabilities hardware_target = ok capabilities

-- The loop of `CompositeCapabilityProbe::capabilities`, over what was merged so far.
pub merge_probes :
    HardwareTarget → HostCapabilities → List CapabilityProbe → Result CompileError HostCapabilities
merge_probes target merged [] = ok merged
merge_probes target merged (probe ∷ probes) = do
  capabilities ← probe target
  next ← merge merged capabilities
  merge_probes target next probes

-- `CompositeCapabilityProbe`: `from_probes`, `push` and `capabilities`.
pub record CompositeCapabilityProbe : Type 0 where
  pub probes : List CapabilityProbe

pub from_probes : List CapabilityProbe → CompositeCapabilityProbe
from_probes probes = record { probes = probes }

pub push : CompositeCapabilityProbe → CapabilityProbe → CompositeCapabilityProbe
push c probe = record { probes = c.probes ++ probe ∷ [] }

pub composite_probe : CompositeCapabilityProbe → CapabilityProbe
composite_probe c target = merge_probes target no_capabilities c.probes

-- `format!("pipeline '{}'…", pipeline_id)`.
abbrev pub pipeline_message : Text → String → Text
pipeline_message pipeline_id what = codes "pipeline '" ++ (pipeline_id ++ codes what)

-- `CapabilityRequirement::validate_for`.
unfoldable pub validate_for :
    CapabilityRequirement → Text → HostCapabilities → Result CompileError (Unit {0})
validate_for ffmpeg id caps = reject_if (not caps.ffmpeg_available) (
    unsupported_capability
      (pipeline_message id "' requires FFmpeg but no FFmpeg capability probe was available"))
validate_for v4l2 id caps = reject_if (not caps.v4l2_available) (
    unsupported_capability
      (pipeline_message id "' requires a V4L2 backend but no V4L2 capability was detected"))
validate_for libcamera id caps = reject_if (not caps.libcamera_available) (
    unsupported_capability (
      pipeline_message id
        "' requires a libcamera backend but no libcamera capability was detected"))
validate_for rtp_packetization id caps = reject_if (not caps.rtp_packetization_available) (
    unsupported_capability
      (pipeline_message id "' requires RTP packetization support but none was detected"))
validate_for pi4_hardware_encoder id caps = reject_if (not caps.has_pi4_h264_encoder) (
    unsupported_capability
      (pipeline_message id "' requires a Raspberry Pi 4 hardware encoder that was not detected"))
validate_for pi5_stateless_decoder id caps = reject_if (not caps.has_pi5_stateless_decoder) (
    unsupported_capability
      (pipeline_message id "' requires a Raspberry Pi 5 stateless decoder that was not detected"))
validate_for draw_text_filter id caps = reject_if (not caps.has_drawtext_filter) (
    unsupported_capability
      (pipeline_message id "' requires the FFmpeg drawtext filter but it was not detected"))
validate_for overlay_filter id caps = reject_if (not caps.has_overlay_filter) (
    unsupported_capability
      (pipeline_message id "' requires the FFmpeg overlay filter but it was not detected"))
validate_for scale_filter id caps = reject_if (not caps.has_scale_filter) (
    unsupported_capability
      (pipeline_message id "' requires the FFmpeg scale filter but it was not detected"))
validate_for color_channel_mixer_filter id caps =
    reject_if (not caps.has_color_channel_mixer_filter) (
      unsupported_capability (
        pipeline_message id
          "' requires the FFmpeg colorchannelmixer filter but it was not detected"))

-- The `match` of `validate_host_target`.
abbrev pub check_target : HardwareTarget → Option PiModel → Result CompileError (Unit {0})
check_target raspberry_pi4 (some pi5) = err (
    unsupported_capability (
      codes
        "manifest targets Raspberry Pi 4 but the capability probe detected a Raspberry Pi 5 host"))
check_target raspberry_pi5 (some pi4) = err (
    unsupported_capability (
      codes
        "manifest targets Raspberry Pi 5 but the capability probe detected a Raspberry Pi 4 host"))
check_target _ _ = ok tt

unfoldable pub validate_host_target :
    HardwareTarget → HostCapabilities → Result CompileError (Unit {0})
validate_host_target target caps = check_target target caps.pi_model
