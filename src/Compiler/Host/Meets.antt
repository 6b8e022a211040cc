-- ===== src/Compiler/Host/Meets.antt =====
-- When a host meets a requirement and fits a hardware target.
use caml.Base.{
  ◌≡◌, ◌≢◌, ◌↔◌, Bool, true, some, ok, arith, List, All, try_each, try_each-eq-ok, try_each-All,
  All-map_imp,
}
use caml.Compiler.Host.{pi4, pi5, HostCapabilities, validate_for, validate_host_target}
use caml.Compiler.Types.{
  CapabilityRequirement, ffmpeg, v4l2, libcamera, rtp_packetization, pi4_hardware_encoder,
  pi5_stateless_decoder, draw_text_filter, overlay_filter, scale_filter, color_channel_mixer_filter,
}
use caml.Frontend.{HardwareTarget, raspberry_pi4, raspberry_pi5, generic_linux}
use caml.Text.{Text}

-- The capability that a requirement is about.
abbrev pub capability : CapabilityRequirement → HostCapabilities → Bool
capability ffmpeg caps = caps.ffmpeg_available
capability v4l2 caps = caps.v4l2_available
capability libcamera caps = caps.libcamera_available
capability rtp_packetization caps = caps.rtp_packetization_available
capability pi4_hardware_encoder caps = caps.has_pi4_h264_encoder
capability pi5_stateless_decoder caps = caps.has_pi5_stateless_decoder
capability draw_text_filter caps = caps.has_drawtext_filter
capability overlay_filter caps = caps.has_overlay_filter
capability scale_filter caps = caps.has_scale_filter
capability color_channel_mixer_filter caps = caps.has_color_channel_mixer_filter

abbrev pub Meets : HostCapabilities → CapabilityRequirement → Type 0
Meets caps r = capability r caps ≡ true

validate_for_iff :
    (r : CapabilityRequirement) (id : Text) (caps : HostCapabilities)
    → (validate_for r id caps ≡ ok tt) ↔ Meets caps r
unfolding validate_for
validate_for_iff ffmpeg id caps = ground arith
validate_for_iff _ id caps = ground arith

-- A probe that saw the other model refutes the target; any other answer fits it.
abbrev pub FitsTarget : HostCapabilities → HardwareTarget → Type 0
FitsTarget caps raspberry_pi4 = caps.pi_model ≢ some pi5
FitsTarget caps raspberry_pi5 = caps.pi_model ≢ some pi4
FitsTarget caps generic_linux = Unit {0}

pub validate_host_target_iff :
    (t : HardwareTarget) (caps : HostCapabilities)
    → (validate_host_target t caps ≡ ok tt) ↔ FitsTarget caps t
unfolding validate_host_target
validate_host_target_iff raspberry_pi4 caps = ground arith
validate_host_target_iff _ caps = ground arith

pub validate-All_iff :
    (rs : List CapabilityRequirement) (id : Text) (caps : HostCapabilities)
    → (try_each (λ r. validate_for r id caps) rs ≡ ok tt) ↔ All (Meets caps) rs
validate-All_iff rs id caps = (
  λ h. All-map_imp _ _ rs (λ r e. (validate_for_iff r id caps).0 e) (try_each-eq-ok _ rs h),
  λ h. try_each-All _ rs (All-map_imp _ _ rs (λ r e. (validate_for_iff r id caps).1 e) h),
)
