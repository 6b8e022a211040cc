-- ===== src/Compiler/Resolve/Tests.antt =====
-- What a pipeline resolves to.
use caml.Base.{◌≡◌, refl, [], ◌∷◌, some}
use caml.Compiler.Resolve.{
  resolve_codec_path, names_hardware, capability_requirements_for, overlay_uses_text,
  overlay_uses_watermark, is_text_layer, is_watermark_layer, recovery_policy_for,
  output_requirements,
}
use caml.Compiler.Types.{CodecPath, CapabilityRequirement, RecoveryClass}
use caml.Frontend.Validate.Samples.{front, porch, x264}
use caml.Text.{codes, text_eq, trim, to_ascii_lowercase}
use caml.Units.{from_millis}

-- The encoder's name is trimmed and its case does not matter.
hardware_porch :
    resolve_codec_path
      (record porch { processing = some (record x264 { encoder = codes " V4L2m2m" }) })
    ≡ CodecPath.hardware_transcode
unfolding resolve_codec_path names_hardware trim to_ascii_lowercase text_eq codes
hardware_porch = refl

porch_needs : capability_requirements_for porch ≡ CapabilityRequirement.draw_text_filter ∷ []
unfolding capability_requirements_for resolve_codec_path names_hardware trim to_ascii_lowercase
    text_eq codes overlay_uses_text overlay_uses_watermark is_text_layer is_watermark_layer
    output_requirements
porch_needs = refl

front_recovers :
    ((recovery_policy_for front).class ≡ RecoveryClass.network)
    × ((recovery_policy_for front).initial_backoff ≡ from_millis 250)
unfolding recovery_policy_for
front_recovers = (refl, refl)
