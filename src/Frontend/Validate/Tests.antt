-- ===== src/Frontend/Validate/Tests.antt =====
-- Runs of `validate`.
use caml.Base.{◌≡◌, refl, inr, ◌↔◌, [], ◌∷◌, ok, err}
use caml.Frontend.Validate.Samples.{knows_front, porch, house}
use caml.Frontend.Validate.Accepts.{validate-IsManifest}
use caml.Frontend.Validate.Rejects.{FirstBad, validate-FirstBad}
use caml.Frontend.Validate.{
  validate, validate_pipeline_node, validate_strategy, validate_overlay, validate_overlay_profile,
  validate_overlay_layer, validate_text_overlay_style, validate_input, validate_device_input,
  looks_like_path,
}
use caml.Frontend.WellFormed.{IsManifest}
use caml.Frontend.{generic_linux, validation}
use caml.Text.{codes, starts_with}

no_pipelines :
    validate knows_front (record (house generic_linux) { pipelines = [] })
    ≡ err (validation (codes "manifest must define at least one pipeline"))
unfolding validate
no_pipelines = refl

-- A path with a scheme is no device, and an opacity above 100 is refused.
bad_input :
    validate knows_front (record (house generic_linux) {
      pipelines = record porch { input = codes "rtsp://cam/1" } ∷ [];
    })
    ≡ err (validation (codes "pipeline 'porch' must use a filesystem-like path for device input"))
unfolding validate validate_pipeline_node validate_strategy validate_overlay
    validate_overlay_profile validate_overlay_layer validate_text_overlay_style validate_input
    validate_device_input looks_like_path starts_with codes
bad_input = refl

validate-IsManifest_example :
    (validate knows_front (house generic_linux) ≡ ok tt)
    ↔ IsManifest knows_front (house generic_linux)
validate-IsManifest_example = validate-IsManifest knows_front (house generic_linux)

validate-FirstBad_example :
    FirstBad knows_front
      (record porch { input = codes "rtsp://cam/1" } ∷ [])
      (validation (codes "pipeline 'porch' must use a filesystem-like path for device input"))
validate-FirstBad_example =
    validate-FirstBad knows_front
      (record (house generic_linux) {
        pipelines = record porch { input = codes "rtsp://cam/1" } ∷ [];
      })
      (validation (codes "pipeline 'porch' must use a filesystem-like path for device input"))
      (inr (λ e. cc e)) (λ e. cc e) bad_input
