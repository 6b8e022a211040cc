-- ===== src/Compiler/Overlay/Tests.antt =====
-- Overlay templates.
use caml.Base.{◌≡◌, ◌↔◌, refl, ◌||◌, [], ◌∷◌, some, ok, err, if◌then◌else◌}
use caml.Compiler.Host.{pipeline_message}
use caml.Compiler.Overlay.Template.{Expands, expand_overlay_template-Expands}
use caml.Compiler.Overlay.Variables.{get-overlay_variables_for_pipeline}
use caml.Compiler.Overlay.{
  Variables, get, overlay_variables_for_pipeline, unknown_variable, substitute, expand_char,
  expand_from, expand_overlay_template,
}
use caml.Compiler.Types.{invalid_configuration}
use caml.Text.{codes, text_eq, trim}

abbrev site : Variables
site = (codes "site", codes "home") ∷ []

expands :
    expand_overlay_template (codes "front") (codes "at { site }!") site ≡ ok (codes "at home!")
unfolding expand_overlay_template expand_from expand_char substitute get trim text_eq codes
expands = refl

unknown :
    expand_overlay_template (codes "front") (codes "{yard}") site
    ≡ err (unknown_variable (codes "front") (codes "yard"))
unfolding expand_overlay_template expand_from expand_char substitute get trim text_eq codes
unknown = refl

unterminated :
    expand_overlay_template (codes "front") (codes "{site") site
    ≡ err (
        invalid_configuration (
          pipeline_message
            (codes "front")
            "' overlay template contains an unterminated variable placeholder"))
unfolding expand_overlay_template expand_from expand_char substitute get trim text_eq codes
unterminated = refl

expand_overlay_template-Expands_example :
    (expand_overlay_template (codes "front") (codes "at { site }!") site ≡ ok (codes "at home!"))
    ↔ Expands site (codes "at { site }!") (codes "at home!")
expand_overlay_template-Expands_example =
    expand_overlay_template-Expands (codes "front") site (codes "at { site }!") (codes "at home!")

get-overlay_variables_for_pipeline_example :
    get (codes "site") (overlay_variables_for_pipeline (codes "front") site) ≡ (
      if text_eq (codes "pipeline_id") (codes "site") || text_eq (codes "camera_id") (codes "site")
      then some (codes "front")
      else get (codes "site") site)
get-overlay_variables_for_pipeline_example =
    get-overlay_variables_for_pipeline (codes "front") (codes "site") site
