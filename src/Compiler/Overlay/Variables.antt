-- ===== src/Compiler/Overlay/Variables.antt =====
-- The variables that the templates of one pipeline see.
use caml.Base.{◌≡◌, refl, some, [], ◌∷◌, arith, if◌then◌else◌, ◌||◌}
use caml.Compiler.Overlay.{Variables, get, insert, overlay_variables_for_pipeline}
use caml.Text.Equality.{text_eq_iff}
use caml.Text.{Text, codes, text_eq}

get-insert :
    (key j value : Text) (vars : Variables)
    → get j (insert key value vars) ≡ (if text_eq key j then some value else get j vars)
unfolding get insert
get-insert key j value [] = refl
get-insert key j value ((k, v) ∷ vars) =
    ground
      (arith, text_eq_iff key j, text_eq_iff k key, text_eq_iff k j, get-insert key j value vars)

-- `camera_id` and `pipeline_id` are the pipeline's id whatever the caller says of them, and every
-- other variable is the caller's.
pub get-overlay_variables_for_pipeline :
    (id j : Text) (vars : Variables)
    → get j (overlay_variables_for_pipeline id vars) ≡ (
        if text_eq (codes "pipeline_id") j || text_eq (codes "camera_id") j
        then some id
        else get j vars)
unfolding overlay_variables_for_pipeline
get-overlay_variables_for_pipeline id j vars = ground (
  arith,
  get-insert (codes "pipeline_id") j id (insert (codes "camera_id") id vars),
  get-insert (codes "camera_id") j id vars,
)
