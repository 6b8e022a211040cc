-- ===== src/Compiler/Overlay/Layers.antt =====
-- Which overlays have a meaning, and that `compile_overlay_profile` compiles them.
use caml.Base.{◌≡◌, refl, sym, ◌∙◌, List, [], ◌∷◌, Result, ok, try_map, All, All-map_imp, arith}
use caml.Compiler.Overlay.Template.{Expands, done, char, variable, expand_overlay_template-Expands}
use caml.Compiler.Overlay.Variables.{get-overlay_variables_for_pipeline}
use caml.Compiler.Overlay.{
  Variables, get, overlay_variables_for_pipeline, compile_text_overlay_style, compile_overlay_layer,
  compile_overlay_profile,
}
use caml.Compiler.Types.{CompiledOverlayLayer, CompiledOverlayProfile}
use caml.Frontend.{OverlayLayer, OverlayProfile}
use caml.Text.{Text, codes, trim}

-- What the templates of a pipeline may name: its id, twice, and what the caller says, below.
abbrev pub scope : Text → Variables → Variables
scope id vars = (codes "pipeline_id", id) ∷ (codes "camera_id", id) ∷ vars

-- The template of a text layer has a meaning.
abbrev pub HasText : Text → Variables → OverlayLayer → Type 0
HasText id vars (OverlayLayer.text template position style) =
    (out : Text) × Expands (scope id vars) template out
HasText id vars _ = Unit {0}

get-scope :
    (id j : Text) (vars : Variables)
    → get j (scope id vars) ≡ get j (overlay_variables_for_pipeline id vars)
unfolding get
get-scope id j vars = ground (arith, get-overlay_variables_for_pipeline id j vars)

-- A meaning depends on what the variables are, not on how they are kept.
Expands-transfer :
    {v w : Variables}
    → ((j : Text) → get j v ≡ get j w)
    → {t o : Text} → Expands v t o
    → Expands w t o
Expands-transfer same done = done
Expands-transfer same (char ho hc x) = char ho hc (Expands-transfer same x)
Expands-transfer same (variable key value t o all found x) =
    variable key value t o all (sym (same (trim key)) ∙ found) (Expands-transfer same x)

compile_overlay_layer-HasText :
    (id : Text) (vars : Variables) (layer : OverlayLayer)
    → HasText id vars layer
    → (c : CompiledOverlayLayer) × (compile_overlay_layer id layer
          (overlay_variables_for_pipeline id vars)
        ≡ ok c)
unfolding compile_overlay_layer
compile_overlay_layer-HasText id vars (OverlayLayer.text template position style) (out, x) =
    let expanded =
      (expand_overlay_template-Expands id (overlay_variables_for_pipeline id vars) template out).1
        (Expands-transfer (λ j. get-scope id j vars) x) in
    (
      CompiledOverlayLayer.text
          (record { text = out; style = compile_text_overlay_style position style }),
      rw expanded refl,
    )
compile_overlay_layer-HasText id vars (OverlayLayer.timestamp p s z f style) h = (_, refl)
compile_overlay_layer-HasText id vars (OverlayLayer.watermark i p w o m) h = (_, refl)

try_map_each {ε ℓ κ} :
    {E : Type ε} {A : Type ℓ} {B : Type κ}
    → (f : A → Result E B) (xs : List A) → All (λ x. (y : B) × (f x ≡ ok y)) xs
    → (ys : List B) × (try_map f xs ≡ ok ys)
try_map_each f [] all = ([], refl)
try_map_each f (x ∷ xs) ((y, e), all) =
    let (ys, es) = try_map_each f xs all in (y ∷ ys, rw (e, es) refl)

pub compile_overlay_profile-HasText :
    (id : Text) (vars : Variables) (profile : OverlayProfile)
    → All (HasText id vars) profile.layers
    → (c : CompiledOverlayProfile) × (compile_overlay_profile id profile vars ≡ ok c)
unfolding compile_overlay_profile
compile_overlay_profile-HasText id vars profile all =
    let (layers, e) =
      try_map_each _ profile.layers
        (All-map_imp _ _ profile.layers (compile_overlay_layer-HasText id vars) all) in
    (record { layers = layers }, rw e refl)
