-- ===== src/Compiler/Overlay.antt =====
-- crates/caml-core/src/compiler.rs: overlays. The map of overlay variables is an association list
-- in which `insert` replaces; the two nested loops over the characters of a template are one
-- machine whose mode says whether a key is being read.
pub mod Template
pub mod Variables
pub mod Layers
mod Tests
use Prim.Native.String.{String}
use caml.Base.{
  ℕ, Bool, List, [], ◌∷◌, ◌++◌, Option, none, some, ◌==◌, if◌then◌else◌, unwrap_or, Result, ok, err,
  ◌>>=◌, ok_or, try_map,
}
use caml.Compiler.Host.{pipeline_message}
use caml.Compiler.Types.{
  CompileError, invalid_configuration, CompiledTextOverlayStyle, CompiledOverlayLayer,
  CompiledOverlayProfile,
}
use caml.Frontend.{
  OverlayPosition, OverlayTimezone, local, utc, TextOverlayStyle, OverlayLayer, OverlayProfile,
}
use caml.Text.{Text, codes, text_eq, trim}

abbrev pub Variables : Type 0
Variables = List (Text × Text)

-- `HashMap::get` and `HashMap::insert`.
unfoldable pub get : Text → Variables → Option Text
get key [] = none
get key ((k, v) ∷ vars) = if text_eq k key then some v else get key vars

unfoldable pub insert : Text → Text → Variables → Variables
insert key value [] = (key, value) ∷ []
insert key value ((k, v) ∷ vars) =
    if text_eq k key then (key, value) ∷ vars else (k, v) ∷ insert key value vars

-- `overlay_variables_for_pipeline`.
unfoldable pub overlay_variables_for_pipeline : Text → Variables → Variables
overlay_variables_for_pipeline pipeline_id overlay_variables =
    insert (codes "pipeline_id") pipeline_id
      (insert (codes "camera_id") pipeline_id overlay_variables)

pub data Mode : Type 0 where
  outside : Mode
  inside : (key : Text) → Mode

pub record Expansion : Type 0 where
  pub output : Text
  pub mode : Mode

abbrev pub unknown_variable : Text → Text → CompileError
unknown_variable pipeline_id key = invalid_configuration (
    codes "pipeline '"
    ++ (pipeline_id
        ++ (codes "' overlay template references unknown variable '" ++ (key ++ codes "'"))))

-- The look-up of a key that was read up to its closing brace.
unfoldable pub substitute : Text → Variables → Text → Text → Result CompileError Expansion
substitute pipeline_id vars output key = do
  value ← ok_or (get (trim key) vars) (unknown_variable pipeline_id (trim key))
  ok (record { output = output ++ value; mode = outside })

-- One character of the template.
unfoldable pub expand_char : Text → Variables → Text → Mode → ℕ → Result CompileError Expansion
expand_char pipeline_id vars output (inside key) c =
    if c == b'}'
    then substitute pipeline_id vars output key
    else ok (record { output = output; mode = inside (key ++ c ∷ []) })
expand_char pipeline_id vars output outside c =
    if c == b'{'
    then ok (record { output = output; mode = inside [] })
    else if c == b'}'
    then err (
        invalid_configuration
          (pipeline_message pipeline_id "' overlay template contains an unmatched closing brace"))
    else ok (record { output = output ++ c ∷ []; mode = outside })

-- At the end of the template.
abbrev pub expand_end : Text → Text → Mode → Result CompileError Text
expand_end pipeline_id output outside = ok output
expand_end pipeline_id output (inside key) = err (
    invalid_configuration (
      pipeline_message pipeline_id
        "' overlay template contains an unterminated variable placeholder"))

unfoldable pub expand_from : Text → Variables → Expansion → Text → Result CompileError Text
expand_from pipeline_id vars e [] = expand_end pipeline_id e.output e.mode
expand_from pipeline_id vars e (c ∷ s) = do
  next ← expand_char pipeline_id vars e.output e.mode c
  expand_from pipeline_id vars next s

-- `expand_overlay_template`.
unfoldable pub expand_overlay_template : Text → Text → Variables → Result CompileError Text
unfolding expand_from expand_char substitute
expand_overlay_template pipeline_id template vars =
    expand_from pipeline_id vars (record { output = []; mode = outside }) template

-- `default_timestamp_format`.
pub default_timestamp_format : OverlayTimezone → Text
default_timestamp_format utc = codes "%Y-%m-%d %H:%M:%S UTC"
default_timestamp_format local = codes "%Y-%m-%d %H:%M:%S"

-- `compile_text_overlay_style`, with the defaults of the constants.
unfoldable pub compile_text_overlay_style :
    OverlayPosition → TextOverlayStyle → CompiledTextOverlayStyle
compile_text_overlay_style position style = record {
  position = position;
  font_size = unwrap_or style.font_size 18;
  font_color = unwrap_or style.font_color (codes "white");
  background_color = unwrap_or style.background_color (codes "black");
  background_alpha = unwrap_or style.background_alpha 60;
  padding = unwrap_or style.padding 6;
  margin = unwrap_or style.margin 12;
}

-- `compile_overlay_layer`.
unfoldable pub compile_overlay_layer :
    Text → OverlayLayer → Variables → Result CompileError CompiledOverlayLayer
compile_overlay_layer id (OverlayLayer.timestamp position source timezone format style) vars = ok (
    CompiledOverlayLayer.timestamp (record {
      format = unwrap_or format (default_timestamp_format timezone);
      timezone = timezone;
      style = compile_text_overlay_style position style;
    }))
compile_overlay_layer id (OverlayLayer.text text position style) vars = do
  expanded ← expand_overlay_template id text vars
  ok (
      CompiledOverlayLayer.text
        (record { text = expanded; style = compile_text_overlay_style position style }))
compile_overlay_layer id (OverlayLayer.watermark image_path position max_width_px opacity margin)
      vars =
    ok (
      CompiledOverlayLayer.watermark (record {
        image_path = image_path;
        position = position;
        max_width_px = max_width_px;
        opacity = unwrap_or opacity 100;
        margin = unwrap_or margin 12;
      }))

-- `compile_overlay_profile`.
unfoldable pub compile_overlay_profile :
    Text → OverlayProfile → Variables → Result CompileError CompiledOverlayProfile
unfolding compile_overlay_layer overlay_variables_for_pipeline
compile_overlay_profile id profile overlay_variables = do
  layers ←
      try_map
        (λ layer.
          compile_overlay_layer id layer (overlay_variables_for_pipeline id overlay_variables))
        profile.layers
  ok (record { layers = layers })
