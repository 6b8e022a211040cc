-- ===== src/Frontend/Validate/Accepts.antt =====
-- `validate` accepts exactly the well-formed manifests.
use caml.Base.{
  ◌≡◌, refl, ◌≢◌, ◌⊎◌, ◌↔◌, false, not, Option, none, some, [], ◌∷◌, ok, err, All, arith,
  is_some_and, is_empty, reject_if, ◌>>◌, try_each, Result, List,
}
use caml.Text.{Text, codes, trim}
use caml.Text.Equality.{text_eq_iff}
use caml.Text.Search.{contains_iff, starts_with_iff}
use caml.Frontend.WellFormed.{
  IfSome, IsStyle, IsLayer, IsOverlay, FitsStrategy, IsDevicePath, FitsInput, IsNode, IsManifest,
}
use caml.Frontend.Validate.{
  Check, invalid, validate_text_overlay_style, validate_overlay_layer, validate_overlay_profile,
  looks_like_path, validate_device_input, validate_strategy, validate_overlay, is_rtsp_backend,
  validate_url, validate_rtsp_input, validate_input, validate_pipeline_node, validate,
}
use caml.Frontend.{
  InputType, StreamStrategy, InputBackend, OverlayLayer, OverlayProfile, TextOverlayStyle,
  PipelineNode, CamlManifest, validation, ParsedUrl, UrlParser,
}

abbrev Accepts : Check → Type 0
Accepts c = c ≡ ok tt

seq_iff : (m k : Check) → Accepts (m >> k) ↔ (Accepts m × Accepts k)
seq_iff (ok tt) k = ground arith
seq_iff (err e) k = ground arith

IsStyle-iff :
    (id : Text) (s : TextOverlayStyle) → Accepts (validate_text_overlay_style id s) ↔ IsStyle s
unfolding validate_text_overlay_style
IsStyle-iff id s = ground arith

empty_iff {ℓ} : {A : Type ℓ} (s : List A) → (is_empty s ≡ false) ↔ (s ≢ [])
empty_iff [] = ground arith
empty_iff (c ∷ s) = ground arith

format_iff :
    (id : Text) (format : Option Text)
    → Accepts (
        reject_if
          (is_some_and format λ value. is_empty (trim value))
          (invalid id "' timestamp overlay format cannot be empty"))
      ↔ IfSome (λ f. trim f ≢ []) format
format_iff id none = ground arith
format_iff id (some f) = ground (arith, empty_iff (trim f))

IsLayer-iff : (id : Text) (l : OverlayLayer) → Accepts (validate_overlay_layer id l) ↔ IsLayer l
unfolding validate_overlay_layer
IsLayer-iff id (OverlayLayer.timestamp position source timezone format style) = ground (
  arith,
  seq_iff (validate_text_overlay_style id style) (
      reject_if (is_some_and format λ value. is_empty (trim value))
        (invalid id "' timestamp overlay format cannot be empty")),
  IsStyle-iff id style,
  format_iff id format,
)
IsLayer-iff id (OverlayLayer.text text position style) = IsStyle-iff id style
IsLayer-iff id (OverlayLayer.watermark image_path position max_width_px opacity margin) =
    ground (arith, empty_iff (trim image_path), contains_iff image_path (codes "://"))

layers_iff :
    (id : Text) (ls : List OverlayLayer)
    → Accepts (try_each (validate_overlay_layer id) ls) ↔ All IsLayer ls
layers_iff id [] = ground arith
layers_iff id (l ∷ ls) = ground (
  arith,
  seq_iff (validate_overlay_layer id l) (try_each (validate_overlay_layer id) ls),
  IsLayer-iff id l,
  layers_iff id ls,
)

profile_iff :
    (id : Text) (o : OverlayProfile) → Accepts (validate_overlay_profile id o) ↔ IsOverlay o
unfolding validate_overlay_profile
profile_iff id o = ground (
  arith,
  seq_iff (reject_if (is_empty o.layers) (invalid id "' defines overlay but provides no layers"))
      (try_each (validate_overlay_layer id) o.layers),
  empty_iff o.layers,
  layers_iff id o.layers,
)

IsOverlay-iff :
    (id : Text) (o : Option OverlayProfile) → Accepts (validate_overlay id o) ↔ IfSome IsOverlay o
unfolding validate_overlay
IsOverlay-iff id none = ground arith
IsOverlay-iff id (some o) = profile_iff id o

strategy_iff :
    (p : PipelineNode) (s : StreamStrategy) → Accepts (validate_strategy p s) ↔ FitsStrategy p s
unfolding validate_strategy
strategy_iff p StreamStrategy.passthrough = ground arith
strategy_iff p _ = ground arith

device_iff : (id input : Text) → Accepts (validate_device_input id input) ↔ IsDevicePath input
unfolding validate_device_input looks_like_path
device_iff id input = ground (
  arith,
  contains_iff input (codes "://"),
  starts_with_iff input (codes "/"),
  starts_with_iff input (codes "./"),
  starts_with_iff input (codes "../"),
)

backend_iff :
    (b : Option InputBackend)
    → (is_some_and b (λ backend. not (is_rtsp_backend backend)) ≡ false)
      ↔ IfSome (λ b. (b ≡ InputBackend.auto) ⊎ (b ≡ InputBackend.ffmpeg)) b
unfolding is_rtsp_backend
backend_iff b = ground arith

module _ (url_parse : UrlParser) where
  url_iff :
      (id input : Text) (r : Result Text ParsedUrl)
      → Accepts (validate_url url_parse id input r)
        ↔ ((url : ParsedUrl) × (r ≡ ok url) × (url.scheme ≡ codes "rtsp") × (url.host_str ≢ none))
  unfolding validate_url
  url_iff id input (err e) = (λ h. cc, λ h. cc (h.1))
  url_iff id input (ok url) = (
    λ h. (
      url,
      refl,
      ground (arith, text_eq_iff url.scheme (codes "rtsp")),
      ground (arith, text_eq_iff url.scheme (codes "rtsp")),
    ),
    λ h.
        let same : url ≡ h.0 = cc (h.1) in
        ground (arith, text_eq_iff url.scheme (codes "rtsp"), h.2, h.3, same),
  )

  input_iff :
      (p : PipelineNode) (t : InputType)
      → Accepts (validate_input url_parse p t) ↔ FitsInput url_parse p t
  unfolding validate_input validate_rtsp_input
  input_iff p InputType.rtsp =
      ground (arith, backend_iff p.backend, url_iff p.id p.input (url_parse p.input))
  input_iff p InputType.device = device_iff p.id p.input

  pub IsNode-iff :
      (p : PipelineNode) → Accepts (validate_pipeline_node url_parse p) ↔ IsNode url_parse p
  unfolding validate_pipeline_node
  IsNode-iff p = ground (
    arith,
    seq_iff (validate_strategy p p.strategy)
        (validate_overlay p.id p.overlay >> validate_input url_parse p p.input_type),
    seq_iff (validate_overlay p.id p.overlay) (validate_input url_parse p p.input_type),
    strategy_iff p p.strategy,
    IsOverlay-iff p.id p.overlay,
    input_iff p p.input_type,
  )

  nodes_iff :
      (ps : List PipelineNode)
      → Accepts (try_each (validate_pipeline_node url_parse) ps) ↔ All (IsNode url_parse) ps
  nodes_iff [] = ground arith
  nodes_iff (p ∷ ps) = ground (
    arith,
    seq_iff (validate_pipeline_node url_parse p) (try_each (validate_pipeline_node url_parse) ps),
    IsNode-iff p,
    nodes_iff ps,
  )

  -- `validate` accepts a manifest exactly if it is well formed.
  pub validate-IsManifest :
      (m : CamlManifest) → (validate url_parse m ≡ ok tt) ↔ IsManifest url_parse m
  unfolding validate
  validate-IsManifest m = ground (
    arith,
    seq_iff
        (reject_if (is_empty m.pipelines)
          (validation (codes "manifest must define at least one pipeline")))
        (try_each (validate_pipeline_node url_parse) m.pipelines),
    empty_iff m.pipelines,
    nodes_iff m.pipelines,
  )
