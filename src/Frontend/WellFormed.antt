-- ===== src/Frontend/WellFormed.antt =====
-- What a manifest must be, said without the checks of `validate`.
use caml.Base.{◌≤◌, ◌<◌, ◌≡◌, ◌≢◌, ◌⊎◌, Option, none, some, [], ok, All}
use caml.Text.{Text, codes, trim}
use caml.Text.Search.{HasPrefix, HasInside}
use caml.Frontend.{
  InputType, StreamStrategy, InputBackend, OverlayLayer, OverlayProfile, TextOverlayStyle,
  PipelineNode, CamlManifest, ParsedUrl, UrlParser,
}

-- The value has the property, if there is one.
abbrev pub IfSome {ℓ κ} : {A : Type ℓ} → (A → Type κ) → Option A → Type κ
IfSome P none = Unit
IfSome P (some a) = P a

abbrev pub IsStyle : TextOverlayStyle → Type 0
IsStyle s = IfSome (λ size. 0 < size) s.font_size × IfSome (λ a. a ≤ 100) s.background_alpha

abbrev pub IsLayer : OverlayLayer → Type 0
IsLayer (OverlayLayer.timestamp position source timezone format style) =
    IsStyle style × IfSome (λ f. trim f ≢ []) format
IsLayer (OverlayLayer.text text position style) = IsStyle style
IsLayer (OverlayLayer.watermark image_path position max_width_px opacity margin) =
    (trim image_path ≢ [])
    × (¬ HasInside image_path (codes "://"))
    × IfSome (λ w. 0 < w) max_width_px
    × IfSome (λ o. o ≤ 100) opacity

abbrev pub IsOverlay : OverlayProfile → Type 0
IsOverlay o = (o.layers ≢ []) × All IsLayer o.layers

-- Passthrough needs a network and bars processing and overlays; the others need processing.
abbrev pub FitsStrategy : PipelineNode → StreamStrategy → Type 0
FitsStrategy p StreamStrategy.passthrough =
    (p.network ≢ none) × (p.processing ≡ none) × (p.overlay ≡ none)
FitsStrategy p StreamStrategy.transcode = p.processing ≢ none
FitsStrategy p StreamStrategy.hardware_decode = p.processing ≢ none

abbrev pub IsDevicePath : Text → Type 0
IsDevicePath input =
    (HasPrefix input (codes "/") ⊎ (HasPrefix input (codes "./") ⊎ HasPrefix input (codes "../")))
    × (¬ HasInside input (codes "://"))

module _ (url_parse : UrlParser) where
  abbrev pub IsRtspUrl : Text → Type 0
  IsRtspUrl input =
      (url : ParsedUrl) × (url_parse input ≡ ok url)
      × (url.scheme ≡ codes "rtsp")
      × (url.host_str ≢ none)

  abbrev pub FitsInput : PipelineNode → InputType → Type 0
  FitsInput p InputType.rtsp =
      IfSome (λ b. (b ≡ InputBackend.auto) ⊎ (b ≡ InputBackend.ffmpeg)) p.backend
      × IsRtspUrl p.input
  FitsInput p InputType.device = IsDevicePath p.input

  pub record IsNode (p : PipelineNode) : Type 0 where
    pub strategy_fits : FitsStrategy p p.strategy
    pub overlay_fits : IfSome IsOverlay p.overlay
    pub input_fits : FitsInput p p.input_type

  pub record IsManifest (m : CamlManifest) : Type 0 where
    pub has_limit : (m.system.cma_allocation_limit ≢ none) ⊎ (m.system.media_memory_limit ≢ none)
    pub has_pipeline : m.pipelines ≢ []
    pub nodes_fit : All IsNode m.pipelines
