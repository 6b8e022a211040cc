-- ===== src/Frontend/Validate.antt =====
-- crates/caml-core/src/frontend.rs: `CamlManifest::validate` and the functions below it, each test
-- in the source's order. `Url::parse` is a parameter, and so is the YAML parser.
pub mod Accepts
pub mod Rejects
pub mod Samples
mod Tests
use Prim.Native.String.{String}
use caml.Base.{
  ℕ, Bool, true, false, not, ◌&&◌, ◌||◌, List, [], ◌∷◌, ◌++◌, Option, none, some, ltb, ◌==◌,
  is_some, is_none, is_some_and, is_empty, Result, ok, err, ◌>>=◌, ◌>>◌, reject_if, try_each,
}
use caml.Text.{Text, codes, text_eq, trim, starts_with, contains}
use caml.Frontend.{
  InputType, StreamStrategy, InputBackend, OverlayLayer, OverlayProfile, TextOverlayStyle,
  PipelineNode, CamlManifest, ManifestError, validation, yaml, io, ParsedUrl, UrlParser, YamlParser,
}

-- `ManifestError::Validation(format!("pipeline '{}'…", pipeline_id))`.
abbrev pub invalid : Text → String → ManifestError
invalid pipeline_id what = validation (codes "pipeline '" ++ (pipeline_id ++ codes what))

-- A `Result<(), ManifestError>`.
abbrev pub Check : Type 0
Check = Result ManifestError (Unit {0})

pub validate_text_overlay_style : Text → TextOverlayStyle → Check
validate_text_overlay_style id style = do
  reject_if (is_some_and style.font_size λ value. value == 0)
      (invalid id "' overlay font_size must be greater than 0")
  reject_if (is_some_and style.background_alpha λ value. ltb 100 value)
      (invalid id "' overlay background_alpha must be between 0 and 100")

-- The body of the loop in `validate_overlay_profile`.
pub validate_overlay_layer : Text → OverlayLayer → Check
validate_overlay_layer id (OverlayLayer.timestamp position source timezone format style) = do
  validate_text_overlay_style id style
  reject_if (is_some_and format λ value. is_empty (trim value))
      (invalid id "' timestamp overlay format cannot be empty")
validate_overlay_layer id (OverlayLayer.text text position style) =
    validate_text_overlay_style id style
validate_overlay_layer id (OverlayLayer.watermark image_path position max_width_px opacity margin) =
    do
      reject_if (is_empty (trim image_path))
          (invalid id "' watermark overlay image_path cannot be empty")
      reject_if (contains image_path (codes "://"))
          (invalid id "' watermark overlay image_path must reference a local file")
      reject_if (is_some_and max_width_px λ value. value == 0)
          (invalid id "' watermark overlay max_width_px must be greater than 0")
      reject_if (is_some_and opacity λ value. ltb 100 value)
          (invalid id "' watermark overlay opacity must be between 0 and 100")

pub validate_overlay_profile : Text → OverlayProfile → Check
validate_overlay_profile id overlay = do
  reject_if (is_empty overlay.layers) (invalid id "' defines overlay but provides no layers")
  try_each (validate_overlay_layer id) overlay.layers

-- `Path::is_absolute` on Unix, or one of the two relative prefixes.
pub looks_like_path : Text → Bool
looks_like_path input =
    starts_with input (codes "/")
    || (starts_with input (codes "./") || starts_with input (codes "../"))

pub validate_device_input : Text → Text → Check
validate_device_input id input =
    reject_if (not (looks_like_path input) || contains input (codes "://"))
      (invalid id "' must use a filesystem-like path for device input")

-- The `match pipeline.strategy` of `validate`.
pub validate_strategy : PipelineNode → StreamStrategy → Check
validate_strategy p StreamStrategy.passthrough = do
  reject_if (is_none p.network) (invalid p.id "' uses passthrough and requires a network profile")
  reject_if (is_some p.processing)
      (invalid p.id "' defines processing but is marked as passthrough")
  reject_if (is_some p.overlay)
      (invalid p.id "' defines overlay but overlays require transcode or hardware_decode")
validate_strategy p StreamStrategy.transcode =
    reject_if (is_none p.processing)
      (invalid p.id "' uses transcode and requires a processing profile")
validate_strategy p StreamStrategy.hardware_decode =
    reject_if (is_none p.processing)
      (invalid p.id "' uses hardware_decode and requires a processing profile")

-- `if let Some(overlay) = pipeline.overlay.as_ref()`.
pub validate_overlay : Text → Option OverlayProfile → Check
validate_overlay id none = ok tt
validate_overlay id (some overlay) = validate_overlay_profile id overlay

-- `matches!(backend, InputBackend::Auto | InputBackend::Ffmpeg)`.
pub is_rtsp_backend : InputBackend → Bool
is_rtsp_backend InputBackend.auto = true
is_rtsp_backend InputBackend.ffmpeg = true
is_rtsp_backend InputBackend.v4l2 = false
is_rtsp_backend InputBackend.libcamera = false

module _ (url_parse : UrlParser) where
  -- The scheme and the host of a URL that was parsed.
  pub validate_url : Text → Text → Result Text ParsedUrl → Check
  validate_url id input (err error) = err (
      validation (
        codes "pipeline '"
        ++ (id ++ (codes "' has an invalid rtsp input '" ++ (input ++ (codes "': " ++ error))))))
  validate_url id input (ok parsed) =
      reject_if (not (text_eq parsed.scheme (codes "rtsp")) || is_none parsed.host_str)
        (invalid id "' must use an rtsp:// URL with a host")

  pub validate_rtsp_input : Text → Text → Check
  validate_rtsp_input id input = validate_url id input (url_parse input)

  -- The `match pipeline.input_type` of `validate`.
  pub validate_input : PipelineNode → InputType → Check
  validate_input p InputType.rtsp = do
    reject_if (is_some_and p.backend λ backend. not (is_rtsp_backend backend))
        (invalid p.id "' uses an rtsp input and only supports 'auto' or 'ffmpeg' backends")
    validate_rtsp_input p.id p.input
  validate_input p InputType.device = validate_device_input p.id p.input

  -- The body of the loop in `validate`.
  pub validate_pipeline_node : PipelineNode → Check
  validate_pipeline_node p = do
    validate_strategy p p.strategy
    validate_overlay p.id p.overlay
    validate_input p p.input_type

  pub validate : CamlManifest → Check
  validate m = do
    reject_if (is_none m.system.cma_allocation_limit && is_none m.system.media_memory_limit)
        (validation (codes "Either cma_allocation_limit or media_memory_limit must be specified"))
    reject_if (is_empty m.pipelines)
        (validation (codes "manifest must define at least one pipeline"))
    try_each validate_pipeline_node m.pipelines

  module _ (yaml_parse : YamlParser) where
    abbrev lift_yaml : Result Text CamlManifest → Result ManifestError CamlManifest
    lift_yaml (ok m) = ok m
    lift_yaml (err e) = err (yaml e)

    -- `CamlManifest::from_yaml_str`.
    pub from_yaml_str : Text → Result ManifestError CamlManifest
    from_yaml_str input = do m ← lift_yaml (yaml_parse input); validate m; ok m

    -- `CamlManifest::from_reader`; the argument is what the reader yields, or its error.
    pub from_reader : Result Text Text → Result ManifestError CamlManifest
    from_reader (ok raw) = from_yaml_str raw
    from_reader (err e) = err (io e)
