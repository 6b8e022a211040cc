-- ===== src/Ffmpeg/Checks.antt =====
-- crates/caml-ffmpeg/src/transcode.rs: the checks of a rotation and of an overlay before a worker runs.
-- What FFmpeg and the files of the host answer is the record `Assets`.
use caml.Base.Int.{ℤ, pos, negsuc}
use caml.Base.{
  suc, Bool, true, false, not, ◌&&◌, ◌++◌, Option, none, some, unwrap_or, ◌==◌, if◌then◌else◌,
  Result, ok, err, ◌>>=◌, ◌>>◌, reject_if, try_each, any,
}
use caml.Compiler.Types.{
  CompiledPipeline, CompiledOverlayProfile, CompiledOverlayLayer, CompiledWatermarkOverlay,
}
use caml.Text.{Text, codes, show_u64}

-- Whether FFmpeg starts; whether a path exists; of a path, the error of its metadata or whether it
-- is a regular file; the error of FFmpeg's opening it or whether it finds a video stream in it.
pub record Assets : Type 0 where
  pub init_ffmpeg : Bool
  pub exists : Text → Bool
  pub metadata : Text → Result Text Bool
  pub best_video : Text → Result Text Bool

abbrev pub default_draw_text_font_path : Text
default_draw_text_font_path = codes "/usr/share/fonts/truetype/dejavu/DejaVuSans.ttf"

-- `RuntimeError::adapter(format!("pipeline '{}'...", pipeline.id))`, and the text of it.
unfoldable pub about : CompiledPipeline → Text → Text
about p rest = codes "pipeline '" ++ p.id ++ codes "'" ++ rest

abbrev pub map_err {ε δ ℓ} :
    {E : Type ε} {F : Type δ} {A : Type ℓ} → (E → F) → Result E A → Result F A
map_err f (ok x) = ok x
map_err f (err e) = err (f e)

-- `normalize_rotation`; `negsuc n` is -(n + 1).
pub data Rotation : Type 0 where
  unrotated clockwise half_turn counter_clockwise : Rotation

unfoldable pub show_i32 : ℤ → Text
show_i32 (pos n) = show_u64 n
show_i32 (negsuc n) = codes "-" ++ show_u64 (suc n)

unfoldable pub unsupported_rotation : ℤ → Text
unfolding show_i32
unsupported_rotation other =
    codes "unsupported rotation '"
    ++ show_i32 other
    ++ codes "'; supported values are 0, 90, 180, 270, -90, -180, and -270"

unfoldable pub rotation_of : ℤ → Result Text Rotation
unfolding unsupported_rotation
rotation_of (pos n) =
    if n == 0
    then ok unrotated
    else if n == 90
    then ok clockwise
    else if n == 180
    then ok half_turn
    else if n == 270
    then ok counter_clockwise
    else err (unsupported_rotation (pos n))
rotation_of (negsuc n) =
    if n == 269
    then ok clockwise
    else if n == 179
    then ok half_turn
    else if n == 89
    then ok counter_clockwise
    else err (unsupported_rotation (negsuc n))

unfoldable pub normalize_rotation : Option ℤ → Result Text Rotation
unfolding rotation_of
normalize_rotation rotation = rotation_of (unwrap_or rotation (pos 0))

-- `validate_overlay_runtime`.
abbrev pub uses_text : CompiledOverlayLayer → Bool
uses_text (CompiledOverlayLayer.timestamp overlay) = true
uses_text (CompiledOverlayLayer.text overlay) = true
uses_text (CompiledOverlayLayer.watermark overlay) = false

unfoldable pub best_video_stream : Text → Bool → Result Text (Unit {0})
best_video_stream input found =
    reject_if (not found) (codes "no video stream was found in '" ++ input ++ codes "'")

module _ (assets : Assets) (p : CompiledPipeline) where
  abbrev pub about_watermark : CompiledWatermarkOverlay → Text → Text
  about_watermark w rest = about p (codes " watermark '" ++ w.image_path ++ codes "'" ++ rest)

  unfoldable pub validate_watermark_asset : CompiledWatermarkOverlay → Result Text (Unit {0})
  unfolding about best_video_stream
  validate_watermark_asset w =
      map_err (λ error. about_watermark w (codes " is not accessible: " ++ error))
        (assets.metadata w.image_path)
      >>= λ is_file.
          reject_if (not is_file) (about_watermark w (codes " must be a regular file"))
          >> (map_err
                (λ error. about_watermark w (codes " could not be decoded by FFmpeg: " ++ error))
                (assets.best_video w.image_path)
              >>= λ found. best_video_stream w.image_path found)

  abbrev pub validate_layer : CompiledOverlayLayer → Result Text (Unit {0})
  validate_layer (CompiledOverlayLayer.watermark w) = validate_watermark_asset w
  validate_layer _ = ok tt

  unfoldable pub validate_overlay_runtime : Option CompiledOverlayProfile → Result Text (Unit {0})
  unfolding about validate_watermark_asset
  validate_overlay_runtime none = ok tt
  validate_overlay_runtime (some overlay) =
      reject_if (not assets.init_ffmpeg)
        (about p (codes " requires FFmpeg overlay support, but FFmpeg failed to initialize"))
      >> (reject_if
            (any uses_text overlay.layers && not (assets.exists default_draw_text_font_path))
            (about p (
              codes " requires the default overlay font '"
              ++ default_draw_text_font_path
              ++ codes "', but it was not found; install a DejaVu Sans font package on the host"))
          >> try_each validate_layer overlay.layers)
