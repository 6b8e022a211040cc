-- ===== src/Ffmpeg/Worker/Servable.antt =====
-- What a pipeline needs to get a worker.
use caml.Base.Int.{ℤ, pos, negsuc}
use caml.Base.{
  suc, ◌≤◌, ◌%◌, ◌≡◌, ◌≢◌, refl, ◌↔◌, ◌⊎◌, true, false, Option, none, some, ok, err, any, All,
  arith, ◌==◌, if◌then◌else◌,
}
use caml.Compiler.Types.{
  CompiledPipeline, CompiledProcessingProfile, CompiledOverlayProfile, CompiledOverlayLayer,
  ResolvedInputBackend, CodecPath,
}
use caml.Ffmpeg.Checks.{
  Assets, Rotation, unrotated, clockwise, half_turn, counter_clockwise, unsupported_rotation,
  rotation_of, normalize_rotation, uses_text, default_draw_text_font_path,
}
use caml.Ffmpeg.Worker.Succeeds.{Succeeds, test_iff, no_error}
use caml.Frontend.{InputType, StreamStrategy}
use caml.Text.{Text, codes, trim, to_ascii_lowercase}

-- An encoder, trimmed and in lower case, that the codec path can use.
abbrev pub FitsEncoder : CodecPath → Text → Type 0
FitsEncoder CodecPath.passthrough encoder = ⊥
FitsEncoder CodecPath.hardware_transcode encoder =
    (encoder ≡ codes "hardware") ⊎ (encoder ≡ codes "v4l2m2m")
FitsEncoder _ encoder = (encoder ≡ codes "software") ⊎ (encoder ≡ codes "libx264")

-- Whole quarter turns, three at most to either side.
abbrev pub IsQuarterTurns : Option ℤ → Type 0
IsQuarterTurns none = Unit {0}
IsQuarterTurns (some (pos n)) = (n ≤ 270) × (n % 90 ≡ 0)
IsQuarterTurns (some (negsuc n)) = (suc n ≤ 270) × (suc n % 90 ≡ 0)

abbrev pub IsTranscodable : CodecPath → CompiledProcessingProfile → Type 0
IsTranscodable path q =
    FitsEncoder path (to_ascii_lowercase (trim q.encoder))
    × ((to_ascii_lowercase (trim q.codec) ≡ codes "h264")
        × ((q.frame_rate ≢ 0) × IsQuarterTurns q.rotation))

-- What the layers of an overlay need of the host.
abbrev pub HasAsset : Assets → CompiledOverlayLayer → Type 0
HasAsset assets (CompiledOverlayLayer.watermark w) =
    (assets.metadata w.image_path ≡ ok true) × (assets.best_video w.image_path ≡ ok true)
HasAsset assets _ = Unit {0}

abbrev pub HasAssets : Assets → Option CompiledOverlayProfile → Type 0
HasAssets assets none = Unit {0}
HasAssets assets (some overlay) =
    (assets.init_ffmpeg ≡ true)
    × (((any uses_text overlay.layers ≡ false) ⊎ (assets.exists default_draw_text_font_path ≡ true))
        × All (HasAsset assets) overlay.layers)

abbrev pub IsServable : Assets → CompiledPipeline → Type 0
IsServable assets p =
    ((p.input.kind ≡ InputType.rtsp)
      ⊎ ((p.resolved_backend ≡ ResolvedInputBackend.auto_device)
          ⊎ (p.resolved_backend ≡ ResolvedInputBackend.v4l2_device)))
    × ((p.strategy ≡ StreamStrategy.passthrough)
        ⊎ ((q : CompiledProcessingProfile) × (p.processing ≡ some q)
            × IsTranscodable p.codec_path q
            × HasAssets assets p.overlay))

rotation_of_iff : (r : ℤ) → Succeeds (rotation_of r) ↔ IsQuarterTurns (some r)
unfolding rotation_of
rotation_of_iff (pos n) = ground (
  arith,
  test_iff (n == 0) unrotated (
      if n == 90
      then ok clockwise
      else if n == 180
      then ok half_turn
      else if n == 270
      then ok counter_clockwise
      else err (unsupported_rotation (pos n))),
  test_iff (n == 90) clockwise (
      if n == 180
      then ok half_turn
      else if n == 270
      then ok counter_clockwise
      else err (unsupported_rotation (pos n))),
  test_iff (n == 180) half_turn
      (if n == 270 then ok counter_clockwise else err (unsupported_rotation (pos n))),
  test_iff {E = Text} (n == 270) counter_clockwise (err (unsupported_rotation (pos n))),
  no_error {E = Text} {A = Rotation} (unsupported_rotation (pos n)),
)
rotation_of_iff (negsuc n) = ground (
  arith,
  test_iff (n == 269) clockwise (
      if n == 179
      then ok half_turn
      else if n == 89
      then ok counter_clockwise
      else err (unsupported_rotation (negsuc n))),
  test_iff (n == 179) half_turn
      (if n == 89 then ok counter_clockwise else err (unsupported_rotation (negsuc n))),
  test_iff {E = Text} (n == 89) counter_clockwise (err (unsupported_rotation (negsuc n))),
  no_error {E = Text} {A = Rotation} (unsupported_rotation (negsuc n)),
)

pub normalize_rotation_iff : (r : Option ℤ) → Succeeds (normalize_rotation r) ↔ IsQuarterTurns r
unfolding normalize_rotation rotation_of
normalize_rotation_iff none = (λ h. tt, λ h. (unrotated, refl))
normalize_rotation_iff (some r) = rotation_of_iff r
