-- ===== src/Ffmpeg/Worker/Accepts.antt =====
-- Which pipelines get a worker.
use caml.Base.{
  ℕ, ◌/◌, ◌≡◌, ◌≢◌, refl, ◌↔◌, ◌⊎◌, inl, inr, true, not, ◌||◌, Option, none, some, ok, reject_if,
  ok_or, any, arith, Bool-cases, ok_or-eq-ok, ◌==◌,
}
use caml.Compiler.Types.{
  CompiledPipeline, CompiledProcessingProfile, CompiledOverlayProfile, CompiledOverlayLayer,
  ResolvedInputBackend, CodecPath,
}
use caml.Ffmpeg.Checks.{
  Assets, normalize_rotation, uses_text, best_video_stream, validate_watermark_asset,
  validate_layer, validate_overlay_runtime, default_draw_text_font_path,
}
use caml.Ffmpeg.Worker.{
  software, pi4_hardware_encode, pi5_hardware_decode, rtsp, passthrough, after_rate,
  validate_encoder, validate_transcode_support, frame_duration_from_processing, input_spec_of,
  transcode_backend_for_pipeline, transcode_mode, mode_of, worker_spec_for_pipeline, transport_of,
  duration_of,
}
use caml.Ffmpeg.Worker.Servable.{
  FitsEncoder, IsQuarterTurns, IsTranscodable, HasAsset, HasAssets, IsServable,
  normalize_rotation_iff,
}
use caml.Ffmpeg.Worker.Succeeds.{
  Succeeds, chain_iff, seq_iff, map_err_iff, option_iff, asset_iff, reject_unless_iff, then_iff,
  both, font_iff, each_iff,
}
use caml.Frontend.{InputType, StreamStrategy, Transport}
use caml.Runtime.Media.{RuntimeError}
use caml.Text.Equality.{text_eq_iff}
use caml.Units.{Duration}
use Prim.Native.String.{String}
use caml.Text.{Text, codes, trim, to_ascii_lowercase, text_eq}

one_of : (a b c : Text) → ((text_eq a b || text_eq a c) ≡ true) ↔ ((a ≡ b) ⊎ (a ≡ c))
one_of a b c = ground (arith, text_eq_iff a b, text_eq_iff a c)

duration_iff :
    (q : CompiledProcessingProfile)
    → ((d : ℕ) × (frame_duration_from_processing q ≡ some d)) ↔ (q.frame_rate ≢ 0)
unfolding frame_duration_from_processing
duration_iff q = elim (Bool-cases (q.frame_rate == 0)) [
  | inl is_zero ↦ (λ h. cc, λ h. ground arith)
  | inr positive ↦ (λ h. ground arith, λ h. (1_000_000_000 / q.frame_rate, rw positive refl))
]

unless_one_of {ε} :
    {E : Type ε}
    → (a b c : Text) (e : E)
    → Succeeds (reject_if (not (text_eq a b || text_eq a c)) e) ↔ ((a ≡ b) ⊎ (a ≡ c))
unless_one_of a b c e = then_iff (reject_unless_iff (text_eq a b || text_eq a c) e) (one_of a b c)

rotation_iff :
    (p : CompiledPipeline) (q : CompiledProcessingProfile)
    → Succeeds (after_rate p q) ↔ IsQuarterTurns q.rotation
rotation_iff p q =
    let found =
      then_iff (map_err_iff RuntimeError.adapter (normalize_rotation q.rotation))
        (normalize_rotation_iff q.rotation) in
    then_iff (seq_iff _ _) (λ h. found.0 h.0, λ h. (found.1 h, (tt, refl)))

module _ (assets : Assets) (p : CompiledPipeline) where
  watermark_iff :
      (layer : CompiledOverlayLayer)
      → (validate_layer assets p layer ≡ ok tt) ↔ HasAsset assets layer
  unfolding validate_watermark_asset best_video_stream
  watermark_iff (CompiledOverlayLayer.timestamp overlay) = (λ h. tt, λ h. refl)
  watermark_iff (CompiledOverlayLayer.text overlay) = (λ h. tt, λ h. refl)
  watermark_iff (CompiledOverlayLayer.watermark w) =
      asset_iff _ _ _ _ (assets.metadata w.image_path) (assets.best_video w.image_path)

  overlay_iff :
      (overlay : Option CompiledOverlayProfile)
      → Succeeds (validate_overlay_runtime assets p overlay) ↔ HasAssets assets overlay
  unfolding validate_overlay_runtime
  overlay_iff none = (λ h. tt, λ h. (tt, refl))
  overlay_iff (some overlay) = both _ _ (reject_unless_iff assets.init_ffmpeg _) (
      both _ _
        (font_iff (any uses_text overlay.layers) (assets.exists default_draw_text_font_path) _)
        (each_iff (validate_layer assets p) (HasAsset assets) watermark_iff overlay.layers))

  encoder_iff :
      (q : CompiledProcessingProfile) (encoder : Text) (path : CodecPath)
      → Succeeds (validate_encoder p q encoder path) ↔ FitsEncoder path encoder
  unfolding validate_encoder
  encoder_iff q encoder CodecPath.passthrough = ground arith
  encoder_iff q encoder CodecPath.hardware_transcode =
      unless_one_of encoder (codes "hardware") (codes "v4l2m2m") _
  encoder_iff q encoder CodecPath.software_transcode =
      unless_one_of encoder (codes "software") (codes "libx264") _
  encoder_iff q encoder CodecPath.hardware_decode =
      unless_one_of encoder (codes "software") (codes "libx264") _

  transcode_iff :
      (q : CompiledProcessingProfile)
      → Succeeds (validate_transcode_support p q) ↔ IsTranscodable p.codec_path q
  unfolding validate_transcode_support
  transcode_iff q = both _ _ (encoder_iff q (to_ascii_lowercase (trim q.encoder)) p.codec_path) (
      both _ _
        (then_iff (reject_unless_iff (text_eq (to_ascii_lowercase (trim q.codec)) (codes "h264")) _)
          (text_eq_iff (to_ascii_lowercase (trim q.codec)) (codes "h264")))
        (both _ _ (then_iff (option_iff (frame_duration_from_processing q) _) (duration_iff q))
          (rotation_iff p q)))

  backend_iff :
      (path : CodecPath) (encoder : Text)
      → FitsEncoder path encoder
      → Succeeds (transcode_backend_for_pipeline p path)
  unfolding transcode_backend_for_pipeline
  backend_iff CodecPath.passthrough encoder h = ground arith
  backend_iff CodecPath.software_transcode encoder h = (software, refl)
  backend_iff CodecPath.hardware_transcode encoder h = (pi4_hardware_encode, refl)
  backend_iff CodecPath.hardware_decode encoder h = (pi5_hardware_decode, refl)

  input_iff :
      (transport : Transport) (kind : InputType) (backend : ResolvedInputBackend)
      → Succeeds (input_spec_of p transport kind backend) ↔ (
          (kind ≡ InputType.rtsp)
          ⊎ ((backend ≡ ResolvedInputBackend.auto_device)
              ⊎ (backend ≡ ResolvedInputBackend.v4l2_device)))
  unfolding input_spec_of
  input_iff transport InputType.rtsp backend = (λ h. inl refl, λ h. (rtsp transport, refl))
  input_iff transport InputType.device ResolvedInputBackend.auto_device =
      (λ h. inr (inl refl), λ h. (_, refl))
  input_iff transport InputType.device ResolvedInputBackend.v4l2_device =
      (λ h. inr (inr refl), λ h. (_, refl))
  input_iff transport InputType.device ResolvedInputBackend.libcamera_device =
      (λ h. cc, λ h. ground arith)
  input_iff transport InputType.device ResolvedInputBackend.ffmpeg_rtsp =
      (λ h. cc, λ h. ground arith)

  transcode_mode_iff :
      (what : String) (duration : Duration)
      → Succeeds (transcode_mode assets p what duration) ↔ (
          (q : CompiledProcessingProfile) × (p.processing ≡ some q)
          × IsTranscodable p.codec_path q
          × HasAssets assets p.overlay)
  unfolding transcode_mode
  transcode_mode_iff what duration =
      let ready =
        then_iff (map_err_iff RuntimeError.adapter (validate_overlay_runtime assets p p.overlay))
          (overlay_iff p.overlay) in
      (
        λ h.
            let (q, is, rest) = (chain_iff (ok_or p.processing _) _).0 h in
            let (fits, later) = (seq_iff (validate_transcode_support p q) _).0 rest in
            let (assets_found, _) = (seq_iff _ _).0 later in
            (q, ok_or-eq-ok p.processing _ is, (transcode_iff q).0 fits, ready.0 assets_found),
        λ h.
            let (q, is, fits, needs) = h in
            let (backend, chosen) = backend_iff p.codec_path _ fits.0 in
            (chain_iff (ok_or p.processing _) _).1 (
              q,
              rw is refl,
              (seq_iff (validate_transcode_support p q) _).1 (
                (transcode_iff q).1 fits,
                (seq_iff _ _).1 (ready.1 needs, (chain_iff _ _).1 (backend, chosen, (_, refl))),
              ),
            ),
      )

  mode_iff :
      (duration : Duration) (strategy : StreamStrategy)
      → Succeeds (mode_of assets p duration strategy) ↔ (
          (strategy ≡ StreamStrategy.passthrough)
          ⊎ ((q : CompiledProcessingProfile) × (p.processing ≡ some q)
              × IsTranscodable p.codec_path q
              × HasAssets assets p.overlay))
  unfolding mode_of
  mode_iff duration StreamStrategy.passthrough = (λ h. inl refl, λ h. (passthrough duration, refl))
  mode_iff duration StreamStrategy.transcode =
      then_iff (transcode_mode_iff "transcode" duration)
        (λ h. inr h, λ h. elim h [ inl never ↦ cc | inr fits ↦ fits ])
  mode_iff duration StreamStrategy.hardware_decode =
      then_iff (transcode_mode_iff "hardware decode" duration)
        (λ h. inr h, λ h. elim h [ inl never ↦ cc | inr fits ↦ fits ])

  -- A pipeline gets a worker exactly if its input is RTSP or a device behind V4L2 or the automatic
  -- backend, and it is passed through or has a processing profile to transcode: h264, an encoder for
  -- its codec path, a positive frame rate, at most three quarter turns, and the files its overlay
  -- needs.
  pub worker_spec_for_pipeline-IsServable :
      Succeeds (worker_spec_for_pipeline assets p) ↔ IsServable assets p
  unfolding worker_spec_for_pipeline
  worker_spec_for_pipeline-IsServable =
      let input = input_iff (transport_of p.network) p.input.kind p.resolved_backend in
      let mode = mode_iff (duration_of p.processing) p.strategy in
      (
        λ h.
            let (i, is_input, rest) = (chain_iff _ _).0 h in
            let (m, is_mode, _) = (chain_iff _ _).0 rest in
            (input.0 (i, is_input), mode.0 (m, is_mode)),
        λ h.
            let (i, is_input) = input.1 h.0 in
            let (m, is_mode) = mode.1 h.1 in
            (chain_iff _ _).1 (i, is_input, (chain_iff _ _).1 (m, is_mode, (_, refl))),
      )
