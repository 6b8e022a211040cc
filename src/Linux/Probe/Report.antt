-- ===== src/Linux/Probe/Report.antt =====
-- The two capabilities of a Raspberry Pi that a report finds by the names of its devices.
use Prim.Native.String.{String}
use caml.Base.{
  ℕ, ◌≡◌, refl, ◌↔◌, ◌⊎◌, Bool, true, false, ◌||◌, ◌&&◌, not, List, [], ◌∷◌, Option, none, some,
  get_elem?, ap, ◌∙◌, sym, if◌then◌else◌,
}
use caml.Compiler.Host.{PiModel, pi4, pi5}
use caml.Frontend.{HardwareTarget, raspberry_pi4, raspberry_pi5, generic_linux}
use caml.Linux.Probe.Names.{HasAll, any_iff, or_by, and_by, any-filter_map, test, all_tokens-HasAll}
use caml.Linux.Probe.{
  Files, any_name_matches, all_tokens, is_model, is_pi5_target, detect_pi4_h264_encoder,
  detect_pi5_stateless_decoder, read_child_string, read_dir_entries, detect_pi_model, filter_map,
  video4linux_names, media_models, has_media_nodes, linux_report,
}
use caml.Text.{Text, codes, to_ascii_lowercase}

-- Some entry of the class `directory` has a file `child` that holds all tokens, in any case.
abbrev pub HasDevice : Files → Text → String → String → List String → Type 0
HasDevice files root directory child tokens =
    (i : ℕ) × (entry : Text) × (name : Text) × (get_elem?
        (read_dir_entries files root (codes directory)) i
      ≡ some entry)
    × (read_child_string files root child entry ≡ some name)
    × HasAll (to_ascii_lowercase name) tokens

abbrev pub HasVideo : Files → Text → List String → Type 0
HasVideo files root = HasDevice files root "/sys/class/video4linux" "name"

abbrev pub HasMedia : Files → Text → List String → Type 0
HasMedia files root = HasDevice files root "/sys/class/media" "model"

-- The devices that count as an encoder of a Pi 4, and as a decoder of a Pi 5.
abbrev pub HasPi4Encoder : Files → Text → Type 0
HasPi4Encoder files root =
    HasVideo files root ("bcm2835" ∷ "codec" ∷ "encode" ∷ [])
    ⊎ (HasMedia files root ("bcm2835" ∷ "codec" ∷ "encode" ∷ [])
        ⊎ HasVideo files root ("h264" ∷ "enc" ∷ []))

abbrev pub HasPi5Decoder : Files → Text → Option PiModel → Type 0
HasPi5Decoder files root model =
    HasVideo files root ("rpivid" ∷ [])
    ⊎ (HasVideo files root ("stateless" ∷ "decoder" ∷ [])
        ⊎ (HasMedia files root ("rpivid" ∷ [])
            ⊎ (HasMedia files root ("pisp" ∷ [])
                ⊎ ((model ≡ some pi5) × (has_media_nodes files root ≡ true)))))

is_model-eq :
    (found : Option PiModel) (model : PiModel)
    → (is_model found model ≡ true) ↔ (found ≡ some model)
is_model-eq none model = (λ h. cc, λ h. cc)
is_model-eq (some pi4) pi4 = (λ h. refl, λ h. refl)
is_model-eq (some pi5) pi5 = (λ h. refl, λ h. refl)
is_model-eq (some pi4) pi5 = (λ h. cc, λ h. cc)
is_model-eq (some pi5) pi4 = (λ h. cc, λ h. cc)

is_pi5_target-eq :
    (target : HardwareTarget) → (is_pi5_target target ≡ true) ↔ (target ≡ raspberry_pi5)
is_pi5_target-eq raspberry_pi4 = (λ h. cc, λ h. cc)
is_pi5_target-eq raspberry_pi5 = (λ h. refl, λ h. refl)
is_pi5_target-eq generic_linux = (λ h. cc, λ h. cc)

unless_not : (a b : Bool) → (if not a then false else b) ≡ (a && b)
unless_not true b = refl
unless_not false b = refl

unless_neither : (a b c : Bool) → (if not a && not b then false else c) ≡ ((a || b) && c)
unless_neither true b c = refl
unless_neither false true c = refl
unless_neither false false c = refl

module _ (files : Files) (root : Text) where
  test-some :
      (tokens : List String) (found : Option Text)
      → test (λ name. all_tokens (to_ascii_lowercase name) tokens) found ≡ true
      → (name : Text) × (found ≡ some name) × HasAll (to_ascii_lowercase name) tokens
  test-some tokens none h = cc
  test-some tokens (some name) h =
      (name, refl, (all_tokens-HasAll (to_ascii_lowercase name) tokens).0 h)

  device_iff :
      (directory child : String) (tokens : List String)
      → (any_name_matches
            (filter_map
              (read_child_string files root child)
              (read_dir_entries files root (codes directory)))
            tokens
          ≡ true)
        ↔ HasDevice files root directory child tokens
  unfolding any_name_matches
  device_iff directory child tokens =
      let p : Text → Bool = λ name. all_tokens (to_ascii_lowercase name) tokens in
      let f = read_child_string files root child in
      let entries = read_dir_entries files root (codes directory) in
      let same = any-filter_map p f entries in
      let found = any_iff (λ entry. test p (f entry)) entries in
      (
        λ h.
            let (i, entry, at, passes) = found.0 (sym same ∙ h) in
            let (name, is, all) = test-some tokens (f entry) passes in
            (i, entry, name, at, is, all),
        λ h.
            let (i, entry, name, at, is, all) = h in
            same
            ∙ found.1 (
              i,
              entry,
              at,
              ap (test p) is ∙ (all_tokens-HasAll (to_ascii_lowercase name) tokens).1 all,
            ),
      )

  detect_pi4_iff :
      (model : Option PiModel)
      → (detect_pi4_h264_encoder model (video4linux_names files root) (media_models files root)
          ≡ true)
        ↔ ((model ≡ some pi4) × HasPi4Encoder files root)
  unfolding detect_pi4_h264_encoder video4linux_names media_models
  detect_pi4_iff model =
      let video = device_iff "/sys/class/video4linux" "name" in
      let media = device_iff "/sys/class/media" "model" in
      let names = video4linux_names files root in
      let models = media_models files root in
      let encode : List String = "bcm2835" ∷ "codec" ∷ "encode" ∷ [] in
      let enc : List String = "h264" ∷ "enc" ∷ [] in
      rw
        (unless_not (is_model model pi4) (
          any_name_matches names encode
          || (any_name_matches models encode || any_name_matches names enc)))
        (and_by _ _ (is_model-eq model pi4)
          (or_by _ _ (video encode) (or_by _ _ (media encode) (video enc))))

  detect_pi5_iff :
      (target : HardwareTarget) (model : Option PiModel)
      → (detect_pi5_stateless_decoder target model
            (video4linux_names files root)
            (media_models files root)
            (has_media_nodes files root)
          ≡ true)
        ↔ (((target ≡ raspberry_pi5) ⊎ (model ≡ some pi5)) × HasPi5Decoder files root model)
  unfolding detect_pi5_stateless_decoder video4linux_names media_models
  detect_pi5_iff target model =
      let video = device_iff "/sys/class/video4linux" "name" in
      let media = device_iff "/sys/class/media" "model" in
      rw (unless_neither (is_pi5_target target) (is_model model pi5)) (
        and_by _ _ (or_by _ _ (is_pi5_target-eq target) (is_model-eq model pi5)) (
          or_by _ _ (video ("rpivid" ∷ [])) (
            or_by _ _ (video ("stateless" ∷ "decoder" ∷ [])) (
              or_by _ _ (media ("rpivid" ∷ [])) (
                or_by _ _ (media ("pisp" ∷ []))
                  (and_by _ _ (is_model-eq model pi5) (λ h. h, λ h. h)))))))

  -- A report says that there is a Pi 4 encoder exactly when the model is a Pi 4 and a device's name
  -- holds the tokens of one, and that there is a Pi 5 decoder exactly when the target or the model
  -- is a Pi 5 and a device's name holds the tokens of one, or the model is a Pi 5 with media nodes.
  pub linux_report-devices :
      (target : HardwareTarget)
      → (((linux_report files root target).has_pi4_h264_encoder ≡ true)
          ↔ (((linux_report files root target).pi_model ≡ some pi4) × HasPi4Encoder files root))
        × (((linux_report files root target).has_pi5_stateless_decoder ≡ true) ↔ (
            ((target ≡ raspberry_pi5) ⊎ ((linux_report files root target).pi_model ≡ some pi5))
            × HasPi5Decoder files root (linux_report files root target).pi_model))
  unfolding linux_report
  linux_report-devices target = (
    detect_pi4_iff (detect_pi_model files root),
    detect_pi5_iff target (detect_pi_model files root),
  )
