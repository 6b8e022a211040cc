-- ===== src/Ffmpeg/H264/Normalize.antt =====
-- `normalize_h264_payload`, with the configuration that `extract_h264_config` found.
use mathlib.Core.Option
use caml.Base.{
  ℕ, ◌≡◌, refl, ◌⊎◌, inl, inr, Bool, true, false, not, Bool-cases, ◌&&◌, ◌||◌, [], ◌∷◌, ◌++◌,
  is_empty, Option, none, some, Result, ok, err,
}
use caml.Text.{Text}
use caml.Ffmpeg.H264.{
  Bytes, H264Config, to_annex_b, looks_like_annex_b, extract_h264_config, avcc_to_annex_b,
  length_size_or_4, prefix_unless, with_parameter_sets, finish, normalize_h264_payload,
}
use caml.Ffmpeg.H264.Avcc.Loop.{avcc_to_annex_b-ends, IsAvcc-sound}
use caml.Ffmpeg.H264.Config.{
  IsAnnexB, annex_b-IsAnnexB, looks_like_annex_b-append, extract_h264_config-IsConfig,
}
use caml.Ffmpeg.H264.ParameterSets.{has_unit, has_unit-append_left}
use caml.Ffmpeg.H264.ParameterSets.Flags.{annex_b_parameter_sets-has_unit}

finish-eq-ok :
    (is_keyframe : Bool) (config : Option H264Config) (r : Option (Result Text Bytes)) {out : Bytes}
    → finish is_keyframe config r ≡ some (ok out)
    → (plain : Bytes) × (r ≡ some (ok plain))
      × ◌≡◌ {A = Option (Result Text Bytes)}
          (Option.map ok (with_parameter_sets is_keyframe config plain))
          (some (ok out))
finish-eq-ok is_keyframe config none h = cc
finish-eq-ok is_keyframe config (some (err why)) h = cc
finish-eq-ok is_keyframe config (some (ok plain)) h = (plain, refl, h)

with_parameter_sets_keyframe :
    (config : H264Config) (plain : Bytes)
    → with_parameter_sets true (some config) plain
      ≡ some (prefix_unless config plain (has_unit 7 plain, has_unit 8 plain))
unfolding with_parameter_sets
with_parameter_sets_keyframe config plain = rw (annex_b_parameter_sets-has_unit plain) refl

prefix_unless-has_unit :
    (config : H264Config) (plain : Bytes) (t : ℕ) (s p : Bool)
    → has_unit t config.parameter_sets_annexb ≡ true
    → (has_unit t plain ≡ true) ⊎ ((s && p) ≡ false)
    → has_unit t (prefix_unless config plain (s, p)) ≡ true
prefix_unless-has_unit config plain t true true in_sets (inl in_plain) = in_plain
prefix_unless-has_unit config plain t true true in_sets (inr missing) = cc
prefix_unless-has_unit config plain t true false in_sets h =
    has_unit-append_left t config.parameter_sets_annexb plain in_sets
prefix_unless-has_unit config plain t false p in_sets h =
    has_unit-append_left t config.parameter_sets_annexb plain in_sets

-- What a keyframe's output has, if the configuration has units of types 7 and 8.
either_way : (s p : Bool) → ((s ≡ true) × (p ≡ true)) ⊎ ((s && p) ≡ false)
either_way true true = inl (refl, refl)
either_way true false = inr refl
either_way false p = inr refl

-- A keyframe that is normalized with a configuration that has sequence and picture parameter sets
-- (units of types 7 and 8) comes out with both, whether or not it brought them along.
pub normalize_h264_payload-has_unit :
    (payload : Bytes) (config : H264Config) {out : Bytes}
    → has_unit 7 config.parameter_sets_annexb ≡ true
    → has_unit 8 config.parameter_sets_annexb ≡ true
    → normalize_h264_payload payload true (some config) ≡ some (ok out)
    → (has_unit 7 out ≡ true) × (has_unit 8 out ≡ true)
unfolding normalize_h264_payload
normalize_h264_payload-has_unit payload config {out} sps pps h =
    let (plain, got, done) = finish-eq-ok true (some config) (to_annex_b payload (some config)) h in
    let e : out ≡ prefix_unless config plain (has_unit 7 plain, has_unit 8 plain) =
      cc (rw (with_parameter_sets_keyframe config plain) at done) in
    rw e (elim (either_way (has_unit 7 plain) (has_unit 8 plain)) [
      | inl (s, p) ↦ (
        prefix_unless-has_unit config plain 7 _ _ sps (inl s),
        prefix_unless-has_unit config plain 8 _ _ pps (inl p),
      )
      | inr missing ↦ (
        prefix_unless-has_unit config plain 7 _ _ sps (inr missing),
        prefix_unless-has_unit config plain 8 _ _ pps (inr missing),
      )
    ])

-- What is returned, if no error, is in Annex B.
abbrev pub ReturnsAnnexB : Result Text Bytes → Type 0
ReturnsAnnexB (err why) = Unit {0}
ReturnsAnnexB (ok out) = looks_like_annex_b out ≡ true

some_bytes-looks_like_annex_b :
    (bytes : Bytes) → IsAnnexB bytes → is_empty bytes ≡ false → looks_like_annex_b bytes ≡ true
some_bytes-looks_like_annex_b bytes (inl none_in) some_in = cc
some_bytes-looks_like_annex_b bytes (inr looks) some_in = looks

to_annex_b-ReturnsAnnexB :
    (payload : Bytes) (config : Option H264Config)
    → is_empty payload ≡ false
    → (r : Result Text Bytes) × (to_annex_b payload config ≡ some r) × ReturnsAnnexB r
unfolding to_annex_b
to_annex_b-ReturnsAnnexB payload config some_in = elim (Bool-cases (looks_like_annex_b payload)) [
  | inl looks ↦ rw looks (ok payload, refl, looks)
  | inr other ↦
      let (r, e) = avcc_to_annex_b-ends payload (length_size_or_4 config) in
      rw other (r, e, converted r e)
]
  where
    converted :
        (r : Result Text Bytes)
        → avcc_to_annex_b payload (length_size_or_4 config) ≡ some r
        → ReturnsAnnexB r
    converted (err why) e = tt
    converted (ok out) e =
        let (low, high, (frames, bytes, all, done, some_unit)) =
          IsAvcc-sound payload (length_size_or_4 config) out e in
        elim (Bool-cases (is_empty out)) [
          | inl none_out ↦ let e = some_unit none_out in cc
          | inr some_out ↦
              some_bytes-looks_like_annex_b out (rw done (annex_b-IsAnnexB frames)) some_out
        ]

-- The parameter sets of a configuration that the code can find keep the form.
prefixed :
    (config : H264Config) (plain : Bytes) (flags : Bool × Bool)
    → IsAnnexB config.parameter_sets_annexb
    → looks_like_annex_b plain ≡ true
    → looks_like_annex_b (prefix_unless config plain flags) ≡ true
prefixed config plain (s, p) sets looks = elim (Bool-cases (not s || not p)) [
  | inr both ↦ rw both looks
  | inl missing ↦ rw missing (in_front config.parameter_sets_annexb sets)
]
  where
    in_front : (sets : Bytes) → IsAnnexB sets → looks_like_annex_b (sets ++ plain) ≡ true
    in_front [] b = looks
    in_front (a ∷ sets) (inl none_in) = cc
    in_front (a ∷ sets) (inr b) = looks_like_annex_b-append (a ∷ sets) plain b

-- With a configuration that `extract_h264_config` found, `normalize_h264_payload` answers on every
-- payload that is not empty, keyframe or not, and unless the answer is an error it is in Annex B: it
-- begins with a start code.
pub normalize_h264_payload-ReturnsAnnexB :
    (extradata : Option Bytes) (config : H264Config) (payload : Bytes) (is_keyframe : Bool)
    → extract_h264_config extradata ≡ ok (some config)
    → is_empty payload ≡ false
    → (r : Result Text Bytes) × (normalize_h264_payload payload is_keyframe (some config) ≡ some r)
      × ReturnsAnnexB r
unfolding normalize_h264_payload
normalize_h264_payload-ReturnsAnnexB extradata config payload is_keyframe found some_in =
    let (r, e, b) = to_annex_b-ReturnsAnnexB payload (some config) some_in in
    rw e (finishes r b is_keyframe)
  where
    finishes :
        (r : Result Text Bytes)
        → ReturnsAnnexB r
        → (is_keyframe : Bool)
        → (q : Result Text Bytes) × (finish is_keyframe (some config) (some r) ≡ some q)
          × ReturnsAnnexB q
    finishes (err why) b is_keyframe = (err why, refl, tt)
    finishes (ok plain) b false = (ok plain, refl, b)
    finishes (ok plain) b true =
        let (low, high, sets) = extract_h264_config-IsConfig extradata config found in
        rw (with_parameter_sets_keyframe config plain) (
          ok (prefix_unless config plain (has_unit 7 plain, has_unit 8 plain)),
          refl,
          prefixed config plain (has_unit 7 plain, has_unit 8 plain) sets b,
        )
