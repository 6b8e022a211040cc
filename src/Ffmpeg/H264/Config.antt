-- ===== src/Ffmpeg/H264/Config.antt =====
-- The configurations that `extract_h264_config` finds.

use caml.Base.{
  ℕ, zero, suc, ◌+◌, ◌%◌, ◌≤◌, ◌≡◌, refl, subst, ◌⊎◌, inl, inr, true, Bool-cases, List, [], ◌∷◌,
  ◌++◌, length, is_empty, Option, none, some, ltb, leb, ◌==◌, arith, ok, >>=-eq-ok,
}
use caml.Text.{starts_with}
use caml.Ffmpeg.H264.{
  Bytes, H264Config, start_code, short_start_code, looks_like_annex_b, read_avcc_unit,
  read_avcc_units, parse_pps, parse_avcc_extradata, extract_h264_config, byte_at,
}
use caml.Ffmpeg.H264.Avcc.{annex_b}

-- Bytes in Annex B, if any.
abbrev pub IsAnnexB : Bytes → Type 0
IsAnnexB bytes = (is_empty bytes ≡ true) ⊎ (looks_like_annex_b bytes ≡ true)

code-looks_like_annex_b : (bytes : Bytes) → looks_like_annex_b (start_code ++ bytes) ≡ true
unfolding looks_like_annex_b
code-looks_like_annex_b bytes = refl

pub annex_b-IsAnnexB : (frames : List (Bytes × Bytes)) → IsAnnexB (annex_b frames)
annex_b-IsAnnexB [] = inl refl
annex_b-IsAnnexB ((field, []) ∷ frames) = annex_b-IsAnnexB frames
annex_b-IsAnnexB ((field, b ∷ unit) ∷ frames) =
    inr (code-looks_like_annex_b ((b ∷ unit) ++ annex_b frames))

starts_with-longer :
    (front back code : Bytes)
    → starts_with front code ≡ true
    → starts_with (front ++ back) code ≡ true
unfolding starts_with
starts_with-longer front back [] h = refl
starts_with-longer [] back (c ∷ code) h = cc
starts_with-longer (a ∷ front) back (c ∷ code) h =
    ground (arith, starts_with-longer front back code)

pub looks_like_annex_b-append :
    (front back : Bytes)
    → looks_like_annex_b front ≡ true
    → looks_like_annex_b (front ++ back) ≡ true
unfolding looks_like_annex_b
looks_like_annex_b-append front back h = ground (
  arith,
  starts_with-longer front back start_code,
  starts_with-longer front back short_start_code,
)

append-IsAnnexB : (front back : Bytes) → IsAnnexB front → IsAnnexB back → IsAnnexB (front ++ back)
append-IsAnnexB [] back none_in all = all
append-IsAnnexB (a ∷ front) back (inl h) all = cc
append-IsAnnexB (a ∷ front) back (inr h) all = inr (looks_like_annex_b-append (a ∷ front) back h)

read_avcc_units-IsAnnexB :
    (count : ℕ) (bytes : Bytes) (cursor : ℕ) (output : Bytes) {r : ℕ × Bytes}
    → IsAnnexB output
    → read_avcc_units count bytes cursor output ≡ ok r
    → IsAnnexB r.1
unfolding read_avcc_units
read_avcc_units-IsAnnexB zero bytes cursor output {r} b h =
    let e : ◌≡◌ {A = ℕ × Bytes} (cursor, output) r = cc in subst (λ q. IsAnnexB q.1) e b
read_avcc_units-IsAnnexB (suc count) bytes cursor output b h =
    let (unit, read, later) =
      >>=-eq-ok (read_avcc_unit bytes cursor)
        (λ r. read_avcc_units count bytes r.0 (output ++ (start_code ++ r.1))) h in
    read_avcc_units-IsAnnexB count bytes unit.0 (output ++ (start_code ++ unit.1))
      (append-IsAnnexB output (start_code ++ unit.1) b (inr (code-looks_like_annex_b unit.1))) later

-- A configuration that the code can find.
abbrev pub IsConfig : ℕ × Bytes → Type 0
IsConfig (size, sets) = (1 ≤ size) × (size ≤ 4) × IsAnnexB sets

parse_pps-IsConfig :
    (extradata : Bytes) (size cursor : ℕ) (sets : Bytes) {r : ℕ × Bytes}
    → IsConfig (size, sets)
    → parse_pps extradata size (cursor, sets) ≡ ok r
    → IsConfig r
parse_pps-IsConfig extradata size cursor sets {r} (low, high, b) h =
    elim (Bool-cases (leb (length extradata) cursor)) [
      | inl over ↦
          let done = rw over at h in
          let e : ◌≡◌ {A = ℕ × Bytes} (size, sets) r = cc in subst IsConfig e (low, high, b)
      | inr more ↦
          let (q, read, done) = >>=-eq-ok _ _ (rw more at h) in
          let e : ◌≡◌ {A = ℕ × Bytes} (size, q.1) r = cc in
          subst IsConfig e (low, high, read_avcc_units-IsAnnexB _ extradata _ sets b read)
    ]

parse_avcc_extradata-IsConfig :
    (extradata : Bytes) {r : ℕ × Bytes} → parse_avcc_extradata extradata ≡ ok r → IsConfig r
unfolding parse_avcc_extradata
parse_avcc_extradata-IsConfig extradata h = elim (Bool-cases (ltb (length extradata) 7)) [
  | inl short ↦ let e = rw short at h in cc
  | inr long ↦
      let (q, read, later) =
        >>=-eq-ok (read_avcc_units (byte_at extradata 5 % 32) extradata 6 [])
          (λ r. parse_pps extradata (byte_at extradata 4 % 4 + 1) r) (rw long at h) in
      parse_pps-IsConfig extradata (byte_at extradata 4 % 4 + 1) q.0 q.1
        (
          omega arith,
          omega arith,
          read_avcc_units-IsAnnexB (byte_at extradata 5 % 32) extradata 6 [] (inl refl) read,
        )
        later
]

pub extract_h264_config-IsConfig :
    (extradata : Option Bytes) (config : H264Config)
    → extract_h264_config extradata ≡ ok (some config)
    → IsConfig (config.nalu_length_size, config.parameter_sets_annexb)
unfolding extract_h264_config
extract_h264_config-IsConfig none config h = cc
extract_h264_config-IsConfig (some []) config h = cc
extract_h264_config-IsConfig (some (version ∷ rest)) config h =
    elim (Bool-cases (looks_like_annex_b (version ∷ rest))) [
      | inl annexed ↦
          let done = rw annexed at h in
          let e : record { nalu_length_size = 4; parameter_sets_annexb = version ∷ rest } ≡ config =
            cc in
          rw (← e) (omega arith, omega arith, inr annexed)
      | inr other ↦ elim (Bool-cases (version == 1)) [
        | inr unknown ↦ let done = rw (other, unknown) at h in cc
        | inl one ↦
            let (r, parsed, done) =
              >>=-eq-ok (parse_avcc_extradata (version ∷ rest)) _ (rw (other, one) at h) in
            let e : record { nalu_length_size = r.0; parameter_sets_annexb = r.1 } ≡ config = cc in
            rw (← e) (parse_avcc_extradata-IsConfig (version ∷ rest) parsed)
      ]
    ]
