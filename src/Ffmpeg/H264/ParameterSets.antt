-- ===== src/Ffmpeg/H264/ParameterSets.antt =====
-- What `annex_b_parameter_sets` is meant to find: a look at every place of the payload.
pub mod Search
pub mod Flags
use caml.Base.{
  ℕ, zero, suc, ◌+◌, ◌-◌, ◌*◌, ◌/◌, ◌%◌, ◌≤◌, ◌<◌, ◌≡◌, refl, sym, ap, subst, ◌∙◌, ◌≢◌, ◌↔◌, ◌⊎◌,
  inl, inr, Bool, true, false, Bool-cases, Option-cases, ◌&&◌, ◌||◌, List, [], ◌∷◌, ◌++◌, length,
  Option, none, some, ltb, leb, drop, take, ◌==◌, if◌then◌else◌, arith, length-append,
}
use caml.Text.{Text, text_eq}
use caml.Text.Equality.{text_eq_iff}
use caml.Ffmpeg.H264.{
  Bytes, start_code, short_start_code, slice, byte_at, find_from, find_start_code, offset_or_end,
  mark_unit, then_unit, parameter_sets_loop, annex_b_parameter_sets,
}
use caml.Ffmpeg.H264.Slices.{
  byte_at-drop, drop-byte_at, drop-slice, slice_front, drop_behind, drop-length, length-drop,
  drop_end, length-slice,
}

-- A unit of type `t` opens the bytes, or a unit of that type stands behind a start code somewhere.
abbrev pub has_type : ℕ → Bytes → Bool
has_type t [] = false
has_type t (b ∷ unit) = b % 32 == t

abbrev pub opens_unit : ℕ → Bytes → Bool
opens_unit t (a ∷ b ∷ c ∷ unit) = a == 0 && (b == 0 && (c == 1 && has_type t unit))
opens_unit t _ = false

abbrev pub has_unit : ℕ → Bytes → Bool
has_unit t [] = false
has_unit t (b ∷ bytes) = opens_unit t (b ∷ bytes) || has_unit t bytes

-- What a part has, the whole has.
pub has_unit-append_left :
    (t : ℕ) (front back : Bytes) → has_unit t front ≡ true → has_unit t (front ++ back) ≡ true
has_unit-append_left t [] back h = cc
has_unit-append_left t (a ∷ front) back h = elim (Bool-cases (opens_unit t (a ∷ front))) [
  | inl opens ↦ rw (opens-append t (a ∷ front) back opens) refl
  | inr shut ↦ ground (arith, has_unit-append_left t front back)
]
  where
    opens-append :
        (t : ℕ) (front back : Bytes)
        → opens_unit t front ≡ true
        → opens_unit t (front ++ back) ≡ true
    opens-append t [] back h = cc
    opens-append t (a ∷ []) back h = cc
    opens-append t (a ∷ b ∷ []) back h = cc
    opens-append t (a ∷ b ∷ c ∷ []) back h = ground arith
    opens-append t (a ∷ b ∷ c ∷ d ∷ front) back h = h

pub has_unit-append_right :
    (t : ℕ) (front back : Bytes) → has_unit t back ≡ true → has_unit t (front ++ back) ≡ true
has_unit-append_right t [] back h = h
has_unit-append_right t (a ∷ front) back h = ground (arith, has_unit-append_right t front back h)
