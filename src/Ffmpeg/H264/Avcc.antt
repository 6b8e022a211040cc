-- ===== src/Ffmpeg/H264/Avcc.antt =====
-- What `avcc_to_annex_b` is meant to do, on a payload as a sequence of frames.
pub mod Rounds
pub mod Loop
use mathlib.Core.Option
use mathlib.Core.List.{append_assoc, append-nil}
use native.Mathlib.Nat.{add-zero}
use caml.Base.{
  ℕ, zero, suc, ◌+◌, ◌-◌, ◌*◌, ◌≤◌, ◌<◌, ◌≡◌, refl, sym, ap, subst, ◌∙◌, ◌≢◌, ◌⊎◌, inl, inr, Bool,
  true, false, Bool-cases, not, ◌&&◌, List, [], ◌∷◌, ◌++◌, length, is_empty, All, Option, none,
  some, ltb, leb, ◌==◌, if◌then◌else◌, Result, ok, err, ◌>>=◌, ok_or, arith, tests, lt→ltb, ◌↔◌,
  drop, length-append, >>=-eq-ok, ok_or-eq-ok, Result-cases,
}
use caml.Text.{Text, codes, u64_max}
use caml.Ffmpeg.H264.{
  Bytes, start_code, slice, checked_add, big_endian, copy_unit, avcc_round, then_round, avcc_loop,
  has_units, avcc_to_annex_b,
}
use caml.Ffmpeg.H264.Slices.{
  drop-slice, length-slice, slice_front, drop_behind, drop-length, length-drop, drop_end,
}

-- A length field and its unit, with lengths of `size` bytes.
abbrev pub Frame : Type 0
Frame = Bytes × Bytes

abbrev pub IsFrame : ℕ → Frame → Type 0
IsFrame size (field, unit) = (length field ≡ size) × (big_endian 0 field ≡ length unit)

-- What the frames are in AVCC, and in Annex B, where empty units are left out.
abbrev pub avcc : List Frame → Bytes
avcc [] = []
avcc ((field, unit) ∷ frames) = field ++ (unit ++ avcc frames)

abbrev pub marked : Bytes → Bytes
marked [] = []
marked (b ∷ unit) = start_code ++ (b ∷ unit)

abbrev pub annex_b : List Frame → Bytes
annex_b [] = []
annex_b ((field, unit) ∷ frames) = marked unit ++ annex_b frames

-- A payload that is made of frames, with an empty one or none only if the payload is empty.
abbrev pub IsAvcc : ℕ → Bytes → Bytes → Type 0
IsAvcc size payload output =
    (frames : List Frame) × (payload ≡ avcc frames)
    × All (IsFrame size) frames
    × (output ≡ annex_b frames)
    × (is_empty output ≡ true → is_empty payload ≡ true)
