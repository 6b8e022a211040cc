-- ===== src/Units/Durations.antt =====
-- The three ways to write a duration.
use caml.Base.{
  ℕ, ◌*◌, ◌≤◌, ◌≡◌, refl, true, false, some, none, ◌++◌, [], ◌∷◌, arith, ok, err, All, is_empty,
  leb, if◌then◌else◌,
}
use caml.Text.Decimal.{show_u64-IsNumber, parse_u64-show_u64, trim-show_u64}
use caml.Text.Equality.{text_eq_refl}
use caml.Text.{Text, codes, u64_max, is_ascii_digit, is_whitespace, strip_suffix, text_eq, show_u64}
use caml.Units.{parse_duration, from_millis, from_secs, checked_mul}

abbrev AllDigits : Text → Type 0
AllDigits s = All (λ d. is_ascii_digit d ≡ true) s

-- Behind a run of digits the suffix is found where it stands, if it begins with no digit.
strip_digits :
    (s u : Text) (c : ℕ) (t : Text)
    → AllDigits s
    → is_ascii_digit c ≡ false
    → strip_suffix u (c ∷ t) ≡ none
    → strip_suffix (s ++ u) (c ∷ t) ≡ none
unfolding strip_suffix is_ascii_digit text_eq
strip_digits [] u c t all h e = e
strip_digits (d ∷ s) u c t all h e = ground (arith, strip_digits s u c t all.1 h e)

strip_found :
    (s : Text) (c : ℕ) (t : Text)
    → AllDigits s
    → is_ascii_digit c ≡ false
    → strip_suffix (s ++ c ∷ t) (c ∷ t) ≡ some s
unfolding strip_suffix is_ascii_digit text_eq
strip_found [] c t all h = ground (arith, text_eq_refl t)
strip_found (d ∷ s) c t all h = ground (arith, strip_found s c t all.1 h)

not_empty : (s : Text) (u : ℕ) (us : Text) → is_empty (s ++ u ∷ us) ≡ false
not_empty [] u us = refl
not_empty (c ∷ s) u us = refl

digits_of : (n : ℕ) → n ≤ u64_max → AllDigits (show_u64 n)
digits_of n h = let (c, rest, e, all) = show_u64-IsNumber n h in rw e all

millis_lem : (n : ℕ) → n ≤ u64_max → parse_duration (show_u64 n ++ codes "ms") ≡ ok (from_millis n)
unfolding parse_duration codes is_whitespace is_ascii_digit
millis_lem n h = rw (
  trim-show_u64 n (b'm' ∷ []) b's' h refl,
  not_empty (show_u64 n) b'm' (b's' ∷ []),
  strip_found (show_u64 n) b'm' (b's' ∷ []) (digits_of n h) refl,
  parse_u64-show_u64 n h,
)

secs_lem : (n : ℕ) → n ≤ u64_max → parse_duration (show_u64 n ++ codes "s") ≡ ok (from_secs n)
unfolding parse_duration codes is_whitespace is_ascii_digit strip_suffix
secs_lem n h = rw (
  trim-show_u64 n [] b's' h refl,
  not_empty (show_u64 n) b's' [],
  strip_digits (show_u64 n) (b's' ∷ []) b'm' (b's' ∷ []) (digits_of n h) refl refl,
  strip_found (show_u64 n) b's' [] (digits_of n h) refl,
  parse_u64-show_u64 n h,
)

mins_lem :
    (n : ℕ)
    → n ≤ u64_max
    → parse_duration (show_u64 n ++ codes "m") ≡ (
        if leb (n * 60) u64_max
        then ok (from_secs (n * 60))
        else err (codes "Invalid duration format. Value exceeds supported range."))
unfolding parse_duration codes is_whitespace is_ascii_digit strip_suffix checked_mul
mins_lem n h =
    rw
      (
        trim-show_u64 n [] b'm' h refl,
        not_empty (show_u64 n) b'm' [],
        strip_digits (show_u64 n) (b'm' ∷ []) b'm' (b's' ∷ []) (digits_of n h) refl refl,
        strip_digits (show_u64 n) (b'm' ∷ []) b's' [] (digits_of n h) refl refl,
        strip_found (show_u64 n) b'm' [] (digits_of n h) refl,
        parse_u64-show_u64 n h,
      )
      (ground arith)

-- A u64 with the suffix ms, s or m is read as that many milliseconds, seconds or minutes, and
-- minutes whose seconds do not fit a u64 are refused.
pub parse_duration-show_u64 :
    (n : ℕ)
    → n ≤ u64_max
    → (parse_duration (show_u64 n ++ codes "ms") ≡ ok (from_millis n))
      × (parse_duration (show_u64 n ++ codes "s") ≡ ok (from_secs n))
      × (parse_duration (show_u64 n ++ codes "m") ≡ (
          if leb (n * 60) u64_max
          then ok (from_secs (n * 60))
          else err (codes "Invalid duration format. Value exceeds supported range.")))
parse_duration-show_u64 n h = (millis_lem n h, secs_lem n h, mins_lem n h)
