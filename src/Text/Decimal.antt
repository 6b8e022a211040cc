-- ===== src/Text/Decimal.antt =====
-- Reading a decimal number gives back what was written, whatever stands behind it.
use native.Mathlib.Nat.{pow-suc}
use caml.Base.{
  ℕ, zero, suc, ◌+◌, ◌-◌, ◌*◌, ◌/◌, ◌%◌, ◌^◌, ◌≤◌, ◌<◌, ◌≡◌, refl, true, false, some, [], ◌∷◌, ◌++◌,
  arith, leb, Bool-cases, inl, inr, ap, ◌∙◌, All, All-append,
}
use caml.Text.{
  Text, u64_max, parse_digits, parse_u64, decimal, show_u64, is_ascii_digit, is_whitespace, trim,
  split_at_non_digit, split_more,
}
use caml.Text.Trim.{trim_fixed}
use mathlib.Core.List.{append_assoc}

-- What is read of a text and one more digit.
parse_digits-concat :
    (s : Text) (a v d : ℕ)
    → parse_digits a s ≡ some v
    → d < 10
    → v * 10 + d ≤ u64_max
    → parse_digits a (s ++ (b'0' + d) ∷ []) ≡ some (v * 10 + d)
unfolding parse_digits
parse_digits-concat [] a v d e h m = ground arith
parse_digits-concat (c ∷ s) a v d e h m =
    ground (arith, parse_digits-concat s (a * 10 + (c - b'0')) v d)

parse_digits-decimal : (k n : ℕ) → n < 10 ^ k → n ≤ u64_max → parse_digits 0 (decimal k n) ≡ some n
unfolding decimal parse_digits
parse_digits-decimal zero n h m = ground arith
parse_digits-decimal (suc k) n h m = ground (
  arith,
  pow-suc 10 k,
  parse_digits-decimal k (n / 10),
  parse_digits-concat (decimal k (n / 10)) 0 (n / 10) (n % 10),
)

-- A decimal number begins with a digit and holds nothing but digits.
abbrev IsNumber : Text → Type 0
IsNumber s =
    (c : ℕ) × (rest : Text) × (s ≡ c ∷ rest) × All (λ d. is_ascii_digit d ≡ true) (c ∷ rest)

IsNumber-concat : (s : Text) (d : ℕ) → d < 10 → IsNumber s → IsNumber (s ++ (b'0' + d) ∷ [])
unfolding is_ascii_digit
IsNumber-concat s d h (c, rest, e, all) = (
  c,
  rest ++ (b'0' + d) ∷ [],
  rw e,
  (all.0, All-append _ rest ((b'0' + d) ∷ []) all.1 (ground arith, tt)),
)

decimal-IsNumber : (k n : ℕ) → n < 10 ^ suc k → IsNumber (decimal (suc k) n)
unfolding decimal is_ascii_digit
decimal-IsNumber zero n h =
    rw (let small : leb 10 n ≡ false = ground arith in small)
      (b'0' + n, [], refl, (ground arith, tt))
decimal-IsNumber (suc k) n h = elim (Bool-cases (leb 10 n)) [
  | inl more ↦ rw more (
      IsNumber-concat (decimal (suc k) (n / 10)) (n % 10) (omega arith)
        (decimal-IsNumber k (n / 10) (omega (arith, pow-suc 10 (suc k)))))
  | inr one ↦ rw one (b'0' + n, [], refl, (ground arith, tt))
]

pub show_u64-IsNumber : (n : ℕ) → n ≤ u64_max → IsNumber (show_u64 n)
unfolding show_u64
show_u64-IsNumber n h = decimal-IsNumber 19 n (omega arith)

-- A text of digits alone is read without a look for a sign.
parse_u64-digits : (s : Text) → IsNumber s → parse_u64 s ≡ parse_digits 0 s
unfolding parse_u64 is_ascii_digit
parse_u64-digits s (c, [], e, all) = rw e (ground arith)
parse_u64-digits s (c, d ∷ rest, e, all) = rw e (ground arith)

pub parse_u64-show_u64 : (n : ℕ) → n ≤ u64_max → parse_u64 (show_u64 n) ≡ some n
unfolding show_u64
parse_u64-show_u64 n h =
    parse_u64-digits (decimal 20 n) (show_u64-IsNumber n h)
    ∙ parse_digits-decimal 20 n (omega arith) h

split_digits :
    (s : Text) (u : ℕ) (us : Text)
    → All (λ d. is_ascii_digit d ≡ true) s
    → is_ascii_digit u ≡ false
    → split_at_non_digit (s ++ u ∷ us) ≡ some (s, u ∷ us)
unfolding split_at_non_digit
split_digits [] u us all h = rw h
split_digits (c ∷ s) u us all h = rw all.0 (ap (split_more c) (split_digits s u us all.1 h))

-- The split finds the end of a number.
pub split-show_u64 :
    (n u : ℕ) (us : Text)
    → n ≤ u64_max
    → is_ascii_digit u ≡ false
    → split_at_non_digit (show_u64 n ++ u ∷ us) ≡ some (show_u64 n, u ∷ us)
split-show_u64 n u us h hu =
    let (c, rest, e, all) = show_u64-IsNumber n h in rw e (split_digits (c ∷ rest) u us all hu)

digit-not_whitespace : (c : ℕ) → is_ascii_digit c ≡ true → is_whitespace c ≡ false
unfolding is_ascii_digit is_whitespace
digit-not_whitespace c h = ground arith

-- A number with a unit behind it is not trimmed.
pub trim-show_u64 :
    (n : ℕ) (us : Text) (u : ℕ)
    → n ≤ u64_max
    → is_whitespace u ≡ false
    → trim (show_u64 n ++ (us ++ u ∷ [])) ≡ show_u64 n ++ (us ++ u ∷ [])
trim-show_u64 n us u h hu =
    let (c, rest, e, all) = show_u64-IsNumber n h in
    rw (e, ← append_assoc) (trim_fixed c (rest ++ us) u (digit-not_whitespace c all.0) hu)
