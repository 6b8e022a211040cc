-- ===== src/Units/Sound.antt =====
-- What a text must look like for `from_str` to accept it, and the number that it then stands for.
use caml.Base.{
  ℕ, ◌*◌, ◌≤◌, ◌≡◌, refl, ap, true, Option, some, none, Bool-cases, inl, inr, reject_if, ok_or,
  is_empty, ◌++◌, [], ◌∷◌, arith, ok, All, >>=-eq-ok, ok_or-eq-ok,
}
use caml.Text.{
  Text, trim, u64_max, to_ascii_lowercase, to_ascii_uppercase, is_ascii_digit, split_at_non_digit,
  parse_u64, split_more,
}
use caml.Units.{
  ByteSize, Bitrate, parse_byte_size, byte_multiplier, parse_bitrate, bitrate_multiplier,
  checked_mul,
}

-- `s` is a number of digits and a unit, which stand for `n` in all.
pub record Measures (multiplier : Text → Option ℕ) (normal : Text → Text) (s : Text) (n : ℕ)
    : Type 0 where
  pub digits : Text
  pub unit : Text
  pub value : ℕ
  pub factor : ℕ
  pub splits : s ≡ digits ++ unit
  pub all_digits : All (λ d. is_ascii_digit d ≡ true) digits
  pub has_value : parse_u64 digits ≡ some value
  pub has_factor : multiplier (normal (trim unit)) ≡ some factor
  pub product : n ≡ value * factor
  pub in_range : n ≤ u64_max

abbrev Splits : Text → Option (Text × Text) → Type 0
Splits s none = Unit {0}
Splits s (some (digits, unit)) = (s ≡ digits ++ unit) × All (λ d. is_ascii_digit d ≡ true) digits

split_more-Splits :
    (c : ℕ) (s : Text) (o : Option (Text × Text))
    → is_ascii_digit c ≡ true
    → Splits s o
    → Splits (c ∷ s) (split_more c o)
split_more-Splits c s none d h = tt
split_more-Splits c s (some (digits, unit)) d h = (ap (◌∷◌ c) h.0, (d, h.1))

split-Splits : (s : Text) → Splits s (split_at_non_digit s)
unfolding split_at_non_digit
split-Splits [] = tt
split-Splits (c ∷ s) = elim (Bool-cases (is_ascii_digit c)) [
  | inl d ↦ rw d (split_more-Splits c s (split_at_non_digit s) d (split-Splits s))
  | inr d ↦ rw d (refl, tt)
]

checked_mul-eq-some : (a b n : ℕ) → checked_mul a b ≡ some n → (n ≡ a * b) × (n ≤ u64_max)
unfolding checked_mul
checked_mul-eq-some a b n h = ground arith

-- The common end of the two parsers: a split, a value, a factor and their product.
measured :
    (multiplier : Text → Option ℕ) (normal : Text → Text) (s digits unit : Text)
    (value factor n : ℕ)
    → split_at_non_digit s ≡ some (digits, unit)
    → parse_u64 digits ≡ some value
    → multiplier (normal (trim unit)) ≡ some factor
    → checked_mul value factor ≡ some n
    → Measures multiplier normal s n
measured multiplier normal s digits unit value factor n hs hv hf hp =
    let parts = rw hs at (split-Splits s) in
    let product = checked_mul-eq-some value factor n hp in
    record {
      digits = digits;
      unit = unit;
      value = value;
      factor = factor;
      splits = parts.0;
      all_digits = parts.1;
      has_value = hv;
      has_factor = hf;
      product = product.0;
      in_range = product.1;
    }

parse_byte_size-Measures :
    (input : Text) (s : ByteSize)
    → parse_byte_size input ≡ ok s
    → Measures byte_multiplier to_ascii_uppercase (trim input) s.as_bytes
unfolding parse_byte_size
parse_byte_size-Measures input s h =
    let (_, _, h1) = >>=-eq-ok (reject_if (is_empty (trim input)) _) _ h in
    let (du, e2, h2) = >>=-eq-ok (ok_or (split_at_non_digit (trim input)) _) _ h1 in
    let (value, e3, h3) = >>=-eq-ok (ok_or (parse_u64 du.0) _) _ h2 in
    let (factor, e4, h4) =
      >>=-eq-ok (ok_or (byte_multiplier (to_ascii_uppercase (trim du.1))) _) _ h3 in
    let (n, e5, h5) = >>=-eq-ok (ok_or (checked_mul value factor) _) _ h4 in
    let same : s.as_bytes ≡ n = cc in
    rw same (
      measured byte_multiplier to_ascii_uppercase (trim input) du.0 du.1 value factor n
        (ok_or-eq-ok _ _ e2) (ok_or-eq-ok _ _ e3) (ok_or-eq-ok _ _ e4) (ok_or-eq-ok _ _ e5))

parse_bitrate-Measures :
    (input : Text) (b : Bitrate)
    → parse_bitrate input ≡ ok b
    → Measures bitrate_multiplier to_ascii_lowercase (trim input) b.as_bits_per_second
unfolding parse_bitrate
parse_bitrate-Measures input b h =
    let (_, _, h1) = >>=-eq-ok (reject_if (is_empty (trim input)) _) _ h in
    let (du, e2, h2) = >>=-eq-ok (ok_or (split_at_non_digit (trim input)) _) _ h1 in
    let (value, e3, h3) = >>=-eq-ok (ok_or (parse_u64 du.0) _) _ h2 in
    let (factor, e4, h4) =
      >>=-eq-ok (ok_or (bitrate_multiplier (to_ascii_lowercase (trim du.1))) _) _ h3 in
    let (n, e5, h5) = >>=-eq-ok (ok_or (checked_mul value factor) _) _ h4 in
    let same : b.as_bits_per_second ≡ n = cc in
    rw same (
      measured bitrate_multiplier to_ascii_lowercase (trim input) du.0 du.1 value factor n
        (ok_or-eq-ok _ _ e2) (ok_or-eq-ok _ _ e3) (ok_or-eq-ok _ _ e4) (ok_or-eq-ok _ _ e5))

-- A byte size and a bit rate are accepted only as digits and a unit, and each is the product of the
-- two, within a u64.
pub parse-Measures :
    (size rate : Text) (s : ByteSize) (b : Bitrate)
    → parse_byte_size size ≡ ok s
    → parse_bitrate rate ≡ ok b
    → Measures byte_multiplier to_ascii_uppercase (trim size) s.as_bytes
      × Measures bitrate_multiplier to_ascii_lowercase (trim rate) b.as_bits_per_second
parse-Measures size rate s b is_size is_rate =
    (parse_byte_size-Measures size s is_size, parse_bitrate-Measures rate b is_rate)
