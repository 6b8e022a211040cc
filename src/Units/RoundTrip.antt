-- ===== src/Units/RoundTrip.antt =====
-- What `Display` writes, `from_str` reads back.
use caml.Base.{ℕ, ◌≤◌, ◌≡◌, refl, ◌++◌, ◌∷◌, [], arith, ok, some, is_empty, false}
use caml.Text.Decimal.{parse_u64-show_u64, split-show_u64, trim-show_u64}
use caml.Text.{
  Text, codes, text_eq, trim, to_ascii_lowercase, to_ascii_uppercase, u64_max, show_u64,
  is_whitespace, is_ascii_digit,
}
use caml.Units.{
  ByteSize, Bitrate, parse_byte_size, show_byte_size, byte_multiplier, parse_bitrate, show_bitrate,
  bitrate_multiplier, checked_mul,
}

checked_mul-one : (n : ℕ) → n ≤ u64_max → checked_mul n 1 ≡ some n
unfolding checked_mul
checked_mul-one n h = ground arith

byte_unit : byte_multiplier (to_ascii_uppercase (trim (b'B' ∷ []))) ≡ some 1
unfolding byte_multiplier to_ascii_uppercase trim codes text_eq
byte_unit = refl

bit_unit : bitrate_multiplier (to_ascii_lowercase (trim (b'b' ∷ b'p' ∷ b's' ∷ []))) ≡ some 1
unfolding bitrate_multiplier to_ascii_lowercase trim codes text_eq
bit_unit = refl

-- A number with a unit is not empty.
not_empty : (s : Text) (u : ℕ) (us : Text) → is_empty (s ++ u ∷ us) ≡ false
not_empty [] u us = refl
not_empty (c ∷ s) u us = refl

parse_byte_size-show_byte_size :
    (s : ByteSize) → s.as_bytes ≤ u64_max → parse_byte_size (show_byte_size s) ≡ ok s
unfolding parse_byte_size show_byte_size codes is_whitespace is_ascii_digit
parse_byte_size-show_byte_size s h = rw (
  trim-show_u64 s.as_bytes [] b'B' h refl,
  not_empty (show_u64 s.as_bytes) b'B' [],
  split-show_u64 s.as_bytes b'B' [] h refl,
  parse_u64-show_u64 s.as_bytes h,
  byte_unit,
  checked_mul-one s.as_bytes h,
)

parse_bitrate-show_bitrate :
    (b : Bitrate) → b.as_bits_per_second ≤ u64_max → parse_bitrate (show_bitrate b) ≡ ok b
unfolding parse_bitrate show_bitrate codes is_whitespace is_ascii_digit
parse_bitrate-show_bitrate b h = rw (
  trim-show_u64 b.as_bits_per_second (b'b' ∷ b'p' ∷ []) b's' h refl,
  not_empty (show_u64 b.as_bits_per_second) b'b' (b'p' ∷ b's' ∷ []),
  split-show_u64 b.as_bits_per_second b'b' (b'p' ∷ b's' ∷ []) h refl,
  parse_u64-show_u64 b.as_bits_per_second h,
  bit_unit,
  checked_mul-one b.as_bits_per_second h,
)

-- Every byte size and every bit rate of a u64 is read back from its display.
pub parse-show :
    (s : ByteSize) (b : Bitrate)
    → s.as_bytes ≤ u64_max
    → b.as_bits_per_second ≤ u64_max
    → (parse_byte_size (show_byte_size s) ≡ ok s) × (parse_bitrate (show_bitrate b) ≡ ok b)
parse-show s b hs hb = (parse_byte_size-show_byte_size s hs, parse_bitrate-show_bitrate b hb)
