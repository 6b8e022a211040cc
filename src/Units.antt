-- ===== src/Units.antt =====
-- crates/caml-core/src/units.rs: sizes in bytes, bit rates and durations as the manifest writes
-- them. `ByteSize` and `Bitrate` wrap a u64; a `Duration` is its number of nanoseconds. The serde
-- wrappers hand a YAML string to these functions and are not modelled.
pub mod RoundTrip
pub mod Sound
pub mod Durations
mod Tests
use Prim.Native.String.{String}
use caml.Base.{
  ℕ, ◌*◌, ◌≤◌, Bool, ◌||◌, List, [], ◌∷◌, ◌++◌, Option, none, some, leb, ◌==◌, if◌then◌else◌,
  is_empty, Result, ok, err, ◌>>=◌, ◌>>◌, reject_if, ok_or,
}
use caml.Text.{
  Text, codes, text_eq, trim, to_ascii_lowercase, to_ascii_uppercase, strip_suffix,
  split_at_non_digit, u64_max, parse_u64, show_u64,
}

pub record ByteSize : Type 0 where
  pub as_bytes : ℕ

pub record Bitrate : Type 0 where
  pub as_bits_per_second : ℕ

abbrev pub Duration : Type 0
Duration = ℕ

abbrev pub from_millis : ℕ → Duration
from_millis ms = ms * 1_000_000

abbrev pub from_secs : ℕ → Duration
from_secs s = s * 1_000_000_000

-- `u64::checked_mul`.
unfoldable pub checked_mul : ℕ → ℕ → Option ℕ
checked_mul a b = if leb (a * b) u64_max then some (a * b) else none

-- `format!("…'{}'…", x)`, with the text before and after the quotes.
abbrev pub quoting : String → Text → String → Text
quoting before x after = codes before ++ (x ++ codes after)

-- The `match` on the unit of a byte size.
unfoldable pub byte_multiplier : Text → Option ℕ
byte_multiplier u =
    if text_eq u (codes "B")
    then some 1
    else if text_eq u (codes "KB")
    then some 1_000
    else if text_eq u (codes "MB")
    then some 1_000_000
    else if text_eq u (codes "GB")
    then some 1_000_000_000
    else if text_eq u (codes "KIB")
    then some 1_024
    else if text_eq u (codes "MIB")
    then some 1_048_576
    else if text_eq u (codes "GIB")
    then some 1_073_741_824
    else none

-- `ByteSize::from_str`.
pub parse_byte_size : Text → Result Text ByteSize
parse_byte_size input = do
  let trimmed = trim input
  reject_if (is_empty trimmed) (codes "Invalid byte size format. Value cannot be empty.")
  (digits, unit) ←
      ok_or (split_at_non_digit trimmed)
        (codes "Invalid byte size format. Expected a unit suffix such as 'MB'.")
  value ←
      ok_or (parse_u64 digits)
        (quoting "Invalid byte size format. '" digits "' is not a valid integer.")
  multiplier ←
      ok_or (byte_multiplier (to_ascii_uppercase (trim unit)))
        (quoting "Invalid byte size format. Unsupported unit '" (trim unit) "'.")
  bytes ←
      ok_or (checked_mul value multiplier)
        (codes "Invalid byte size format. Value exceeds supported range.")
  ok (record { as_bytes = bytes })

-- `Display` of `ByteSize`.
pub show_byte_size : ByteSize → Text
show_byte_size s = show_u64 s.as_bytes ++ codes "B"

-- The `match` on the unit of a bit rate.
unfoldable pub bitrate_multiplier : Text → Option ℕ
bitrate_multiplier u =
    if text_eq u (codes "k") || text_eq u (codes "kbps")
    then some 1_000
    else if text_eq u (codes "m") || text_eq u (codes "mbps")
    then some 1_000_000
    else if text_eq u (codes "g") || text_eq u (codes "gbps")
    then some 1_000_000_000
    else if text_eq u (codes "bps")
    then some 1
    else none

-- `Bitrate::from_str`.
pub parse_bitrate : Text → Result Text Bitrate
parse_bitrate input = do
  let trimmed = trim input
  reject_if (is_empty trimmed) (codes "Invalid bitrate format. Value cannot be empty.")
  (digits, unit) ←
      ok_or (split_at_non_digit trimmed)
        (codes "Invalid bitrate format. Expected a unit suffix such as 'k' or 'Mbps'.")
  value ←
      ok_or (parse_u64 digits)
        (quoting "Invalid bitrate format. '" digits "' is not a valid integer.")
  multiplier ←
      ok_or (bitrate_multiplier (to_ascii_lowercase (trim unit)))
        (quoting "Invalid bitrate format. Unsupported unit '" (trim unit) "'.")
  bits ←
      ok_or (checked_mul value multiplier)
        (codes "Invalid bitrate format. Value exceeds supported range.")
  ok (record { as_bits_per_second = bits })

-- `Display` of `Bitrate`.
pub show_bitrate : Bitrate → Text
show_bitrate b = show_u64 b.as_bits_per_second ++ codes "bps"

-- The three suffixes of `parse_duration`, tried in turn, each over what stands before it.
parse_millis : Text → Result Text Duration
parse_millis value = do
  millis ←
      ok_or (parse_u64 value)
        (quoting "Invalid duration format. '" value "' is not a valid millisecond value.")
  ok (from_millis millis)

parse_secs : Text → Result Text Duration
parse_secs value = do
  secs ←
      ok_or (parse_u64 value)
        (quoting "Invalid duration format. '" value "' is not a valid second value.")
  ok (from_secs secs)

parse_mins : Text → Result Text Duration
parse_mins value = do
  mins ←
      ok_or (parse_u64 value)
        (quoting "Invalid duration format. '" value "' is not a valid minute value.")
  secs ←
      ok_or (checked_mul mins 60) (codes "Invalid duration format. Value exceeds supported range.")
  ok (from_secs secs)

-- `if let Some(value) = stripped { return … }`, and what comes after it.
abbrev pub if_stripped :
    Option Text → (Text → Result Text Duration) → Result Text Duration → Result Text Duration
if_stripped none f next = next
if_stripped (some value) f next = f value

-- `parse_duration`.
pub parse_duration : Text → Result Text Duration
unfolding parse_millis parse_secs parse_mins
parse_duration input = do
  let trimmed = trim input
  reject_if (is_empty trimmed) (codes "Invalid duration format. Value cannot be empty.")
  if_stripped (strip_suffix trimmed (codes "ms")) parse_millis (
      if_stripped (strip_suffix trimmed (codes "s")) parse_secs (
        if_stripped (strip_suffix trimmed (codes "m")) parse_mins
          (err (codes "Invalid duration format. Expected a suffix such as '10s' or '250ms'."))))
