-- ===== src/Units/Tests.antt =====
-- Sizes, rates and durations as a manifest writes them.
use caml.Base.{◌≡◌, ◌++◌, ◌*◌, refl, ok, err, arith, leb, if◌then◌else◌}
use caml.Text.{
  codes, split_at_non_digit, parse_u64, text_eq, strip_suffix, trim, u64_max, show_u64,
  to_ascii_lowercase, to_ascii_uppercase,
}
use caml.Units.Durations.{parse_duration-show_u64}
use caml.Units.RoundTrip.{parse-show}
use caml.Units.Sound.{Measures, parse-Measures}
use caml.Units.{
  parse_byte_size, show_byte_size, byte_multiplier, parse_bitrate, show_bitrate, bitrate_multiplier,
  parse_duration, from_millis, from_secs, checked_mul,
}

megabytes : parse_byte_size (codes " 64 MB ") ≡ ok (record { as_bytes = 64_000_000 })
unfolding parse_byte_size trim codes split_at_non_digit parse_u64 byte_multiplier text_eq
    to_ascii_uppercase checked_mul
megabytes = refl

kilobits : parse_bitrate (codes "500k") ≡ ok (record { as_bits_per_second = 500_000 })
unfolding parse_bitrate trim codes split_at_non_digit parse_u64 bitrate_multiplier text_eq
    to_ascii_lowercase checked_mul
kilobits = refl

milliseconds : parse_duration (codes "250ms") ≡ ok (from_millis 250)
unfolding parse_duration trim codes strip_suffix parse_u64
milliseconds = refl

parse-show_example :
    (parse_byte_size (show_byte_size (record { as_bytes = 1_500 }))
      ≡ ok (record { as_bytes = 1_500 }))
    × (parse_bitrate (show_bitrate (record { as_bits_per_second = 64 }))
        ≡ ok (record { as_bits_per_second = 64 }))
parse-show_example =
    parse-show (record { as_bytes = 1_500 }) (record { as_bits_per_second = 64 }) (omega arith)
      (omega arith)

parse-Measures_example :
    Measures byte_multiplier to_ascii_uppercase (trim (codes " 64 MB ")) 64_000_000
    × Measures bitrate_multiplier to_ascii_lowercase (trim (codes "500k")) 500_000
parse-Measures_example =
    parse-Measures (codes " 64 MB ") (codes "500k") (record { as_bytes = 64_000_000 })
      (record { as_bits_per_second = 500_000 }) megabytes kilobits

parse_duration-show_u64_example :
    (parse_duration (show_u64 90 ++ codes "ms") ≡ ok (from_millis 90))
    × (parse_duration (show_u64 90 ++ codes "s") ≡ ok (from_secs 90))
    × (parse_duration (show_u64 90 ++ codes "m") ≡ (
        if leb (90 * 60) u64_max
        then ok (from_secs (90 * 60))
        else err (codes "Invalid duration format. Value exceeds supported range.")))
parse_duration-show_u64_example = parse_duration-show_u64 90 (omega arith)
