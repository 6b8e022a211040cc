-- ===== src/Text.antt =====
-- Rust's `str` as far as the program uses it: a text is the list of its characters' code points.
-- The children prove how trimming (Trim), decimal numbers (Decimal) and comparison (Equality) behave.
pub mod Trim
pub mod Decimal
pub mod Equality
pub mod Search
use Prim.Native.Char.{code}
use Prim.Native.String.{String}
use caml.Base.{
  ℕ, zero, suc, ◌+◌, ◌-◌, ◌*◌, ◌/◌, ◌%◌, Bool, true, false, not, ◌&&◌, ◌||◌, List, [], ◌∷◌, ◌++◌,
  map, Option, none, some, leb, ◌==◌, if◌then◌else◌,
}

abbrev pub Text : Type 0
Text = List ℕ

-- The code points of a literal.
unfoldable pub codes : String → Text
codes String.[] = []
codes (String.◌∷◌ c s) = code c ∷ codes s

-- `==` on texts.
unfoldable pub text_eq : Text → Text → Bool
text_eq [] [] = true
text_eq [] (d ∷ t) = false
text_eq (c ∷ s) [] = false
text_eq (c ∷ s) (d ∷ t) = c == d && text_eq s t

abbrev pub within : ℕ → ℕ → ℕ → Bool
within lo hi c = leb lo c && leb c hi

-- `char::is_whitespace`: the property White_Space of Unicode.
unfoldable pub is_whitespace : ℕ → Bool
is_whitespace c =
    within 0x9 0xd c
    || c == 0x20
    || c == 0x85
    || c == 0xa0
    || c == 0x1680
    || within 0x2000 0x200a c
    || within 0x2028 0x2029 c
    || c == 0x202f
    || c == 0x205f
    || c == 0x3000

-- `char::is_ascii_digit`.
unfoldable pub is_ascii_digit : ℕ → Bool
is_ascii_digit c = within b'0' b'9' c

-- `str::trim_start`.
unfoldable pub trim_start : Text → Text
unfolding is_whitespace
trim_start [] = []
trim_start (c ∷ s) = if is_whitespace c then trim_start s else c ∷ s

-- Put `c` in front of a text whose end is trimmed already.
abbrev pub keep_before : ℕ → Text → Text
keep_before c [] = if is_whitespace c then [] else c ∷ []
keep_before c (d ∷ s) = c ∷ d ∷ s

-- `str::trim_end`.
unfoldable pub trim_end : Text → Text
unfolding is_whitespace
trim_end [] = []
trim_end (c ∷ s) = keep_before c (trim_end s)

-- `str::trim`.
unfoldable pub trim : Text → Text
unfolding trim_start trim_end
trim s = trim_end (trim_start s)

-- `str::to_ascii_lowercase` and `to_ascii_uppercase`.
abbrev lower_char : ℕ → ℕ
lower_char c = if within b'A' b'Z' c then c + 32 else c

abbrev upper_char : ℕ → ℕ
upper_char c = if within b'a' b'z' c then c - 32 else c

unfoldable pub to_ascii_lowercase : Text → Text
to_ascii_lowercase = map lower_char

unfoldable pub to_ascii_uppercase : Text → Text
to_ascii_uppercase = map upper_char

-- `str::starts_with` and `str::contains`, for a text.
unfoldable pub starts_with : Text → Text → Bool
starts_with s [] = true
starts_with [] (d ∷ t) = false
starts_with (c ∷ s) (d ∷ t) = c == d && starts_with s t

unfoldable pub contains : Text → Text → Bool
unfolding starts_with
contains [] t = starts_with [] t
contains (c ∷ s) t = starts_with (c ∷ s) t || contains s t

-- Put `c` in front of what stands before the suffix.
abbrev pub with_char : ℕ → Option Text → Option Text
with_char c none = none
with_char c (some s) = some (c ∷ s)

-- `str::strip_suffix`, for a text.
unfoldable pub strip_suffix : Text → Text → Option Text
unfolding text_eq
strip_suffix [] t = if text_eq [] t then some [] else none
strip_suffix (c ∷ s) t =
    let rest = strip_suffix s t in if text_eq (c ∷ s) t then some [] else with_char c rest

-- `s.find(|c| !c.is_ascii_digit())` and `split_at` at that place: `none` if all are digits.
abbrev pub split_more : ℕ → Option (Text × Text) → Option (Text × Text)
split_more c none = none
split_more c (some (digits, unit)) = some (c ∷ digits, unit)

unfoldable pub split_at_non_digit : Text → Option (Text × Text)
unfolding is_ascii_digit
split_at_non_digit [] = none
split_at_non_digit (c ∷ s) =
    if not (is_ascii_digit c) then some ([], c ∷ s) else split_more c (split_at_non_digit s)

abbrev pub u64_max : ℕ
u64_max = 18_446_744_073_709_551_615

-- The digits of `str::parse::<u64>`, after what was read so far; `none` for a character that is
-- no digit and for an overflow.
unfoldable pub parse_digits : ℕ → Text → Option ℕ
unfolding is_ascii_digit
parse_digits acc [] = some acc
parse_digits acc (c ∷ s) =
    let next = acc * 10 + (c - b'0') in
    let rest = parse_digits next s in
    if is_ascii_digit c then if leb next u64_max then rest else none else none

-- `str::parse::<u64>`: one or more digits behind an optional plus sign.
unfoldable pub parse_u64 : Text → Option ℕ
unfolding parse_digits
parse_u64 [] = none
parse_u64 (c ∷ []) = if c == b'+' then none else parse_digits 0 (c ∷ [])
parse_u64 (c ∷ d ∷ s) = if c == b'+' then parse_digits 0 (d ∷ s) else parse_digits 0 (c ∷ d ∷ s)

-- The decimal digits of a number below 10 to the power `places`.
unfoldable pub decimal : ℕ → ℕ → Text
decimal zero n = []
decimal (suc places) n =
    let rest = decimal places (n / 10) in
    if leb 10 n then rest ++ (b'0' + n % 10) ∷ [] else (b'0' + n) ∷ []

-- `Display` of a `u64`, which has at most 20 digits.
unfoldable pub show_u64 : ℕ → Text
unfolding decimal
show_u64 n = decimal 20 n
