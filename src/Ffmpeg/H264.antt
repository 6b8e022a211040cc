-- ===== src/Ffmpeg/H264.antt =====
-- crates/caml-ffmpeg/src/h264.rs: H.264 parameter sets and payloads, from AVCC, where a length stands
-- before each unit, to Annex B, where a start code does. A byte slice is the list of its bytes. The
-- `extradata` of FFmpeg's parameters is an argument, `none` for a null pointer and `[]` for a size
-- that is not positive. `x & 0b11` and `x & 0x1F` are remainders, and `(n << 8) | byte` is a sum,
-- since the low byte of `n << 8` is 0. A loop that runs out of fuel answers `none`.
pub mod Slices
pub mod Avcc
pub mod ParameterSets
pub mod Extradata
pub mod Config
pub mod Normalize
mod Tests
use caml.Base.{
  ℕ, zero, suc, ◌+◌, ◌-◌, ◌*◌, ◌%◌, Bool, true, false, not, ◌&&◌, ◌||◌, List, [], ◌∷◌, ◌++◌, length,
  get_elem?, take, drop, is_empty, Option, none, some, unwrap_or, ltb, leb, ◌==◌, if◌then◌else◌,
  Result, ok, err, ◌>>=◌, ok_or,
}
use mathlib.Core.Option
use caml.Text.{Text, codes, show_u64, starts_with, text_eq, u64_max}

abbrev pub Bytes : Type 0
Bytes = List ℕ

abbrev pub start_code : Bytes
start_code = 0 ∷ 0 ∷ 0 ∷ 1 ∷ []

abbrev pub short_start_code : Bytes
short_start_code = 0 ∷ 0 ∷ 1 ∷ []

pub record H264Config : Type 0 where
  pub nalu_length_size : ℕ
  pub parameter_sets_annexb : Bytes

-- `bytes[index]` and `bytes[from..to]`, where the code has tested the range.
abbrev pub byte_at : Bytes → ℕ → ℕ
byte_at bytes index = unwrap_or (get_elem? bytes index) 0

abbrev pub slice : Bytes → ℕ → ℕ → Bytes
slice bytes from to = take (to - from) (drop from bytes)

-- `usize::checked_add`.
unfoldable pub checked_add : ℕ → ℕ → Option ℕ
checked_add a b = if leb (a + b) u64_max then some (a + b) else none

unfoldable pub looks_like_annex_b : Bytes → Bool
unfolding starts_with
looks_like_annex_b payload = starts_with payload start_code || starts_with payload short_start_code

-- What `read_avcc_unit` does once the end of the unit is known.
abbrev pub unit_between : Bytes → ℕ → ℕ → Result Text (ℕ × Bytes)
unit_between bytes start end =
    if leb end (length bytes)
    then ok (end, slice bytes start end)
    else err (codes "AVCC extradata contained a truncated NAL unit")

unfoldable pub read_avcc_unit : Bytes → ℕ → Result Text (ℕ × Bytes)
unfolding checked_add
read_avcc_unit bytes cursor =
    if ltb (length bytes) (cursor + 2)
    then err (codes "AVCC extradata ended before a NAL length field")
    else ok_or (checked_add (cursor + 2) (byte_at bytes cursor * 256 + byte_at bytes (cursor + 1)))
        (codes "AVCC NAL length overflowed")
      >>= λ end. unit_between bytes (cursor + 2) end

-- `for _ in 0..count`, over the cursor and the output.
unfoldable pub read_avcc_units : ℕ → Bytes → ℕ → Bytes → Result Text (ℕ × Bytes)
unfolding read_avcc_unit
read_avcc_units zero bytes cursor output = ok (cursor, output)
read_avcc_units (suc count) bytes cursor output = read_avcc_unit bytes cursor >>= λ r.
    read_avcc_units count bytes r.0 (output ++ (start_code ++ r.1))

-- The picture parameter sets, after the sequence parameter sets.
abbrev pub parse_pps : Bytes → ℕ → ℕ × Bytes → Result Text (ℕ × Bytes)
parse_pps extradata size (cursor, sets) =
    if leb (length extradata) cursor
    then ok (size, sets)
    else read_avcc_units (byte_at extradata cursor) extradata (cursor + 1) sets >>= λ r.
        ok (size, r.1)

unfoldable pub parse_avcc_extradata : Bytes → Result Text (ℕ × Bytes)
unfolding read_avcc_units
parse_avcc_extradata extradata =
    if ltb (length extradata) 7
    then err (codes "AVCC extradata is too short to parse")
    else read_avcc_units (byte_at extradata 5 % 32) extradata 6 [] >>= λ r.
        parse_pps extradata (byte_at extradata 4 % 4 + 1) r

unfoldable pub extract_h264_config : Option Bytes → Result Text (Option H264Config)
unfolding looks_like_annex_b parse_avcc_extradata
extract_h264_config none = ok none
extract_h264_config (some []) = ok none
extract_h264_config (some (version ∷ rest)) =
    let extradata : Bytes = version ∷ rest in
    if looks_like_annex_b extradata
    then ok (some record { nalu_length_size = 4; parameter_sets_annexb = extradata })
    else if not (version == 1)
    then ok none
    else parse_avcc_extradata extradata >>= λ r.
        ok (some record { nalu_length_size = r.0; parameter_sets_annexb = r.1 })

-- The length field: `for byte in … { unit_length = (unit_length << 8) | byte; }`.
unfoldable pub big_endian : ℕ → Bytes → ℕ
big_endian acc [] = acc
big_endian acc (byte ∷ bytes) = big_endian (acc * 256 + byte) bytes

-- A round of the loop behind the length field: the cursor and the output of the next round.
abbrev pub copy_unit : Bytes → Bytes → ℕ → ℕ → Result Text (ℕ × Bytes)
copy_unit payload output cursor end =
    if leb end (length payload)
    then ok (end, output ++ (start_code ++ slice payload cursor end))
    else err (codes "AVCC payload contained a truncated NALU")

unfoldable pub avcc_round : Bytes → ℕ → ℕ → Bytes → Result Text (ℕ × Bytes)
unfolding big_endian checked_add
avcc_round payload size cursor output =
    if ltb (length payload) (cursor + size)
    then err (codes "AVCC payload ended before a NALU size field")
    else let unit_length = big_endian 0 (slice payload cursor (cursor + size)) in
      if unit_length == 0
      then ok (cursor + size, output)
      else ok_or (checked_add (cursor + size) unit_length) (codes "AVCC NALU length overflowed")
        >>= λ end. copy_unit payload output (cursor + size) end

abbrev pub then_round {ℓ} :
    {A : Type ℓ}
    → Result Text (ℕ × Bytes)
    → (ℕ → Bytes → Option (Result Text A))
    → Option (Result Text A)
then_round (err why) next = some (err why)
then_round (ok (cursor, output)) next = next cursor output

-- `while cursor < payload.len()`.
unfoldable pub avcc_loop : ℕ → Bytes → ℕ → ℕ → Bytes → Option (Result Text Bytes)
unfolding avcc_round
avcc_loop zero payload size cursor output = none
avcc_loop (suc fuel) payload size cursor output =
    let rest =
      then_round (avcc_round payload size cursor output)
        λ next out. avcc_loop fuel payload size next out in
    if ltb cursor (length payload) then rest else some (ok output)

-- The test behind the loop.
abbrev pub has_units : Bytes → Result Text Bytes → Result Text Bytes
has_units payload (err why) = err why
has_units payload (ok output) =
    if is_empty output && not (is_empty payload)
    then err (codes "AVCC payload produced no NAL units")
    else ok output

unfoldable pub avcc_to_annex_b : Bytes → ℕ → Option (Result Text Bytes)
unfolding avcc_loop
avcc_to_annex_b payload size =
    if not (leb 1 size && leb size 4)
    then some (
        err (
          codes "invalid AVCC NALU length size "
          ++ (show_u64 size ++ codes "; expected 1-4 bytes")))
    else Option.map (has_units payload) (avcc_loop (suc (length payload)) payload size 0 [])

-- `while index + 3 <= payload.len()`, with `fuel` the bytes behind the index.
unfoldable pub find_from : ℕ → Bytes → ℕ → Option (ℕ × ℕ)
unfolding text_eq
find_from zero payload index = none
find_from (suc fuel) payload index =
    let rest = find_from fuel payload (index + 1) in
    if leb (index + 3) (length payload)
    then if leb (index + 4) (length payload) && text_eq (slice payload index (index + 4)) start_code
      then some (index, 4)
      else if text_eq (slice payload index (index + 3)) short_start_code
      then some (index, 3)
      else rest
    else none

unfoldable pub find_start_code : Bytes → ℕ → Option (ℕ × ℕ)
unfolding find_from
find_start_code payload offset = find_from (length payload - offset) payload offset

abbrev pub offset_or_end : Bytes → Option (ℕ × ℕ) → ℕ
offset_or_end payload none = length payload
offset_or_end payload (some (offset, code_len)) = offset

-- The flags after the unit between `nalu_start` and `next`.
abbrev pub mark_unit : Bytes → ℕ → ℕ → Bool × Bool → Bool × Bool
mark_unit payload nalu_start next (has_sps, has_pps) =
    let nalu_type = byte_at payload nalu_start % 32 in
    if ltb nalu_start next
    then if nalu_type == 7
      then (true, has_pps)
      else if nalu_type == 8
      then (has_sps, true)
      else (has_sps, has_pps)
    else (has_sps, has_pps)

abbrev pub then_unit :
    Option (ℕ × ℕ) → Bool × Bool → (ℕ → Option (Bool × Bool)) → Option (Bool × Bool)
then_unit none flags next = some flags
then_unit (some (start, code_len)) flags next = next (start + code_len)

-- `while let Some((start, code_len)) = find_start_code(payload, cursor)`.
unfoldable pub parameter_sets_loop : ℕ → Bytes → ℕ → Bool × Bool → Option (Bool × Bool)
unfolding find_start_code
parameter_sets_loop zero payload cursor flags = none
parameter_sets_loop (suc fuel) payload cursor flags =
    then_unit (find_start_code payload cursor) flags λ nalu_start.
      let next = offset_or_end payload (find_start_code payload nalu_start) in
      parameter_sets_loop fuel payload next (mark_unit payload nalu_start next flags)

unfoldable pub annex_b_parameter_sets : Bytes → Option (Bool × Bool)
unfolding parameter_sets_loop
annex_b_parameter_sets payload = parameter_sets_loop (suc (length payload)) payload 0 (false, false)

abbrev pub length_size_or_4 : Option H264Config → ℕ
length_size_or_4 none = 4
length_size_or_4 (some config) = config.nalu_length_size

-- The output of a keyframe, by the parameter sets that it has.
abbrev pub prefix_unless : H264Config → Bytes → Bool × Bool → Bytes
prefix_unless config output (has_sps, has_pps) =
    if not has_sps || not has_pps then config.parameter_sets_annexb ++ output else output

unfoldable pub with_parameter_sets : Bool → Option H264Config → Bytes → Option Bytes
unfolding annex_b_parameter_sets
with_parameter_sets false config output = some output
with_parameter_sets true none output = some output
with_parameter_sets true (some config) output =
    Option.map (prefix_unless config output) (annex_b_parameter_sets output)

abbrev pub finish :
    Bool → Option H264Config → Option (Result Text Bytes) → Option (Result Text Bytes)
finish is_keyframe config none = none
finish is_keyframe config (some (err why)) = some (err why)
finish is_keyframe config (some (ok output)) =
    Option.map ok (with_parameter_sets is_keyframe config output)

-- The payload in Annex B, as it is or converted.
unfoldable pub to_annex_b : Bytes → Option H264Config → Option (Result Text Bytes)
unfolding looks_like_annex_b avcc_to_annex_b
to_annex_b payload config =
    if looks_like_annex_b payload
    then some (ok payload)
    else avcc_to_annex_b payload (length_size_or_4 config)

unfoldable pub normalize_h264_payload :
    Bytes → Bool → Option H264Config → Option (Result Text Bytes)
unfolding to_annex_b with_parameter_sets
normalize_h264_payload payload is_keyframe config =
    finish is_keyframe config (to_annex_b payload config)
