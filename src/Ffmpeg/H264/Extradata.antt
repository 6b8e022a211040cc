-- ===== src/Ffmpeg/H264/Extradata.antt =====
-- `parse_avcc_extradata` on an AVCC decoder configuration record.
use mathlib.Core.List.{append_assoc, append-nil}
use caml.Base.{
  ℕ, ◌+◌, ◌*◌, ◌/◌, ◌%◌, ◌≤◌, ◌≡◌, refl, ap, ◌∙◌, false, List, [], ◌∷◌, ◌++◌, length, ltb, drop, ok,
  arith, length-append,
}
use caml.Text.{u64_max}
use caml.Ffmpeg.H264.{
  Bytes, start_code, byte_at, read_avcc_unit, read_avcc_units, parse_pps, parse_avcc_extradata,
}
use caml.Ffmpeg.H264.Slices.{byte_at-drop, slice_front, drop_behind, drop-length}
use caml.Ffmpeg.H264.Avcc.Rounds.{checked_add_fits}

-- Parameter sets in the record, each behind its length in two bytes, and in Annex B.
abbrev pub fields : List Bytes → Bytes
fields [] = []
fields (unit ∷ units) = length unit / 256 ∷ length unit % 256 ∷ (unit ++ fields units)

abbrev pub delimited : List Bytes → Bytes
delimited [] = []
delimited (unit ∷ units) = (start_code ++ unit) ++ delimited units

length-field :
    (unit rest : Bytes)
    → length (length unit / 256 ∷ length unit % 256 ∷ (unit ++ rest))
      ≡ 2 + length unit + length rest
length-field unit rest = omega (arith, length-append unit rest)

module _ (bytes : Bytes) (small : length bytes ≤ u64_max) where
  -- Reading the unit whose field stands at the cursor.
  read_at_field :
      (cursor : ℕ) (unit rest : Bytes)
      → drop cursor bytes ≡ length unit / 256 ∷ length unit % 256 ∷ (unit ++ rest)
      → cursor ≤ length bytes
      → (read_avcc_unit bytes cursor ≡ ok (cursor + 2 + length unit, unit))
        × (drop (cursor + 2 + length unit) bytes ≡ rest)
        × (cursor + 2 + length unit ≤ length bytes)
  unfolding read_avcc_unit
  read_at_field cursor unit rest e here =
      let total = drop-length cursor bytes _ here e in
      let sum = length-field unit rest in
      let high = byte_at-drop cursor bytes _ _ e in
      let low = byte_at-drop (cursor + 1) bytes _ _ (
        drop_behind bytes cursor (length unit / 256 ∷ []) (length unit % 256 ∷ (unit ++ rest)) e) in
      let behind =
        drop_behind bytes cursor (length unit / 256 ∷ length unit % 256 ∷ []) (unit ++ rest) e in
      let copied = slice_front bytes (cursor + 2) unit rest behind in
      let size : byte_at bytes cursor * 256 + byte_at bytes (cursor + 1) ≡ length unit =
        omega arith in
      (
        rw (size, checked_add_fits (cursor + 2) (length unit) (omega arith))
            (ground (arith, copied)),
        drop_behind bytes (cursor + 2) unit rest behind,
        omega arith,
      )

  read_all_fields :
      (units : List Bytes) (cursor : ℕ) (output rest : Bytes)
      → drop cursor bytes ≡ fields units ++ rest
      → cursor ≤ length bytes
      → (next : ℕ) × (read_avcc_units (length units) bytes cursor output
          ≡ ok (next, output ++ delimited units))
        × (drop next bytes ≡ rest)
        × (next ≤ length bytes)
  unfolding read_avcc_units
  read_all_fields [] cursor output rest e here = (cursor, rw append-nil refl, e, here)
  read_all_fields (unit ∷ units) cursor output rest e here =
      let (read, behind, inside) =
        read_at_field cursor unit (fields units ++ rest)
          (e
            ∙ ap (λ b. length unit / 256 ∷ length unit % 256 ∷ b)
                (append_assoc unit (fields units) rest))
          here in
      let (next, all, left, fits) =
        read_all_fields units (cursor + 2 + length unit) (output ++ (start_code ++ unit)) rest
          behind inside in
      (
        next,
        rw read (
            all
            ∙ ap (λ b. ok (next, b)) (append_assoc output (start_code ++ unit) (delimited units))),
        left,
        fits,
      )

-- A decoder configuration record, as ISO/IEC 14496-15 lays it out.
pub record ConfigurationRecord : Type 0 where
  pub version : ℕ
  pub profile : ℕ
  pub compatibility : ℕ
  pub level : ℕ
  pub size_byte : ℕ
  pub sps_byte : ℕ
  pub sps : List Bytes
  pub pps : List Bytes
  pub rest : Bytes

abbrev pub encode : ConfigurationRecord → Bytes
encode r =
    r.version
    ∷ r.profile
    ∷ r.compatibility
    ∷ r.level
    ∷ r.size_byte
    ∷ r.sps_byte
    ∷ (fields r.sps ++ (length r.pps ∷ (fields r.pps ++ r.rest)))

length-encode :
    (r : ConfigurationRecord)
    → length (encode r) ≡ 7 + length (fields r.sps) + length (fields r.pps ++ r.rest)
length-encode r =
    omega (arith, length-append (fields r.sps) (length r.pps ∷ (fields r.pps ++ r.rest)))

parse_pps-encode :
    (bytes : Bytes) (small : length bytes ≤ u64_max) (size cursor : ℕ) (sets : Bytes)
    (pps : List Bytes) (rest : Bytes)
    → drop cursor bytes ≡ length pps ∷ (fields pps ++ rest)
    → cursor ≤ length bytes
    → parse_pps bytes size (cursor, sets) ≡ ok (size, sets ++ delimited pps)
parse_pps-encode bytes small size cursor sets pps rest e here =
    let total = drop-length cursor bytes _ here e in
    let count = byte_at-drop cursor bytes _ _ e in
    let behind = drop_behind bytes cursor (length pps ∷ []) (fields pps ++ rest) e in
    let (next, read, left, fits) =
      read_all_fields bytes small pps (cursor + 1) sets rest behind (omega arith) in
    rw (count, read) (ground arith)

-- `parse_avcc_extradata` reads a decoder configuration record of less than 2 ^ 64 bytes that counts
-- its sequence sets in the low five bits of the sixth byte: it returns the size of the length fields,
-- the low two bits of the fifth byte and one, and all the parameter sets, sequence sets first, in
-- order, each behind a start code, whatever follows them.
pub parse_avcc_extradata-encode :
    (r : ConfigurationRecord)
    → r.sps_byte % 32 ≡ length r.sps
    → length (encode r) ≤ u64_max
    → parse_avcc_extradata (encode r) ≡ ok (r.size_byte % 4 + 1, delimited r.sps ++ delimited r.pps)
unfolding parse_avcc_extradata
parse_avcc_extradata-encode r count small =
    let (next, read, left, fits) =
      read_all_fields (encode r) small r.sps 6 [] (length r.pps ∷ (fields r.pps ++ r.rest)) refl
        (omega (arith, length-encode r)) in
    let long : ltb (length (encode r)) 7 ≡ false = ground (arith, length-encode r) in
    rw (long, count, read) (parse_pps-encode (encode r) small _ next _ r.pps r.rest left fits)
