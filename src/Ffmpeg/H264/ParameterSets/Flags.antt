-- ===== src/Ffmpeg/H264/ParameterSets/Flags.antt =====
-- `annex_b_parameter_sets` against a look at every place of the payload.
use caml.Base.{
  ℕ, zero, suc, ◌+◌, ◌%◌, ◌≤◌, ◌<◌, ◌≡◌, refl, sym, ap, ◌∙◌, inl, inr, Bool, true, false,
  Bool-cases, ◌||◌, length, Option, none, some, ltb, drop, ◌==◌, if◌then◌else◌, arith,
}
use caml.Ffmpeg.H264.{
  Bytes, byte_at, find_start_code, offset_or_end, mark_unit, then_unit, parameter_sets_loop,
  annex_b_parameter_sets,
}
use caml.Ffmpeg.H264.Slices.{drop-byte_at}
use caml.Ffmpeg.H264.ParameterSets.{has_type, has_unit}
use caml.Ffmpeg.H264.ParameterSets.Search.{
  IsCode, Finds, Nexts, find_start_code-Finds, has_unit_at, offset_or_end-Nexts,
}

or_false : (s p : Bool) → ◌≡◌ {A = Bool × Bool} (s, p) (s || false, p || false)
or_false true true = refl
or_false true false = refl
or_false false true = refl
or_false false false = refl

module _ (payload : Bytes) where
  -- The flags after a unit.
  mark_unit_lem :
      (from next : ℕ) (s p : Bool)
      → from ≤ length payload
      → Nexts payload from next
      → mark_unit payload from next (s, p)
        ≡ (s || has_type 7 (drop from payload), p || has_type 8 (drop from payload))
  mark_unit_lem from next s p here (after, inside, skips, none_between) =
      elim (Bool-cases (ltb from next)) [
        | inl some_bytes ↦
            rw (some_bytes, drop-byte_at from payload (ground arith))
              (flags s p (byte_at payload from % 32))
        | inr no_bytes ↦
            let (no_sps, no_pps) = none_between (ground arith) in
            rw (no_bytes, no_sps, no_pps) (or_false s p)
      ]
    where
      flags :
          (s p : Bool) (kind : ℕ)
          → ◌≡◌ {A = Bool × Bool}
              (if kind == 7 then (true, p) else if kind == 8 then (s, true) else (s, p))
              (s || kind == 7, p || kind == 8)
      flags true true kind = ground arith
      flags true false kind = ground arith
      flags false true kind = ground arith
      flags false false kind = ground arith

  -- The flags and what the bytes from the cursor on hold.
  abbrev collected : Bool × Bool → Bytes → Bool × Bool
  collected (s, p) bytes = (s || has_unit 7 bytes, p || has_unit 8 bytes)

  or_later : (s first later : Bool) → ((s || first) || later) ≡ (s || (first || later))
  or_later true first later = refl
  or_later false first later = refl

  code_len_positive : (start code_len : ℕ) → IsCode payload start code_len → 3 ≤ code_len
  code_len_positive start code_len (inl (e, code)) = omega arith
  code_len_positive start code_len (inr (e, code)) = omega arith

  collects :
      (cursor start code_len next t : ℕ) (b : Bool)
      → IsCode payload start code_len
      → has_unit t (drop cursor payload) ≡ has_unit t (drop start payload)
      → Nexts payload (start + code_len) next
      → ((b || has_type t (drop (start + code_len) payload)) || has_unit t (drop next payload))
        ≡ (b || has_unit t (drop cursor payload))
  collects cursor start code_len next t b code skips (after, inside, same, none_between) =
      or_later b _ _
      ∙ ap (λ u. b || u)
          (ap (λ u. has_type t (drop (start + code_len) payload) || u) (sym (same t))
            ∙ sym (has_unit_at payload t start code_len code)
            ∙ sym skips)

  -- One round, given what the rounds behind it do.
  round_collects :
      (go : ℕ → Bool × Bool → Option (Bool × Bool)) (cursor : ℕ) (s p : Bool) (r : Option (ℕ × ℕ))
      → ((next : ℕ) (s p : Bool)
          → cursor < next
          → next ≤ length payload
          → go next (s, p) ≡ some (collected (s, p) (drop next payload)))
      → Finds payload cursor r
      → then_unit r
          (s, p)
          (λ nalu_start.
            let next = offset_or_end payload (find_start_code payload nalu_start) in
            go next (mark_unit payload nalu_start next (s, p)))
        ≡ some (collected (s, p) (drop cursor payload))
  round_collects go cursor s p none ih f = rw (f 7, f 8) (ap some (or_false s p))
  round_collects go cursor s p (some (start, code_len)) ih (after, inside, code, skips) =
      let from = start + code_len in
      let next = offset_or_end payload (find_start_code payload from) in
      let found = offset_or_end-Nexts payload from _ inside (find_start_code-Finds payload from) in
      let grows = code_len_positive start code_len code in
      rw (mark_unit_lem from next s p inside found) (
        ih next (s || has_type 7 (drop from payload)) (p || has_type 8 (drop from payload))
          (omega (arith, found.0)) found.1
        ∙ rw
            (
              collects cursor start code_len next 7 s code (skips 7) found,
              collects cursor start code_len next 8 p code (skips 8) found,
            )
            refl)

  parameter_sets_loop_lem :
      (fuel cursor : ℕ) (s p : Bool)
      → cursor ≤ length payload
      → length payload < cursor + fuel
      → parameter_sets_loop fuel payload cursor (s, p)
        ≡ some (collected (s, p) (drop cursor payload))
  unfolding parameter_sets_loop
  parameter_sets_loop_lem zero cursor s p here enough = absurd (omega arith)
  parameter_sets_loop_lem (suc fuel) cursor s p here enough =
      round_collects (parameter_sets_loop fuel payload) cursor s p (find_start_code payload cursor)
        (λ next u v grows inside. parameter_sets_loop_lem fuel next u v inside (omega arith))
        (find_start_code-Finds payload cursor)

-- `annex_b_parameter_sets` ends on every payload, and says exactly whether it has units of type 7 and
-- of type 8, the sequence and the picture parameter sets: whether somewhere the bytes 0, 0, 1 and a
-- byte with that type in its low five bits follow each other.
pub annex_b_parameter_sets-has_unit :
    (payload : Bytes)
    → annex_b_parameter_sets payload ≡ some (has_unit 7 payload, has_unit 8 payload)
unfolding annex_b_parameter_sets
annex_b_parameter_sets-has_unit payload =
    parameter_sets_loop_lem payload (suc (length payload)) 0 false false (omega arith) (omega arith)
