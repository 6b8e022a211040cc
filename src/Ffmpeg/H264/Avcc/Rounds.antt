-- ===== src/Ffmpeg/H264/Avcc/Rounds.antt =====
-- One round of the loop of `avcc_to_annex_b`: what it takes, and what it does at a frame.

use mathlib.Core.List.{append-nil}
use native.Mathlib.Nat.{add-zero}
use caml.Base.{
  ℕ, ◌+◌, ◌≤◌, ◌≡◌, refl, sym, ap, subst, ◌∙◌, ◌≢◌, inl, inr, Bool-cases, [], ◌∷◌, ◌++◌, length,
  some, ltb, ◌==◌, ok, arith, drop, length-append, >>=-eq-ok, ok_or-eq-ok,
}
use caml.Text.{u64_max}
use caml.Ffmpeg.H264.{Bytes, start_code, slice, checked_add, big_endian, copy_unit, avcc_round}
use caml.Ffmpeg.H264.Slices.{drop-slice, length-slice, slice_front, drop_behind, drop-length}
use caml.Ffmpeg.H264.Avcc.{Frame, IsFrame, marked}

pub checked_add-eq-some : (a b : ℕ) {c : ℕ} → checked_add a b ≡ some c → c ≡ a + b
unfolding checked_add
checked_add-eq-some a b h = ground (arith)

pub checked_add_fits : (a b : ℕ) → a + b ≤ u64_max → checked_add a b ≡ some (a + b)
unfolding checked_add
checked_add_fits a b h = ground (arith)

-- What one round takes from the payload, to the cursor of the next.
abbrev pub Takes : Bytes → ℕ → ℕ → Bytes → ℕ → Bytes → Type 0
Takes payload size cursor output next out =
    (frame : Frame) × (drop cursor payload ≡ frame.0 ++ (frame.1 ++ drop next payload))
    × IsFrame size frame
    × (out ≡ output ++ marked frame.1)
    × (cursor + size ≤ next)
    × (next ≤ length payload)

marked_of_ne_zero : (unit : Bytes) → length unit ≢ 0 → marked unit ≡ start_code ++ unit
marked_of_ne_zero [] h = absurd (h refl)
marked_of_ne_zero (b ∷ unit) h = refl

copy_unit-eq-ok :
    (payload output : Bytes) (cursor end : ℕ) {next : ℕ} {out : Bytes}
    → copy_unit payload output cursor end ≡ ok (next, out)
    → (next ≡ end)
      × (end ≤ length payload)
      × (out ≡ output ++ (start_code ++ slice payload cursor end))
copy_unit-eq-ok payload output cursor end h = ground arith

module _ (payload : Bytes) (size cursor : ℕ) (output : Bytes) where
  -- A unit without bytes, and a unit that is copied.
  Takes-empty :
      cursor + size ≤ length payload
      → big_endian 0 (slice payload cursor (cursor + size)) ≡ 0
      → Takes payload size cursor output (cursor + size) output
  Takes-empty fits none_left = (
    (slice payload cursor (cursor + size), []),
    drop-slice payload cursor (cursor + size) (omega arith),
    (length-slice payload cursor (cursor + size) (omega arith) fits ∙ omega arith, none_left),
    sym (append-nil output),
    omega arith,
    fits,
  )

  Takes-unit :
      (n : ℕ)
      → big_endian 0 (slice payload cursor (cursor + size)) ≡ n
      → n ≢ 0
      → cursor + size + n ≤ length payload
      → Takes payload size cursor output
          (cursor + size + n)
          (output ++ (start_code ++ slice payload (cursor + size) (cursor + size + n)))
  Takes-unit n field some_left fits =
      let measured : length (slice payload (cursor + size) (cursor + size + n)) ≡ n =
        length-slice payload (cursor + size) (cursor + size + n) (omega arith) fits ∙ omega arith in
      (
        (slice payload cursor (cursor + size), slice payload (cursor + size) (cursor + size + n)),
        drop-slice payload cursor (cursor + size) (omega arith)
            ∙ ap (λ b. slice payload cursor (cursor + size) ++ b)
                (drop-slice payload (cursor + size) (cursor + size + n) (omega arith)),
        (
          length-slice payload cursor (cursor + size) (omega arith) (omega arith) ∙ omega arith,
          field ∙ sym measured,
        ),
        ap (λ b. output ++ b) (sym (marked_of_ne_zero _ (λ e. some_left (sym measured ∙ e)))),
        omega arith,
        fits,
      )

  Takes-checked :
      (n end : ℕ) {next : ℕ} {out : Bytes}
      → big_endian 0 (slice payload cursor (cursor + size)) ≡ n
      → n ≢ 0
      → end ≡ cursor + size + n
      → copy_unit payload output (cursor + size) end ≡ ok (next, out)
      → Takes payload size cursor output next out
  Takes-checked n end {next} {out} field some_left sum h =
      let (e, fits, copied) = copy_unit-eq-ok payload output (cursor + size) end h in
      let q : ◌≡◌ {A = ℕ × Bytes}
          (
            cursor + size + n,
            output ++ (start_code ++ slice payload (cursor + size) (cursor + size + n)),
          )
          (next, out) =
        cc (sum, e, copied) in
      subst (λ r. Takes payload size cursor output r.0 r.1) q
        (Takes-unit n field some_left (omega arith))

  pub avcc_round-Takes :
      {next : ℕ} {out : Bytes}
      → avcc_round payload size cursor output ≡ ok (next, out)
      → Takes payload size cursor output next out
  unfolding avcc_round
  avcc_round-Takes {next} {out} h = elim (Bool-cases (ltb (length payload) (cursor + size))) [
    | inl short ↦ let e = rw short at h in cc
    | inr long ↦ elim (Bool-cases (big_endian 0 (slice payload cursor (cursor + size)) == 0)) [
      | inl none_left ↦
          let e = rw (long, none_left) at h in
          let q : ◌≡◌ {A = ℕ × Bytes} (cursor + size, output) (next, out) = cc in
          subst (λ r. Takes payload size cursor output r.0 r.1) q
            (Takes-empty (ground arith) (ground arith))
      | inr some_left ↦
          let (end, sum, copied) = >>=-eq-ok _ _ (rw (long, some_left) at h) in
          Takes-checked (big_endian 0 (slice payload cursor (cursor + size))) end refl
            (ground arith) (checked_add-eq-some _ _ (ok_or-eq-ok _ _ sum)) copied
    ]
  ]

length-avcc_cons :
    (field unit rest : Bytes)
    → length (field ++ (unit ++ rest)) ≡ length field + length unit + length rest
length-avcc_cons field unit rest =
    omega (arith, length-append field (unit ++ rest), length-append unit rest)

-- The round at a frame copies its unit.
module _ (payload : Bytes) (size cursor : ℕ) (output : Bytes) where
  round_empty :
      cursor + size ≤ length payload
      → big_endian 0 (slice payload cursor (cursor + size)) ≡ 0
      → avcc_round payload size cursor output ≡ ok (cursor + size, output)
  unfolding avcc_round
  round_empty fits field = rw (field) (ground arith)

  round_full :
      (n : ℕ)
      → big_endian 0 (slice payload cursor (cursor + size)) ≡ n
      → n ≢ 0
      → cursor + size + n ≤ length payload
      → length payload ≤ u64_max
      → avcc_round payload size cursor output
        ≡ ok (
          cursor + size + n,
          output ++ (start_code ++ slice payload (cursor + size) (cursor + size + n)),
        )
  unfolding avcc_round
  round_full n field some_left fits small =
      ground (arith, checked_add_fits (cursor + size) n (omega arith))

  copies :
      (u : Bytes)
      → big_endian 0 (slice payload cursor (cursor + size)) ≡ length u
      → slice payload (cursor + size) (cursor + size + length u) ≡ u
      → cursor + size + length u ≤ length payload
      → length payload ≤ u64_max
      → avcc_round payload size cursor output ≡ ok (cursor + size + length u, output ++ marked u)
  copies [] says copied fits small =
      round_empty (omega arith) says ∙ ap ok (cc (append-nil output, add-zero (cursor + size)))
  copies (b ∷ u) says copied fits small =
      round_full (length (b ∷ u)) says (omega arith) fits small
      ∙ ap (λ w. ok (cursor + size + length (b ∷ u), output ++ (start_code ++ w))) copied

  pub round_at_frame :
      (field unit rest : Bytes)
      → drop cursor payload ≡ field ++ (unit ++ rest)
      → IsFrame size (field, unit)
      → cursor ≤ length payload
      → length payload ≤ u64_max
      → (avcc_round payload size cursor output
          ≡ ok (cursor + size + length unit, output ++ marked unit))
        × (drop (cursor + size + length unit) payload ≡ rest)
        × (cursor + size + length unit ≤ length payload)
  round_at_frame field unit rest e (measured, says) here small =
      let total = drop-length cursor payload (field ++ (unit ++ rest)) here e in
      let sum = length-avcc_cons field unit rest in
      let front : slice payload cursor (cursor + size) ≡ field =
        ap (λ k. slice payload cursor (cursor + k)) (sym measured)
        ∙ slice_front payload cursor field (unit ++ rest) e in
      let behind : drop (cursor + size) payload ≡ unit ++ rest =
        ap (λ k. drop (cursor + k) payload) (sym measured)
        ∙ drop_behind payload cursor field (unit ++ rest) e in
      (
        copies unit (ap (big_endian 0) front ∙ says)
            (slice_front payload (cursor + size) unit rest behind) (omega arith) small,
        drop_behind payload (cursor + size) unit rest behind,
        omega arith,
      )
