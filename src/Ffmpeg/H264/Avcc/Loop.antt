-- ===== src/Ffmpeg/H264/Avcc/Loop.antt =====
-- `avcc_to_annex_b` takes a payload apart into its units, and ends on every payload.
use mathlib.Core.Option
use mathlib.Core.List.{append_assoc, append-nil}
use caml.Base.{
  ℕ, zero, suc, ◌+◌, ◌≤◌, ◌<◌, ◌≡◌, refl, sym, ap, ◌∙◌, inl, inr, true, Bool-cases, ◌&&◌, List, [],
  ◌∷◌, ◌++◌, length, is_empty, All, Option, some, ltb, leb, Result, ok, err, arith, lt→ltb, ◌↔◌,
  drop, Result-cases,
}
use caml.Text.{Text, u64_max}
use caml.Ffmpeg.H264.{Bytes, avcc_round, then_round, avcc_loop, has_units, avcc_to_annex_b}
use caml.Ffmpeg.H264.Slices.{drop-length, drop_end}
use caml.Ffmpeg.H264.Avcc.{Frame, IsFrame, avcc, marked, annex_b, IsAvcc}
use caml.Ffmpeg.H264.Avcc.Rounds.{avcc_round-Takes, round_at_frame}

then_round-eq-ok {ℓ} :
    {A : Type ℓ} (r : Result Text (ℕ × Bytes)) (go : ℕ → Bytes → Option (Result Text A)) {a : A}
    → then_round r go ≡ some (ok a)
    → (next : ℕ) × (mid : Bytes) × (r ≡ ok (next, mid)) × (go next mid ≡ some (ok a))
then_round-eq-ok (ok (next, mid)) go h = (next, mid, refl, h)
then_round-eq-ok (err why) go h = cc

-- What is left from the cursor on is a sequence of frames.
avcc_loop_sound :
    (fuel : ℕ) (payload : Bytes) (size cursor : ℕ) (output : Bytes) {out : Bytes}
    → cursor ≤ length payload
    → avcc_loop fuel payload size cursor output ≡ some (ok out)
    → (frames : List Frame) × (drop cursor payload ≡ avcc frames)
      × All (IsFrame size) frames
      × (out ≡ output ++ annex_b frames)
unfolding avcc_loop
avcc_loop_sound zero payload size cursor output here h = cc
avcc_loop_sound (suc fuel) payload size cursor output {out} here h =
    elim (Bool-cases (ltb cursor (length payload))) [
      | inl more ↦
          let (next, mid, round, later) = then_round-eq-ok _ _ (rw more at h) in
          let (frame, bytes, fits, copied, grows, inside) =
            avcc_round-Takes payload size cursor output round in
          let (frames, rest, all, done) = avcc_loop_sound fuel payload size next mid inside later in
          (
            frame ∷ frames,
            bytes ∙ ap (λ b. frame.0 ++ (frame.1 ++ b)) rest,
            (fits, all),
            done
                ∙ ap (λ b. b ++ annex_b frames) copied
                ∙ append_assoc output (marked frame.1) (annex_b frames),
          )
      | inr over ↦
          let e : out ≡ output = (cc (rw over at h)) in
          (
            [],
            ap (λ k. drop k payload) {y = length payload} (ground arith) ∙ drop_end payload,
            tt,
            e ∙ sym (append-nil output),
          )
    ]

-- The cursor grows in each round, so that the loop has fuel enough.
avcc_loop_ends :
    (fuel : ℕ) (payload : Bytes) (size cursor : ℕ) (output : Bytes)
    → 1 ≤ size
    → cursor ≤ length payload
    → length payload < cursor + fuel
    → (r : Result Text Bytes) × (avcc_loop fuel payload size cursor output ≡ some r)
unfolding avcc_loop
avcc_loop_ends zero payload size cursor output some_size here enough = absurd (omega arith)
avcc_loop_ends (suc fuel) payload size cursor output some_size here enough =
    elim (Bool-cases (ltb cursor (length payload))) [
      | inl more ↦ elim (Result-cases (avcc_round payload size cursor output)) [
        | inl ((next, mid), e) ↦
            let (frame, bytes, fits, copied, grows, inside) =
              avcc_round-Takes payload size cursor output e in
            rw (more, e) (avcc_loop_ends fuel payload size next mid some_size inside (omega arith))
        | inr (why, e) ↦ rw (more, e) (err why, refl)
      ]
      | inr over ↦ rw over (ok output, refl)
    ]

-- The loop goes through all the frames.
avcc_loop_complete :
    (frames : List Frame) (fuel : ℕ) (payload : Bytes) (size cursor : ℕ) (output : Bytes)
    → drop cursor payload ≡ avcc frames
    → All (IsFrame size) frames
    → 1 ≤ size
    → cursor ≤ length payload
    → length payload ≤ u64_max
    → length payload < cursor + fuel
    → avcc_loop fuel payload size cursor output ≡ some (ok (output ++ annex_b frames))
unfolding avcc_loop
avcc_loop_complete frames zero payload size cursor output e all some_size here small enough =
    absurd (omega arith)
avcc_loop_complete [] (suc fuel) payload size cursor output e all some_size here small enough =
    let total = drop-length cursor payload [] here e in rw append-nil (ground arith)
avcc_loop_complete ((field, unit) ∷ frames) (suc fuel) payload size cursor output e (fits, all)
      some_size here small enough =
    let (round, rest, inside) =
      round_at_frame payload size cursor output field unit (avcc frames) e fits here small in
    let more : ltb cursor (length payload) ≡ true = lt→ltb _ _ (omega arith) in
    rw (more, round)
      (avcc_loop_complete frames fuel payload size (cursor + size + length unit)
          (output ++ marked unit) rest all some_size inside small (omega arith)
        ∙ ap (λ w. some (ok w)) (append_assoc output (marked unit) (annex_b frames)))

-- `avcc_to_annex_b` answers on every payload and for every size of the length fields.
pub avcc_to_annex_b-ends :
    (payload : Bytes) (size : ℕ) → (r : Result Text Bytes) × (avcc_to_annex_b payload size ≡ some r)
unfolding avcc_to_annex_b
avcc_to_annex_b-ends payload size = elim (Bool-cases (leb 1 size && leb size 4)) [
  | inl valid ↦
      let (r, e) =
        avcc_loop_ends (suc (length payload)) payload size 0 [] (ground arith) (omega arith)
          (omega arith) in
      rw (valid, e) (has_units payload r, refl)
  | inr invalid ↦ rw invalid (_, refl)
]

has_units-eq-ok :
    (payload : Bytes) (r : Result Text Bytes) (output : Bytes)
    → Option.map (has_units payload) (some r) ≡ some (ok output)
    → (r ≡ ok output) × (is_empty output ≡ true → is_empty payload ≡ true)
has_units-eq-ok payload (err why) output h = cc
has_units-eq-ok [] (ok []) output h = (cc, λ e. refl)
has_units-eq-ok (p ∷ payload) (ok []) output h = cc
has_units-eq-ok payload (ok (b ∷ bytes)) output h = let e : output ≡ b ∷ bytes = cc in (cc, λ f. cc)

has_units_lem :
    (payload output : Bytes)
    → (is_empty output ≡ true → is_empty payload ≡ true)
    → has_units payload (ok output) ≡ ok output
has_units_lem [] [] h = refl
has_units_lem (p ∷ payload) [] h = let e = h refl in cc
has_units_lem payload (b ∷ output) h = refl

pub IsAvcc-sound :
    (payload : Bytes) (size : ℕ) (output : Bytes)
    → avcc_to_annex_b payload size ≡ some (ok output)
    → (1 ≤ size) × (size ≤ 4) × IsAvcc size payload output
unfolding avcc_to_annex_b
IsAvcc-sound payload size output h = elim (Bool-cases (leb 1 size && leb size 4)) [
  | inl valid ↦
      let (r, e) =
        avcc_loop_ends (suc (length payload)) payload size 0 [] (ground arith) (omega arith)
          (omega arith) in
      let (done, some_unit) = has_units-eq-ok payload r output (rw (valid, e) at h) in
      let (frames, bytes, all, out) =
        avcc_loop_sound (suc (length payload)) payload size 0 [] (omega arith) (rw done at e) in
      (ground arith, ground arith, (frames, bytes, all, out, some_unit))
  | inr invalid ↦ let e = rw invalid at h in cc
]

IsAvcc-complete :
    (payload : Bytes) (size : ℕ) (output : Bytes)
    → length payload ≤ u64_max
    → 1 ≤ size
    → size ≤ 4
    → IsAvcc size payload output
    → avcc_to_annex_b payload size ≡ some (ok output)
unfolding avcc_to_annex_b
IsAvcc-complete payload size output small low high (frames, bytes, all, out, some_unit) =
    let valid : (leb 1 size && leb size 4) ≡ true = ground arith in
    let e =
      avcc_loop_complete frames (suc (length payload)) payload size 0 [] bytes all low (omega arith)
        small (omega arith) in
    rw (valid, e, ← out) (ap some (has_units_lem payload output some_unit))

-- `avcc_to_annex_b` returns an output exactly if the length fields have 1 to 4 bytes, the payload is
-- a sequence of frames, each a length field with its unit, and the output is their units that are
-- not empty, in order, each behind a start code, with one unit at least unless the payload is empty;
-- for a payload below 2 ^ 64 bytes.
pub avcc_to_annex_b-IsAvcc :
    (payload : Bytes) (size : ℕ) (output : Bytes)
    → length payload ≤ u64_max
    → (avcc_to_annex_b payload size ≡ some (ok output))
      ↔ ((1 ≤ size) × (size ≤ 4) × IsAvcc size payload output)
avcc_to_annex_b-IsAvcc payload size output small = (
  IsAvcc-sound payload size output,
  λ (low, high, framed). IsAvcc-complete payload size output small low high framed,
)
