-- ===== src/Ffmpeg/H264/ParameterSets/Search.antt =====
-- The search for start codes passes over no unit.
use caml.Base.{
  ℕ, zero, suc, ◌+◌, ◌-◌, ◌≤◌, ◌<◌, ◌≡◌, refl, ap, ◌∙◌, ◌⊎◌, inl, inr, true, false, Bool-cases,
  ◌&&◌, ◌||◌, [], ◌∷◌, ◌++◌, length, Option, none, some, leb, drop, arith,
}
use caml.Text.{text_eq}
use caml.Text.Equality.{text_eq_iff}
use caml.Ffmpeg.H264.{
  Bytes, start_code, short_start_code, slice, find_from, find_start_code, offset_or_end,
}
use caml.Ffmpeg.H264.Slices.{drop-byte_at, drop-slice, slice_front, length-drop, drop_end}
use caml.Ffmpeg.H264.ParameterSets.{has_type, opens_unit, has_unit}

opens_unit-eq-true :
    (t : ℕ) (bytes : Bytes)
    → opens_unit t bytes ≡ true
    → (unit : Bytes) × (bytes ≡ short_start_code ++ unit)
opens_unit-eq-true t [] h = cc
opens_unit-eq-true t (a ∷ []) h = cc
opens_unit-eq-true t (a ∷ b ∷ []) h = cc
opens_unit-eq-true t (a ∷ b ∷ c ∷ unit) h =
    let ea : a ≡ 0 = ground arith in
    let eb : b ≡ 0 = ground arith in let ec : c ≡ 1 = ground arith in (unit, rw (ea, eb, ec) refl)

-- Behind a start code of either form.
has_unit-short :
    (t : ℕ) (rest : Bytes)
    → has_unit t (short_start_code ++ rest) ≡ has_type t rest || has_unit t rest
has_unit-short t [] = refl
has_unit-short t (d ∷ []) = ground arith
has_unit-short t (d ∷ e ∷ rest) = ground arith

has_unit-long :
    (t : ℕ) (rest : Bytes) → has_unit t (start_code ++ rest) ≡ has_type t rest || has_unit t rest
has_unit-long t rest = has_unit-short t rest

-- Where no start code stands.
has_unit_few : (t : ℕ) (bytes : Bytes) → length bytes < 3 → has_unit t bytes ≡ false
has_unit_few t [] h = refl
has_unit_few t (a ∷ []) h = refl
has_unit_few t (a ∷ b ∷ []) h = refl
has_unit_few t (a ∷ b ∷ c ∷ bytes) h = absurd (omega arith)

module _ (payload : Bytes) where
  -- A start code of `code_len` bytes stands at the index.
  abbrev pub IsCode : ℕ → ℕ → Type 0
  IsCode index code_len =
      ((code_len ≡ 4) × (drop index payload ≡ start_code ++ drop (index + 4) payload))
      ⊎ ((code_len ≡ 3) × (drop index payload ≡ short_start_code ++ drop (index + 3) payload))

  code_at :
      (index n : ℕ) (code : Bytes)
      → index + n ≤ length payload
      → text_eq (slice payload index (index + n)) code ≡ true
      → drop index payload ≡ code ++ drop (index + n) payload
  code_at index n code inside h =
      drop-slice payload index (index + n) (omega arith)
      ∙ ap (λ b. b ++ drop (index + n) payload) ((text_eq_iff _ code).0 h)

  no_code_at :
      (t index : ℕ)
      → index + 3 ≤ length payload
      → text_eq (slice payload index (index + 3)) short_start_code ≡ false
      → has_unit t (drop index payload) ≡ has_unit t (drop (index + 1) payload)
  no_code_at t index inside h = elim (Bool-cases (opens_unit t (drop index payload))) [
    | inl opens ↦
        let (unit, e) = opens_unit-eq-true t _ opens in
        let same =
          (text_eq_iff _ short_start_code).1 (slice_front payload index short_start_code unit e) in
        cc
    | inr shut ↦
        let e = drop-byte_at index payload (omega arith) in
        let next : drop (suc index) payload ≡ drop (index + 1) payload =
          ap (λ (k : ℕ). drop k payload) {x = suc index} (omega arith) in
        rw (e, next) (ground (arith, rw (e, next) at shut))
  ]

  -- What a search from the index answers: no unit is passed over.
  abbrev pub Finds : ℕ → Option (ℕ × ℕ) → Type 0
  Finds index none = (t : ℕ) → has_unit t (drop index payload) ≡ false
  Finds index (some (start, code_len)) =
      (index ≤ start)
      × (start + code_len ≤ length payload)
      × IsCode start code_len
      × ((t : ℕ) → has_unit t (drop index payload) ≡ has_unit t (drop start payload))

  Finds-later :
      (index : ℕ) (r : Option (ℕ × ℕ))
      → ((t : ℕ) → has_unit t (drop index payload) ≡ has_unit t (drop (index + 1) payload))
      → Finds (index + 1) r
      → Finds index r
  Finds-later index none same f = λ t. same t ∙ f t
  Finds-later index (some (start, code_len)) same (after, inside, code, skips) =
      (omega arith, inside, code, λ t. same t ∙ skips t)

  find_from-Finds :
      (fuel index : ℕ) → length payload ≤ index + fuel → Finds index (find_from fuel payload index)
  unfolding find_from
  find_from-Finds zero index enough =
      λ t. has_unit_few t (drop index payload) (omega (arith, length-drop index payload))
  find_from-Finds (suc fuel) index enough = elim (Bool-cases (leb (index + 3) (length payload))) [
    | inr short ↦
        rw short
          λ t. has_unit_few t (drop index payload) (ground (arith, length-drop index payload))
    | inl long ↦
        elim (Bool-cases (
          leb (index + 4) (length payload)
          && text_eq (slice payload index (index + 4)) start_code)) [
            | inl four ↦
                rw (long, four)
                  (
                    omega arith,
                    ground arith,
                    inl (refl, code_at index 4 start_code (ground arith) (ground arith)),
                    λ t. refl,
                  )
            | inr not_four ↦
                elim (Bool-cases (text_eq (slice payload index (index + 3)) short_start_code)) [
                  | inl three ↦
                      rw (long, not_four, three)
                        (
                          omega arith,
                          ground arith,
                          inr (refl, code_at index 3 short_start_code (ground arith) three),
                          λ t. refl,
                        )
                  | inr not_three ↦
                      rw (long, not_four, not_three)
                        (Finds-later index (find_from fuel payload (index + 1))
                          (λ t. no_code_at t index (ground arith) not_three)
                          (find_from-Finds fuel (index + 1) (omega arith)))
                ]
          ]
  ]

  pub find_start_code-Finds : (offset : ℕ) → Finds offset (find_start_code payload offset)
  unfolding find_start_code
  find_start_code-Finds offset = find_from-Finds (length payload - offset) offset (omega arith)

  -- The unit behind a start code, and the place of the next start code.
  pub has_unit_at :
      (t start code_len : ℕ)
      → IsCode start code_len
      → has_unit t (drop start payload)
        ≡ has_type t (drop (start + code_len) payload)
          || has_unit t (drop (start + code_len) payload)
  has_unit_at t start code_len (inl (e, code)) =
      rw (e, code) (has_unit-long t (drop (start + 4) payload))
  has_unit_at t start code_len (inr (e, code)) =
      rw (e, code) (has_unit-short t (drop (start + 3) payload))

  -- The next start code, or the end.
  abbrev pub Nexts : ℕ → ℕ → Type 0
  Nexts from next =
      (from ≤ next)
      × (next ≤ length payload)
      × ((t : ℕ) → has_unit t (drop from payload) ≡ has_unit t (drop next payload))
      × (next ≡ from
          → (has_type 7 (drop from payload) ≡ false) × (has_type 8 (drop from payload) ≡ false))

  code_has_no_type :
      (start code_len : ℕ)
      → IsCode start code_len
      → (has_type 7 (drop start payload) ≡ false) × (has_type 8 (drop start payload) ≡ false)
  code_has_no_type start code_len (inl (e, code)) = rw code (refl, refl)
  code_has_no_type start code_len (inr (e, code)) = rw code (refl, refl)

  pub offset_or_end-Nexts :
      (from : ℕ) (r : Option (ℕ × ℕ))
      → from ≤ length payload
      → Finds from r
      → Nexts from (offset_or_end payload r)
  offset_or_end-Nexts from none here f = (
    here,
    omega arith,
    λ t. f t ∙ rw (drop_end payload) refl,
    λ e. rw (← e, drop_end payload) (refl, refl),
  )
  offset_or_end-Nexts from (some (start, code_len)) here (after, inside, code, skips) =
      (after, omega arith, skips, λ e. rw (← e) (code_has_no_type start code_len code))
