-- ===== src/Text/Search.antt =====
-- `starts_with` and `contains` find exactly the texts that stand there.
use caml.Base.{◌≡◌, refl, ap, ◌↔◌, inl, inr, true, [], ◌∷◌, ◌++◌, arith, Bool-cases}
use caml.Text.{Text, starts_with, contains}

-- `t` stands at the head of `s`, and somewhere in `s`.
abbrev pub HasPrefix : Text → Text → Type 0
HasPrefix s t = (rest : Text) × (s ≡ t ++ rest)

abbrev pub HasInside : Text → Text → Type 0
HasInside s t = (before : Text) × (rest : Text) × (s ≡ before ++ (t ++ rest))

starts_with-HasPrefix : (s t : Text) → starts_with s t ≡ true → HasPrefix s t
unfolding starts_with
starts_with-HasPrefix s [] h = (s, refl)
starts_with-HasPrefix [] (d ∷ t) h = cc
starts_with-HasPrefix (c ∷ s) (d ∷ t) h =
    let both : (c ≡ d) × (starts_with s t ≡ true) = ground arith in
    let (rest, e) = starts_with-HasPrefix s t both.1 in (rest, cc (both.0, e))

starts_with_append : (t rest : Text) → starts_with (t ++ rest) t ≡ true
unfolding starts_with
starts_with_append [] rest = refl
starts_with_append (d ∷ t) rest = ground (arith, starts_with_append t rest)

contains-HasInside : (s t : Text) → contains s t ≡ true → HasInside s t
unfolding contains
contains-HasInside [] t h = let (rest, e) = starts_with-HasPrefix [] t h in ([], rest, e)
contains-HasInside (c ∷ s) t h = elim (Bool-cases (starts_with (c ∷ s) t)) [
  | inl here ↦ let (rest, e) = starts_with-HasPrefix (c ∷ s) t here in ([], rest, e)
  | inr not_here ↦
      let (before, rest, e) = contains-HasInside s t (rw not_here at h) in
      (c ∷ before, rest, ap (◌∷◌ c) e)
]

contains_head : (s t : Text) → starts_with s t ≡ true → contains s t ≡ true
unfolding contains
contains_head [] t h = h
contains_head (c ∷ s) t h = rw h

contains_append : (before t rest : Text) → contains (before ++ (t ++ rest)) t ≡ true
unfolding contains
contains_append [] t rest = contains_head (t ++ rest) t (starts_with_append t rest)
contains_append (c ∷ before) t rest = ground (arith, contains_append before t rest)

pub contains_iff : (s t : Text) → (contains s t ≡ true) ↔ HasInside s t
contains_iff s t = (contains-HasInside s t, λ h. rw h.2 (contains_append h.0 t h.1))

pub starts_with_iff : (s t : Text) → (starts_with s t ≡ true) ↔ HasPrefix s t
starts_with_iff s t = (starts_with-HasPrefix s t, λ h. rw h.1 (starts_with_append t h.0))
