-- ===== src/Text/Trim.antt =====
-- What `trim` leaves alone.
use caml.Base.{ℕ, false, ◌≡◌, refl, ◌∙◌, ap, [], ◌∷◌, ◌++◌}
use caml.Text.{Text, is_whitespace, trim_start, trim_end, trim, keep_before}

keep_before-concat : (d : ℕ) (s : Text) (c : ℕ) → keep_before d (s ++ c ∷ []) ≡ d ∷ (s ++ c ∷ [])
keep_before-concat d [] c = refl
keep_before-concat d (e ∷ s) c = refl

-- The last character of `s ++ c ∷ []` is no whitespace, so nothing is trimmed off its end.
trim_end-concat :
    (s : Text) (c : ℕ) → is_whitespace c ≡ false → trim_end (s ++ c ∷ []) ≡ s ++ c ∷ []
unfolding trim_end
trim_end-concat [] c h = rw h
trim_end-concat (d ∷ s) c h = ap (keep_before d) (trim_end-concat s c h) ∙ keep_before-concat d s c

-- A text of two characters or more that neither begins nor ends with whitespace.
pub trim_fixed :
    (b : ℕ) (s : Text) (c : ℕ)
    → is_whitespace b ≡ false
    → is_whitespace c ≡ false
    → trim (b ∷ (s ++ c ∷ [])) ≡ b ∷ (s ++ c ∷ [])
unfolding trim trim_start
trim_fixed b s c hb hc =
    rw hb (ap (keep_before b) (trim_end-concat s c hc) ∙ keep_before-concat b s c)
