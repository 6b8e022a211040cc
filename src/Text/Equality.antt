-- ===== src/Text/Equality.antt =====
-- `text_eq` decides equality of texts.
use caml.Base.{◌≡◌, refl, ◌↔◌, true, ◌∷◌, arith}
use caml.Text.{Text, text_eq}

pub text_eq_iff : (s t : Text) → (text_eq s t ≡ true) ↔ (s ≡ t)
unfolding text_eq
text_eq_iff (c ∷ s) (d ∷ t) = ground (arith, text_eq_iff s t)
text_eq_iff _ _ = ground arith

pub text_eq_refl : (s : Text) → text_eq s s ≡ true
text_eq_refl s = (text_eq_iff s s).1 refl
