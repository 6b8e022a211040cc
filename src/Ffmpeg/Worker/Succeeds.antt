-- ===== src/Ffmpeg/Worker/Succeeds.antt =====
-- When a result is a success: laws of chains, tests and loops.
use caml.Base.{
  ◌≡◌, refl, subst, ◌↔◌, ◌⊎◌, inl, inr, Bool, true, false, not, ◌&&◌, List, [], ◌∷◌, Option, none,
  some, Result, ok, err, ◌>>=◌, ◌>>◌, reject_if, ok_or, try_each, All, if◌then◌else◌,
}
use caml.Ffmpeg.Checks.{map_err}

abbrev pub Succeeds {ε ℓ} : {E : Type ε} {A : Type ℓ} → Result E A → Type (ε ⊔ ℓ)
Succeeds {A = A} r = (x : A) × (r ≡ ok x)

-- A chain succeeds exactly when its parts do.
pub chain_iff {ε ℓ κ} :
    {E : Type ε} {A : Type ℓ} {B : Type κ}
    → (r : Result E A) (next : A → Result E B)
    → Succeeds (r >>= next) ↔ ((x : A) × (r ≡ ok x) × Succeeds (next x))
chain_iff (ok x) next =
    (λ h. (x, refl, h), λ h. let same : h.0 ≡ x = cc in subst (λ y. Succeeds (next y)) same h.2)
chain_iff (err e) next = (λ h. cc, λ h. cc)

pub seq_iff {ε ℓ κ} :
    {E : Type ε} {A : Type ℓ} {B : Type κ}
    → (r : Result E A) (k : Result E B) → Succeeds (r >>= λ _. k) ↔ (Succeeds r × Succeeds k)
seq_iff (ok x) k = (λ h. ((x, refl), h), λ h. h.1)
seq_iff (err e) k = (λ h. cc, λ h. cc)

pub map_err_iff {ε δ ℓ} :
    {E : Type ε} {F : Type δ} {A : Type ℓ}
    → (f : E → F) (r : Result E A) → Succeeds (map_err f r) ↔ Succeeds r
map_err_iff f (ok x) = (λ h. (x, refl), λ h. (x, refl))
map_err_iff f (err e) = (λ h. cc, λ h. cc)

pub test_iff {ε ℓ} :
    {E : Type ε} {A : Type ℓ}
    → (b : Bool) (x : A) (r : Result E A)
    → Succeeds (if b then ok x else r) ↔ ((b ≡ true) ⊎ Succeeds r)
test_iff true x r = (λ h. inl refl, λ h. (x, refl))
test_iff false x r = (λ h. inr h, λ h. elim h [ inl never ↦ cc | inr later ↦ later ])

pub no_error {ε ℓ} : {E : Type ε} {A : Type ℓ} → (e : E) → Succeeds {E = E} {A = A} (err e) → ⊥
no_error e h = cc

pub option_iff {ε ℓ} :
    {E : Type ε} {A : Type ℓ}
    → (o : Option A) (e : E) → Succeeds (ok_or o e) ↔ ((a : A) × (o ≡ some a))
option_iff none e = (λ h. cc, λ h. cc)
option_iff (some a) e = (λ h. (a, refl), λ h. (a, refl))

-- Two questions on a file that both want the answer true.
pub asset_iff {ε δ} :
    {E : Type ε} {F : Type δ}
    → (f g : E → F) (e k : F) (m v : Result E Bool)
    → ((map_err f m >>= λ b. reject_if (not b) e >> (map_err g v >>= λ c. reject_if (not c) k))
        ≡ ok tt)
      ↔ ((m ≡ ok true) × (v ≡ ok true))
asset_iff f g e k (ok true) (ok true) = (λ h. (refl, refl), λ h. refl)
asset_iff f g e k (ok true) (ok false) = (λ h. cc, λ h. cc)
asset_iff f g e k (ok true) (err why) = (λ h. cc, λ h. cc)
asset_iff f g e k (ok false) v = (λ h. cc, λ h. cc)
asset_iff f g e k (err why) v = (λ h. cc, λ h. cc)

pub unit_iff {ε} : {E : Type ε} → (r : Result E (Unit {0})) → Succeeds r ↔ (r ≡ ok tt)
unit_iff r = (λ h. h.1, λ h. (tt, h))

pub reject_unless_iff {ε} :
    {E : Type ε} → (b : Bool) (e : E) → Succeeds (reject_if (not b) e) ↔ (b ≡ true)
reject_unless_iff true e = (λ h. refl, λ h. (tt, refl))
reject_unless_iff false e = (λ h. cc, λ h. cc)

pub then_iff {ℓ κ ρ} : {P : Type ℓ} {Q : Type κ} {R : Type ρ} → P ↔ Q → Q ↔ R → P ↔ R
then_iff f g = (λ h. g.0 (f.0 h), λ h. f.1 (g.1 h))

pub both {ε ℓ κ} :
    {E : Type ε} {A : Type ℓ} {B : Type κ} {P Q : Type 0}
    → (r : Result E A) (k : Result E B) → Succeeds r ↔ P
    → Succeeds k ↔ Q
    → Succeeds (r >>= λ _. k) ↔ (P × Q)
both r k f g =
    (λ h. let (a, b) = (seq_iff r k).0 h in (f.0 a, g.0 b), λ h. (seq_iff r k).1 (f.1 h.0, g.1 h.1))

pub font_iff {ε} :
    {E : Type ε}
    → (text font : Bool) (e : E)
    → Succeeds (reject_if (text && not font) e) ↔ ((text ≡ false) ⊎ (font ≡ true))
font_iff true true e = (λ h. inr refl, λ h. (tt, refl))
font_iff true false e = (λ h. cc, λ h. elim h [ inl never ↦ cc | inr never ↦ cc ])
font_iff false font e = (λ h. inl refl, λ h. (tt, refl))

pub each_iff {ε ℓ} :
    {E : Type ε} {A : Type ℓ}
    → (f : A → Result E (Unit {0})) (P : A → Type 0) → ((x : A) → (f x ≡ ok tt) ↔ P x)
    → (xs : List A) → Succeeds (try_each f xs) ↔ All P xs
each_iff f P h [] = (λ done. tt, λ all. (tt, refl))
each_iff f P h (x ∷ xs) =
    both (f x) (try_each f xs) (then_iff (unit_iff (f x)) (h x)) (each_iff f P h xs)
