-- ===== src/Linux/Probe/Names.antt =====
-- What a search among names finds.
use Prim.Native.String.{String}
use mathlib.Core.Option.{some-injective}
use caml.Base.{
  ℕ, ◌≡◌, refl, ◌↔◌, ◌⊎◌, inl, inr, zero, suc, Bool, true, false, ◌&&◌, ◌||◌, List, [], ◌∷◌, Option,
  none, some, any, arith, get_elem?, ap, ◌∙◌,
}
use caml.Linux.Probe.{filter_map, keep_some, all_tokens}
use caml.Text.Search.{HasInside, contains_iff}
use caml.Text.{Text, codes, contains}

-- Every token stands somewhere in the text.
abbrev pub HasAll : Text → List String → Type 0
HasAll name [] = Unit
HasAll name (token ∷ tokens) = HasInside name (codes token) × HasAll name tokens

-- Some element passes the test.
abbrev pub Some {ℓ} : {A : Type ℓ} → (A → Bool) → List A → Type ℓ
Some {A = A} p xs = (i : ℕ) × (x : A) × (get_elem? xs i ≡ some x) × (p x ≡ true)

pub or_iff : (a b : Bool) → (a || b ≡ true) ↔ ((a ≡ true) ⊎ (b ≡ true))
or_iff true b = (λ h. inl refl, λ h. refl)
or_iff false b = (λ h. inr h, λ h. ground arith)

pub and_iff : (a b : Bool) → (a && b ≡ true) ↔ ((a ≡ true) × (b ≡ true))
and_iff true b = (λ h. (refl, h), λ h. h.1)
and_iff false b = (λ h. cc, λ h. cc)

-- Tests decide a choice and a pair where they decide the parts.
pub or_by :
    {P Q : Type 0} (a b : Bool) → (a ≡ true) ↔ P → (b ≡ true) ↔ Q → (a || b ≡ true) ↔ (P ⊎ Q)
or_by a b p q = (
  λ h. elim ((or_iff a b).0 h) [ inl x ↦ inl (p.0 x) | inr y ↦ inr (q.0 y) ],
  λ h. (or_iff a b).1 (elim h [ inl x ↦ inl (p.1 x) | inr y ↦ inr (q.1 y) ]),
)

pub and_by :
    {P Q : Type 0} (a b : Bool) → (a ≡ true) ↔ P → (b ≡ true) ↔ Q → (a && b ≡ true) ↔ (P × Q)
and_by a b p q =
    (λ h. let (x, y) = (and_iff a b).0 h in (p.0 x, q.0 y), λ h. (and_iff a b).1 (p.1 h.0, q.1 h.1))

any-Some {ℓ} : {A : Type ℓ} → (p : A → Bool) (xs : List A) → any p xs ≡ true → Some p xs
any-Some p [] h = cc
any-Some p (x ∷ xs) h = elim ((or_iff (p x) (any p xs)).0 h) [
  | inl here ↦ (0, x, refl, here)
  | inr there ↦ let (i, y, at, e) = any-Some p xs there in (suc i, y, at, e)
]

Some-any {ℓ} :
    {A : Type ℓ}
    → (p : A → Bool) (xs : List A) (i : ℕ) (x : A) → get_elem? xs i ≡ some x
    → p x ≡ true
    → any p xs ≡ true
Some-any p [] i x at e = cc
Some-any p (y ∷ xs) zero x at e =
    (or_iff (p y) (any p xs)).1 (inl (ap p (some-injective y x at) ∙ e))
Some-any p (y ∷ xs) (suc i) x at e = (or_iff (p y) (any p xs)).1 (inr (Some-any p xs i x at e))

pub any_iff {ℓ} : {A : Type ℓ} → (p : A → Bool) (xs : List A) → (any p xs ≡ true) ↔ Some p xs
any_iff p xs = (any-Some p xs, λ h. Some-any p xs h.0 h.1 h.2 h.3)

-- A test of what an element becomes, where it becomes something.
abbrev pub test {ℓ} : {A : Type ℓ} → (A → Bool) → Option A → Bool
test p none = false
test p (some x) = p x

any-keep_some {ℓ} :
    {A : Type ℓ}
    → (p : A → Bool) (kept : Option A) (xs : List A)
    → any p (keep_some kept xs) ≡ (test p kept || any p xs)
any-keep_some p none xs = refl
any-keep_some p (some x) xs = refl

pub any-filter_map {ℓ κ} :
    {A : Type ℓ} {B : Type κ}
    → (p : B → Bool) (f : A → Option B) (xs : List A)
    → any p (filter_map f xs) ≡ any (λ x. test p (f x)) xs
unfolding filter_map
any-filter_map p f [] = refl
any-filter_map p f (x ∷ xs) =
    any-keep_some p (f x) (filter_map f xs) ∙ ap (◌||◌ (test p (f x))) (any-filter_map p f xs)

pub all_tokens-HasAll :
    (name : Text) (tokens : List String) → (all_tokens name tokens ≡ true) ↔ HasAll name tokens
unfolding all_tokens
all_tokens-HasAll name [] = (λ h. tt, λ h. refl)
all_tokens-HasAll name (token ∷ tokens) =
    and_by (contains name (codes token)) (all_tokens name tokens) (contains_iff name (codes token))
      (all_tokens-HasAll name tokens)
