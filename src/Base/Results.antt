-- ===== src/Base/Results.antt =====
-- Rust's `Result`, the `?` operator as bind, loops that stop at the first error, and their laws.
use mathlib.Core.Path.{◌≡◌, refl, ap}
use mathlib.Core.Logic.{◌⊎◌, inl, inr}
use mathlib.Core.Bool.{Bool, true, false}
use mathlib.Core.List.{List, [], ◌∷◌, ◌++◌}
use mathlib.Core.Option.{Option, none, some}
use caml.Base.Lists.{All}

pub data Result {ℓ κ} (E : Type ℓ) (A : Type κ) : Type (ℓ ⊔ κ) where
  ok : A → Result E A
  err : E → Result E A

infixl 5 ◌>>=◌ ◌>>◌
abbrev pub ◌>>=◌ {ε ℓ κ} :
    {E : Type ε} {A : Type ℓ} {B : Type κ} → Result E A → (A → Result E B) → Result E B
ok x >>= next = next x
err why >>= next = err why

abbrev pub ◌>>◌ {ε ℓ} : {E : Type ε} {B : Type ℓ} → Result E (Unit {0}) → Result E B → Result E B
m >> k = m >>= λ _. k

-- `if b { return Err(e); }`.
abbrev pub reject_if {ε} : {E : Type ε} → Bool → E → Result E (Unit {0})
reject_if true e = err e
reject_if false e = ok tt

pub reject_if-eq-ok {ε} :
    {E : Type ε} (b : Bool) (e : E) {u : Unit {0}} → reject_if b e ≡ ok u → b ≡ false
reject_if-eq-ok true e h = cc
reject_if-eq-ok false e h = refl

-- `Option::ok_or`.
abbrev pub ok_or {ε ℓ} : {E : Type ε} {A : Type ℓ} → Option A → E → Result E A
ok_or none e = err e
ok_or (some a) e = ok a

module _ {ε ℓ} {E : Type ε} {A : Type ℓ} where
  -- `for x in xs { f(x)?; }`.
  abbrev pub try_each : (A → Result E (Unit {0})) → List A → Result E (Unit {0})
  try_each f [] = ok tt
  try_each f (x ∷ xs) = f x >> try_each f xs

  -- `xs.iter().map(f).collect::<Result<Vec<_>, _>>()`.
  abbrev pub try_map {κ} : {B : Type κ} → (A → Result E B) → List A → Result E (List B)
  try_map f [] = ok []
  try_map f (x ∷ xs) = f x >>= λ y. try_map f xs >>= λ ys. ok (y ∷ ys)

module _ {ε ℓ κ} {E : Type ε} {A : Type ℓ} {B : Type κ} where
  -- A chain that succeeds went through both of its parts.
  pub >>=-eq-ok :
      (r : Result E A) (next : A → Result E B) {y : B}
      → (r >>= next) ≡ ok y
      → (x : A) × (r ≡ ok x) × (next x ≡ ok y)
  >>=-eq-ok (ok x) next done = (x, refl, done)
  >>=-eq-ok (err why) next done = cc

  pub >>=-eq-err :
      (r : Result E A) (next : A → Result E B) {why : E}
      → (r >>= next) ≡ err why
      → (r ≡ err why) ⊎ ((x : A) × (r ≡ ok x) × (next x ≡ err why))
  >>=-eq-err (ok x) next failed = inr (x, refl, failed)
  >>=-eq-err (err e) next failed = inl cc

module _ {ε ℓ} {E : Type ε} {A : Type ℓ} where
  pub Result-cases : (r : Result E A) → ((x : A) × (r ≡ ok x)) ⊎ ((why : E) × (r ≡ err why))
  Result-cases (ok x) = inl (x, refl)
  Result-cases (err why) = inr (why, refl)

  pub ok_or-eq-ok : (o : Option A) (e : E) {a : A} → ok_or o e ≡ ok a → o ≡ some a
  ok_or-eq-ok none e h = cc
  ok_or-eq-ok (some b) e h = cc

  -- The loop succeeds exactly when every round does.
  pub try_each-eq-ok :
      (f : A → Result E (Unit {0})) (xs : List A)
      → try_each f xs ≡ ok tt
      → All (λ x. f x ≡ ok tt) xs
  try_each-eq-ok f [] h = tt
  try_each-eq-ok f (x ∷ xs) h =
      let (u, first, later) = >>=-eq-ok (f x) (λ _. try_each f xs) h in
      (first, try_each-eq-ok f xs later)

  pub try_each-All :
      (f : A → Result E (Unit {0})) (xs : List A)
      → All (λ x. f x ≡ ok tt) xs
      → try_each f xs ≡ ok tt
  try_each-All f [] h = refl
  try_each-All f (x ∷ xs) h = rw h.0 (try_each-All f xs h.1)

  -- A loop that fails fails at its first bad round.
  pub try_each-eq-err :
      (f : A → Result E (Unit {0})) (xs : List A) {e : E}
      → try_each f xs ≡ err e
      → (before : List A) × (x : A) × (after : List A) × (xs ≡ before ++ x ∷ after)
        × All (λ y. f y ≡ ok tt) before
        × (f x ≡ err e)
  try_each-eq-err f [] h = cc
  try_each-eq-err f (x ∷ xs) h = elim (>>=-eq-err (f x) (λ _. try_each f xs) h) [
    | inl first ↦ ([], x, xs, refl, tt, first)
    | inr (_, fine, later) ↦
        let (before, y, after, e, all, bad) = try_each-eq-err f xs later in
        (x ∷ before, y, after, ap (◌∷◌ x) e, (fine, all), bad)
  ]
