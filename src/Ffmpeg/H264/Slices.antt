-- ===== src/Ffmpeg/H264/Slices.antt =====
-- Slices of a byte sequence, by the bytes that follow an index.
use caml.Base.{
  ℕ, zero, suc, ◌+◌, ◌-◌, ◌≤◌, ◌<◌, ◌≡◌, refl, sym, ap, ◌∙◌, List, [], ◌∷◌, ◌++◌, length, take,
  drop, arith,
}
use caml.Ffmpeg.H264.{Bytes, byte_at, slice}

module _ {ℓ} {A : Type ℓ} where
  pub length-drop : (n : ℕ) (xs : List A) → length (drop n xs) ≡ length xs - n
  length-drop zero xs = omega arith
  length-drop (suc n) [] = omega arith
  length-drop (suc n) (x ∷ xs) = omega (arith, length-drop n xs)

  pub length-take : (n : ℕ) (xs : List A) → n ≤ length xs → length (take n xs) ≡ n
  length-take zero xs h = refl
  length-take (suc n) [] h = elim h [ ]
  length-take (suc n) (x ∷ xs) h = ap suc (length-take n xs (omega arith))

  pub take-drop : (n : ℕ) (xs : List A) → xs ≡ take n xs ++ drop n xs
  take-drop zero xs = refl
  take-drop (suc n) [] = refl
  take-drop (suc n) (x ∷ xs) = ap (◌∷◌ x) (take-drop n xs)

  drop-nil : (n : ℕ) → drop {A = A} n [] ≡ []
  drop-nil zero = refl
  drop-nil (suc n) = refl

  pub drop-drop : (n m : ℕ) (xs : List A) → drop m (drop n xs) ≡ drop (n + m) xs
  drop-drop zero m xs = ap (λ (k : ℕ). drop k xs) (omega arith)
  drop-drop (suc n) m [] = drop-nil m ∙ sym (drop-nil (suc n + m))
  drop-drop (suc n) m (x ∷ xs) =
      drop-drop n m xs ∙ ap (λ (k : ℕ). drop k (x ∷ xs)) {x = suc (n + m)} (omega arith)

  pub drop-append : (xs ys : List A) → drop (length xs) (xs ++ ys) ≡ ys
  drop-append [] ys = refl
  drop-append (x ∷ xs) ys = drop-append xs ys

  pub take-append : (xs ys : List A) → take (length xs) (xs ++ ys) ≡ xs
  take-append [] ys = refl
  take-append (x ∷ xs) ys = ap (◌∷◌ x) (take-append xs ys)

  pub drop_end : (xs : List A) → drop (length xs) xs ≡ []
  drop_end [] = refl
  drop_end (x ∷ xs) = drop_end xs

-- The byte at an index stands in front of the others behind it.
pub drop-byte_at :
    (n : ℕ) (bytes : Bytes) → n < length bytes → drop n bytes ≡ byte_at bytes n ∷ drop (suc n) bytes
drop-byte_at n [] h = elim h [ ]
drop-byte_at zero (b ∷ bytes) h = refl
drop-byte_at (suc n) (b ∷ bytes) h = drop-byte_at n bytes (omega arith)

pub byte_at-drop :
    (n : ℕ) (bytes : Bytes) (b : ℕ) (rest : Bytes) → drop n bytes ≡ b ∷ rest → byte_at bytes n ≡ b
byte_at-drop zero [] b rest e = cc
byte_at-drop (suc n) [] b rest e = cc
byte_at-drop zero (c ∷ bytes) b rest e = cc
byte_at-drop (suc n) (c ∷ bytes) b rest e = byte_at-drop n bytes b rest e

-- The end of an index whose remaining bytes are known.
pub drop-length :
    (n : ℕ) (bytes rest : Bytes)
    → n ≤ length bytes
    → drop n bytes ≡ rest
    → n + length rest ≡ length bytes
drop-length n bytes rest h e = omega (arith, ap (λ (b : Bytes). length b) e, length-drop n bytes)

-- A slice and what follows it make up the bytes from its start on.
pub drop-slice :
    (bytes : Bytes) (from to : ℕ)
    → from ≤ to
    → drop from bytes ≡ slice bytes from to ++ drop to bytes
drop-slice bytes from to h =
    take-drop (to - from) (drop from bytes)
    ∙ ap (λ b. slice bytes from to ++ b)
        (drop-drop from (to - from) bytes ∙ ap (λ k. drop k bytes) (omega arith))

pub length-slice :
    (bytes : Bytes) (from to : ℕ)
    → from ≤ to
    → to ≤ length bytes
    → length (slice bytes from to) ≡ to - from
length-slice bytes from to h k =
    length-take (to - from) (drop from bytes) (omega (arith, length-drop from bytes))

-- Bytes that are known to follow an index are the slice there, and the rest follows that.
pub slice_front :
    (bytes : Bytes) (from : ℕ) (front rest : Bytes)
    → drop from bytes ≡ front ++ rest
    → slice bytes from (from + length front) ≡ front
slice_front bytes from front rest e =
    ap (λ b. take (from + length front - from) b) e
    ∙ ap (λ k. take k (front ++ rest)) (omega arith)
    ∙ take-append front rest

pub drop_behind :
    (bytes : Bytes) (from : ℕ) (front rest : Bytes)
    → drop from bytes ≡ front ++ rest
    → drop (from + length front) bytes ≡ rest
drop_behind bytes from front rest e =
    sym (drop-drop from (length front) bytes) ∙ ap (drop (length front)) e ∙ drop-append front rest
