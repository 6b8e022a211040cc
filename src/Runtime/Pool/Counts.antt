-- ===== src/Runtime/Pool/Counts.antt =====
-- The statistics of a pool add up.
use caml.Base.{
  ℕ, zero, suc, ◌+◌, ◌≤◌, ◌<◌, ◌≡◌, refl, inl, inr, Bool-cases, List, [], ◌∷◌, Option, none, some,
  arith, ◌==◌, length, get_elem?, remove_at, tally, tally-remove_at, length-remove_at,
  get_elem?-above,
}
use caml.Runtime.Pool.Invariant.{Inv, SlotInv}
use caml.Runtime.Pool.Slots.{at_here, at_there}
use caml.Runtime.Pool.World.{at, free_at, writers_at, readers_at}
use caml.Runtime.Pool.{BufferSlot, BufferPool, MediaBuffer, PooledBuffer, stats}

-- A number that occurs stands at some index.
index_of : (x : ℕ) (xs : List ℕ) → 0 < tally (at x) xs → (k : ℕ) × (get_elem? xs k ≡ some x)
index_of x [] pos = absurd (omega arith)
index_of x (y ∷ xs) pos = elim (Bool-cases (y == x)) [
  | inl here ↦ let e : y ≡ x = ground arith in (0, rw e refl)
  | inr there ↦ let (k, found) = index_of x xs (omega (arith, at_there y x there)) in (suc k, found)
]

-- A number that occurs once at most is gone with one of its places.
gone_once :
    (n : ℕ) (xs : List ℕ) (k : ℕ)
    → get_elem? xs k ≡ some n
    → tally (at n) xs ≤ 1
    → tally (at n) (remove_at xs k) ≡ 0
gone_once n xs k found once = omega (arith, tally-remove_at (at n) xs k n found, at_here n, once)

once_free : (o : Option BufferSlot) (f w r : ℕ) → SlotInv o f w r → f ≤ 1
once_free none f w r h = omega (arith, h)
once_free (some s) f w r h = omega (arith, h.0)

-- Numbers below `n`, none of them twice, are `n` at most.
distinct_below :
    (n : ℕ) (xs : List ℕ)
    → ((i : ℕ) → tally (at i) xs ≤ 1)
    → ((i : ℕ) → n ≤ i → tally (at i) xs ≡ 0)
    → length xs ≤ n
distinct_below zero [] once below = omega arith
distinct_below zero (x ∷ xs) once below = absurd (omega (arith, below x (omega arith), at_here x))
distinct_below (suc n) xs once below = elim (Bool-cases (tally (at n) xs == 0)) [
  | inl unused ↦
      let none_here : tally (at n) xs ≡ 0 = ground arith in
      let shorter = distinct_below n xs once λ i le. elim (Bool-cases (n == i)) [
        | inl here ↦ let e : n ≡ i = ground arith in rw e at none_here
        | inr there ↦ below i (ground (arith, le))
      ] in
      omega (arith, shorter)
  | inr used ↦
      let (k, found) = index_of n xs (ground arith) in
      let left = λ (i : ℕ). tally-remove_at (at i) xs k n found in
      let shorter =
        distinct_below n (remove_at xs k) (λ i. omega (arith, once i, left i))
          λ i le. elim (Bool-cases (n == i)) [
            | inl here ↦ let e : n ≡ i = ground arith in rw e at (gone_once n xs k found (once n))
            | inr there ↦ omega (arith, below i (ground (arith, le)), left i)
          ] in
      omega (arith, shorter, length-remove_at xs k n found)
]

-- Under the invariant, the buffers that are available and those in use are all that were allocated,
-- and the high-water mark is the number of slots.
pub stats-Inv :
    (p : BufferPool) (ws : List MediaBuffer) (rs : List PooledBuffer)
    → Inv p ws rs
    → ((stats p).available + (stats p).in_use ≡ p.allocated_count)
      × ((stats p).high_watermark ≡ length p.slots)
unfolding stats
stats-Inv p ws rs inv =
    let few =
      distinct_below (length p.slots) p.free_indices
        (λ i. once_free (get_elem? p.slots i) _ _ _ (inv.slot_inv i))
        (λ i le.
          let gone : free_at i p + writers_at i ws + readers_at i rs ≡ 0 =
            rw (get_elem?-above p.slots i le) at (inv.slot_inv i) in
          omega (arith, gone)) in
    (omega (arith, few, inv.counted), omega (arith, inv.counted, inv.watermark))
