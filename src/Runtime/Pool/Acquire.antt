-- ===== src/Runtime/Pool/Acquire.antt =====
-- `acquire` never panics, and the slot that it hands out is nobody else's.
use caml.Base.{
  ℕ, zero, suc, ◌+◌, ◌≡◌, refl, sym, ◌∙◌, inl, inr, List, [], ◌∷◌, none, some, arith, length,
  get_elem?, set, tally, Option-cases, length-set, length-append, get_elem?-lt, get_elem?-above,
}
use caml.Runtime.Pool.Invariant.{SlotInv, Inv, SlotInv-set, SlotInv-append, slot_of}
use caml.Runtime.Pool.Slots.{at_here, at_there, reuse_lem}
use caml.Runtime.Pool.World.{at, free_at, writers_at, readers_at}
use caml.Runtime.Pool.{
  clear, fresh_slot, BufferPool, MediaBuffer, PooledBuffer, reuse, allocate, acquire_from, acquire,
  with_capacity, add_slot, add_slots, preallocate,
}

module _ (p : BufferPool) (ws : List MediaBuffer) (rs : List PooledBuffer) (inv : Inv p ws rs) where
  allocate-Inv : (address : ℕ) → Inv (allocate address p).1 ((allocate address p).0 ∷ ws) rs
  unfolding allocate
  allocate-Inv address =
      let n = length p.slots in
      let unused : free_at n p + writers_at n ws + readers_at n rs ≡ 0 =
        rw (get_elem?-above p.slots n (omega arith)) at (inv.slot_inv n) in
      record {
        slot_inv =
            SlotInv-append p.slots (fresh_slot none) (λ i. free_at i p) (λ i. writers_at i ws)
              (λ i. readers_at i rs) (λ i. free_at i p) (λ i. at i n + writers_at i ws)
              (λ i. readers_at i rs) inv.slot_inv
              (λ i h. (refl, rw (at_there n i h) (omega arith), refl))
              (omega (arith, at_here n), omega arith, omega arith);
        counted = rw (length-append p.slots (fresh_slot none ∷ [])) (omega (arith, inv.counted));
        watermark = omega (arith, inv.watermark);
      }

  reuse-Inv :
      (idx : ℕ) (rest : List ℕ)
      → p.free_indices ≡ idx ∷ rest
      → (b : MediaBuffer) × (q : BufferPool) × (reuse p idx rest (get_elem? p.slots idx)
          ≡ some (b, q))
        × Inv q (b ∷ ws) rs
  reuse-Inv idx rest e =
      let free : (i : ℕ) → free_at i p ≡ at i idx + tally (at i) rest = λ i. rw e in
      let (s, es, fits) =
        slot_of (get_elem? p.slots idx) (free_at idx p) (writers_at idx ws) (readers_at idx rs)
          (inv.slot_inv idx) (omega (arith, free idx, at_here idx)) in
      let lt = get_elem?-lt p.slots idx s es in
      let counts : (tally (at idx) rest + writers_at idx ws + readers_at idx rs ≡ 0) =
        omega (arith, fits.0, free idx, at_here idx) in
      elim (Option-cases s.bytes) [
        | inl missing ↦
            let zero_free : free_at idx p + readers_at idx rs ≡ 0 = rw missing at (fits.2) in
            absurd (omega (arith, zero_free, free idx, at_here idx))
        | inr (v, held) ↦ (
          record { bytes = clear v; slot_index = idx },
          record p { slots = set p.slots idx (record s { bytes = none }); free_indices = rest },
          reuse_lem p idx rest s v es held,
          record {
            slot_inv =
                SlotInv-set p.slots idx (record s { bytes = none }) (λ i. free_at i p)
                  (λ i. writers_at i ws) (λ i. readers_at i rs) (λ i. tally (at i) rest)
                  (λ i. at i idx + writers_at i ws) (λ i. readers_at i rs) lt inv.slot_inv
                  (λ i h. (
                    omega (arith, free i, at_there idx i h),
                    omega (arith, at_there idx i h),
                    refl,
                  ))
                  (omega (arith, at_here idx, counts), fits.1, omega (arith, counts));
            counted = inv.counted ∙ sym (length-set p.slots idx _);
            watermark = inv.watermark;
          },
        )
      ]

  acquire_from-Inv :
      (address : ℕ) (free : List ℕ)
      → p.free_indices ≡ free
      → (b : MediaBuffer) × (q : BufferPool) × (acquire_from address p free ≡ some (b, q))
        × Inv q (b ∷ ws) rs
  acquire_from-Inv address [] e =
      ((allocate address p).0, (allocate address p).1, refl, allocate-Inv address)
  acquire_from-Inv address (idx ∷ rest) e = reuse-Inv idx rest e

  pub acquire-Inv :
      (address : ℕ)
      → (b : MediaBuffer) × (q : BufferPool) × (acquire address p ≡ some (b, q)) × Inv q (b ∷ ws) rs
  unfolding acquire
  acquire-Inv address = acquire_from-Inv address p.free_indices refl

-- The slots of a pool, apart from its two counters.
abbrev SlotsInv : BufferPool → List MediaBuffer → List PooledBuffer → Type 0
SlotsInv p ws rs =
    (i : ℕ) → SlotInv (get_elem? p.slots i) (free_at i p) (writers_at i ws) (readers_at i rs)

module _ (ws : List MediaBuffer) (rs : List PooledBuffer) where
  add_slot-SlotsInv :
      (address : ℕ) (p : BufferPool) → SlotsInv p ws rs → SlotsInv (add_slot address p) ws rs
  unfolding add_slot
  add_slot-SlotsInv address p inv =
      let n = length p.slots in
      let s = fresh_slot (some (with_capacity address p.buffer_size)) in
      let unused : free_at n p + writers_at n ws + readers_at n rs ≡ 0 =
        rw (get_elem?-above p.slots n (omega arith)) at (inv n) in
      SlotInv-append p.slots s (λ i. free_at i p) (λ i. writers_at i ws) (λ i. readers_at i rs)
        (λ i. at i n + free_at i p) (λ i. writers_at i ws) (λ i. readers_at i rs) inv
        (λ i h. (omega (arith, at_there n i h), refl, refl))
        (omega (arith, at_here n), omega arith, (omega (arith, at_here n), inl (omega arith)))

  add_slots-SlotsInv :
      (address : ℕ → ℕ) (n : ℕ) (p : BufferPool)
      → SlotsInv p ws rs
      → SlotsInv (add_slots address n p) ws rs
  unfolding add_slots
  add_slots-SlotsInv address zero p inv = inv
  add_slots-SlotsInv address (suc n) p inv =
      add_slots-SlotsInv address n (add_slot (address n) p) (add_slot-SlotsInv (address n) p inv)

-- The loop adds so many slots, and leaves the counters alone.
add_slots_counts :
    (address : ℕ → ℕ) (n : ℕ) (p : BufferPool)
    → (length (add_slots address n p).slots ≡ length p.slots + n)
      × ((add_slots address n p).allocated_count ≡ p.allocated_count)
      × ((add_slots address n p).high_watermark ≡ p.high_watermark)
unfolding add_slots add_slot
add_slots_counts address zero p = (omega arith, refl, refl)
add_slots_counts address (suc n) p =
    let s = fresh_slot (some (with_capacity (address n) p.buffer_size)) in
    let (len, count, mark) = add_slots_counts address n (add_slot (address n) p) in
    (omega (arith, len, length-append p.slots (s ∷ [])), count, mark)

pub preallocate-Inv :
    (p : BufferPool) (ws : List MediaBuffer) (rs : List PooledBuffer)
    → Inv p ws rs
    → (address : ℕ → ℕ) (count : ℕ) → Inv (preallocate address count p) ws rs
unfolding preallocate
preallocate-Inv p ws rs inv address count =
    let (len, same, mark) = add_slots_counts address count p in
    record {
      slot_inv = add_slots-SlotsInv ws rs address count p inv.slot_inv;
      counted = omega (arith, len, same, inv.counted);
      watermark = omega (arith, same, mark, inv.watermark);
    }
