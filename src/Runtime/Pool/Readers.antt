-- ===== src/Runtime/Pool/Readers.antt =====
-- A reader is cloned or dropped without a panic; the last one to go gives the slot back.
use caml.Base.{
  ℕ, ◌+◌, ◌-◌, ◌%◌, ◌<◌, ◌≡◌, ◌≢◌, refl, sym, ◌∙◌, inl, inr, false, Bool-cases, List, ◌∷◌, some,
  arith, ◌==◌, length, get_elem?, set, remove_at, length-set, tally-remove_at, tally-le-length,
  get_elem?-lt,
}
use caml.Runtime.Pool.Invariant.{SlotInv, Inv, SlotInv-set, slot_of}
use caml.Runtime.Pool.Slots.{
  at_here, at_there, at-le-one, update_slot_lem, drop_pooled_lem, HoldsBytes-shared,
  HoldsBytes-last,
}
use caml.Runtime.Pool.World.{at, free_at, writers_at, readers_at}
use caml.Runtime.Pool.{
  BufferSlot, BufferPool, MediaBuffer, PooledBuffer, usize_mod, clone_pooled, release, drop_pooled,
}

module _ (p : BufferPool) (ws : List MediaBuffer) (rs : List PooledBuffer) (inv : Inv p ws rs) where
  -- The slot of a live reader.
  pub reader_slot :
      (k i : ℕ)
      → get_elem? rs k ≡ some i
      → (s : BufferSlot) × (get_elem? p.slots i ≡ some s)
        × (0 < readers_at i rs)
        × SlotInv (some s) (free_at i p) (writers_at i ws) (readers_at i rs)
  reader_slot k i h =
      let split = tally-remove_at (at i) rs k i h in
      let (s, es, fits) =
        slot_of (get_elem? p.slots i) (free_at i p) (writers_at i ws) (readers_at i rs)
          (inv.slot_inv i) (omega (arith, split, at_here i)) in
      (s, es, omega (arith, split, at_here i), fits)

  pub clone_pooled-Inv :
      (k i : ℕ)
      → get_elem? rs k ≡ some i
      → length rs + 1 < usize_mod
      → (q : BufferPool) × (clone_pooled i p ≡ some q) × Inv q ws (i ∷ rs)
  unfolding clone_pooled
  clone_pooled-Inv k i h room =
      let (s, es, pos, fits) = reader_slot k i h in
      let few = tally-le-length (at i) rs (at-le-one i) in
      let s' : BufferSlot = record s { ref_count = (s.ref_count + 1) % usize_mod } in
      (
        record p { slots = set p.slots i s' },
        update_slot_lem p i _ s es,
        record {
          slot_inv =
              SlotInv-set p.slots i s' (λ j. free_at j p) (λ j. writers_at j ws)
                (λ j. readers_at j rs) (λ j. free_at j p) (λ j. writers_at j ws)
                (λ j. at j i + readers_at j rs) (get_elem?-lt p.slots i s es) inv.slot_inv
                (λ j other. (refl, refl, omega (arith, at_there i j other)))
                (
                  omega (arith, fits.0, pos, at_here i),
                  omega (arith, fits.1, few, at_here i),
                  HoldsBytes-shared s.bytes s s' (free_at i p) (readers_at i rs) (free_at i p)
                      (at i i + readers_at i rs) pos refl refl
                      (omega (arith, fits.0, pos, at_here i)) fits.2,
                );
          counted = inv.counted ∙ sym (length-set p.slots i s');
          watermark = inv.watermark;
        },
      )

  readers_elsewhere :
      (k i : ℕ)
      → get_elem? rs k ≡ some i
      → (j : ℕ) → (i == j) ≡ false
      → readers_at j (remove_at rs k) ≡ readers_at j rs
  readers_elsewhere k i h j other =
      omega (arith, tally-remove_at (at j) rs k i h, at_there i j other)

  release-Inv :
      (k i : ℕ) (s : BufferSlot)
      → get_elem? rs k ≡ some i
      → length rs < usize_mod
      → get_elem? p.slots i ≡ some s
      → 0 < readers_at i rs
      → SlotInv (some s) (free_at i p) (writers_at i ws) (readers_at i rs)
      → Inv (release p i s) ws (remove_at rs k)
  unfolding release
  release-Inv k i s h room es pos fits = elim (Bool-cases (s.ref_count == 1)) [
    | inl last ↦
        let one : s.ref_count ≡ 1 = ground arith in
        let s' : BufferSlot = record s {
          ptr = 0;
          len = 0;
          ref_count = (s.ref_count + usize_mod - 1) % usize_mod;
        } in
        let gone : readers_at i (remove_at rs k) ≡ 0 =
          omega (arith, tally-remove_at (at i) rs k i h, at_here i, fits.1, one) in
        rw last (record {
          slot_inv =
              SlotInv-set p.slots i s' (λ j. free_at j p) (λ j. writers_at j ws)
                (λ j. readers_at j rs) (λ j. at j i + free_at j p) (λ j. writers_at j ws)
                (λ j. readers_at j (remove_at rs k)) (get_elem?-lt p.slots i s es) inv.slot_inv
                (λ j other.
                  (omega (arith, at_there i j other), refl, readers_elsewhere k i h j other))
                (
                  omega (arith, fits.0, pos, gone, at_here i),
                  omega (arith, one, gone),
                  rw gone (
                      HoldsBytes-last s.bytes s s' (free_at i p) (readers_at i rs)
                        (at i i + free_at i p) pos (omega (arith, fits.0, pos, at_here i)) fits.2),
                );
          counted = inv.counted ∙ sym (length-set p.slots i s');
          watermark = inv.watermark;
        })
    | inr others ↦
        let s' : BufferSlot = record s { ref_count = (s.ref_count + usize_mod - 1) % usize_mod } in
        let many : s.ref_count ≢ 1 = ground arith in
        let left = tally-remove_at (at i) rs k i h in
        let few = tally-le-length (at i) rs (at-le-one i) in
        rw others (record {
          slot_inv =
              SlotInv-set p.slots i s' (λ j. free_at j p) (λ j. writers_at j ws)
                (λ j. readers_at j rs) (λ j. free_at j p) (λ j. writers_at j ws)
                (λ j. readers_at j (remove_at rs k)) (get_elem?-lt p.slots i s es) inv.slot_inv
                (λ j other. (refl, refl, readers_elsewhere k i h j other))
                (
                  omega (arith, fits.0, fits.1, pos, left, at_here i),
                  omega (arith, fits.1, pos, left, few, at_here i),
                  HoldsBytes-shared s.bytes s s' (free_at i p) (readers_at i rs) (free_at i p)
                      (readers_at i (remove_at rs k)) pos refl refl
                      (omega (arith, fits.0, fits.1, pos, left, many, at_here i)) fits.2,
                );
          counted = inv.counted ∙ sym (length-set p.slots i s');
          watermark = inv.watermark;
        })
  ]

  pub drop_pooled-Inv :
      (k i : ℕ)
      → get_elem? rs k ≡ some i
      → length rs < usize_mod
      → (q : BufferPool) × (drop_pooled i p ≡ some q) × Inv q ws (remove_at rs k)
  drop_pooled-Inv k i h room =
      let (s, es, pos, fits) = reader_slot k i h in
      (release p i s, drop_pooled_lem p i s es, release-Inv k i s h room es pos fits)
