-- ===== src/Runtime/Pool/Writers.antt =====
-- A writer is frozen or dropped without a panic, and its slot goes to readers or becomes free.
use caml.Base.{
  ℕ, ◌+◌, ◌≡◌, refl, sym, ◌∙◌, inl, inr, false, Bool-cases, List, ◌∷◌, some, arith, ◌==◌, length,
  get_elem?, set, remove_at, length-set, tally-remove_at, tally-set, get_elem?-lt,
}
use caml.Runtime.Pool.Invariant.{Inv, SlotInv-set, slot_of}
use caml.Runtime.Pool.Slots.{at_here, at_there, update_slot_lem, SlotInv-fewer}
use caml.Runtime.Pool.World.{at, free_at, writers_at, readers_at}
use caml.Runtime.Pool.{
  Vec, clear, BufferSlot, BufferPool, MediaBuffer, PooledBuffer, update_slot, freeze, push_free,
  drop_media,
}

module _ (p : BufferPool) (ws : List MediaBuffer) (rs : List PooledBuffer) (inv : Inv p ws rs) where
  -- The slot of a live writer, which nothing else has.
  pub writer_slot :
      (k : ℕ) (b : MediaBuffer)
      → get_elem? ws k ≡ some b
      → (s : BufferSlot) × (get_elem? p.slots b.slot_index ≡ some s)
        × (free_at b.slot_index p ≡ 0)
        × (writers_at b.slot_index (remove_at ws k) ≡ 0)
        × (readers_at b.slot_index rs ≡ 0)
        × (s.ref_count ≡ 0)
  writer_slot k b h =
      let i = b.slot_index in
      let split = tally-remove_at (λ (c : MediaBuffer). at i c.slot_index) ws k b h in
      let (s, es, fits) =
        slot_of (get_elem? p.slots i) (free_at i p) (writers_at i ws) (readers_at i rs)
          (inv.slot_inv i) (omega (arith, split, at_here i)) in
      (
        s,
        es,
        omega (arith, fits.0, split, at_here i),
        omega (arith, fits.0, split, at_here i),
        omega (arith, fits.0, split, at_here i),
        omega (arith, fits.0, fits.1, split, at_here i),
      )

  writers_elsewhere :
      (k : ℕ) (b : MediaBuffer)
      → get_elem? ws k ≡ some b
      → (i : ℕ) → (b.slot_index == i) ≡ false
      → writers_at i (remove_at ws k) ≡ writers_at i ws
  writers_elsewhere k b h i other = omega (
    arith,
    tally-remove_at (λ (c : MediaBuffer). at i c.slot_index) ws k b h,
    at_there b.slot_index i other,
  )

  pub freeze-Inv :
      (k : ℕ) (b : MediaBuffer)
      → get_elem? ws k ≡ some b
      → (q : BufferPool) × (freeze b p ≡ some q) × Inv q (remove_at ws k) (b.slot_index ∷ rs)
  unfolding freeze
  freeze-Inv k b h =
      let i = b.slot_index in
      let (s, es, f, w, r, _) = writer_slot k b h in
      let s' : BufferSlot = record {
        bytes = some b.bytes;
        ptr = b.bytes.ptr;
        len = length b.bytes.items;
        ref_count = 1;
      } in
      (
        record p { slots = set p.slots i s' },
        update_slot_lem p i _ s es,
        record {
          slot_inv =
              SlotInv-set p.slots i s' (λ j. free_at j p) (λ j. writers_at j ws)
                (λ j. readers_at j rs) (λ j. free_at j p) (λ j. writers_at j (remove_at ws k))
                (λ j. at j i + readers_at j rs) (get_elem?-lt p.slots i s es) inv.slot_inv
                (λ j other.
                  (refl, writers_elsewhere k b h j other, omega (arith, at_there i j other)))
                (
                  omega (arith, f, w, r, at_here i),
                  omega (arith, r, at_here i),
                  (omega (arith, f, r, at_here i), inr (refl, refl)),
                );
          counted = inv.counted ∙ sym (length-set p.slots i s');
          watermark = inv.watermark;
        },
      )

  -- A writer whose vector has no room is forgotten, and its slot with it.
  forget-Inv : (k : ℕ) (b : MediaBuffer) → get_elem? ws k ≡ some b → Inv p (remove_at ws k) rs
  forget-Inv k b h = record {
    slot_inv = λ i.
        SlotInv-fewer (get_elem? p.slots i) (free_at i p) (writers_at i ws)
          (writers_at i (remove_at ws k)) (readers_at i rs)
          (omega (arith, tally-remove_at (λ (c : MediaBuffer). at i c.slot_index) ws k b h))
          (inv.slot_inv i);
    counted = inv.counted;
    watermark = inv.watermark;
  }

  give_back-Inv :
      (k : ℕ) (b : MediaBuffer)
      → get_elem? ws k ≡ some b
      → (q : BufferPool) × (push_free b.slot_index
            (update_slot b.slot_index (λ slot. record slot { bytes = some (clear b.bytes) }) p)
          ≡ some q)
        × Inv q (remove_at ws k) rs
  give_back-Inv k b h =
      let i = b.slot_index in
      let (s, es, f, w, r, refs) = writer_slot k b h in
      let s' : BufferSlot = record s { bytes = some (clear b.bytes) } in
      (
        record p { slots = set p.slots i s'; free_indices = i ∷ p.free_indices },
        rw (update_slot_lem p i (λ slot. record slot { bytes = some (clear b.bytes) }) s es),
        record {
          slot_inv =
              SlotInv-set p.slots i s' (λ j. free_at j p) (λ j. writers_at j ws)
                (λ j. readers_at j rs) (λ j. at j i + free_at j p)
                (λ j. writers_at j (remove_at ws k)) (λ j. readers_at j rs)
                (get_elem?-lt p.slots i s es) inv.slot_inv
                (λ j other.
                  (omega (arith, at_there i j other), writers_elsewhere k b h j other, refl))
                (
                  omega (arith, f, w, r, at_here i),
                  omega (arith, r, refs),
                  (omega (arith, f, r, at_here i), inl r),
                );
          counted = inv.counted ∙ sym (length-set p.slots i s');
          watermark = inv.watermark;
        },
      )

  pub drop_media-Inv :
      (k : ℕ) (b : MediaBuffer)
      → get_elem? ws k ≡ some b
      → (q : BufferPool) × (drop_media b p ≡ some q) × Inv q (remove_at ws k) rs
  unfolding drop_media
  drop_media-Inv k b h = elim (Bool-cases (b.bytes.capacity == 0)) [
    | inl gone ↦ (p, rw gone, forget-Inv k b h)
    | inr kept ↦ let (q, e, after) = give_back-Inv k b h in (q, rw kept e, after)
  ]

  -- What a writer does to its bytes does not concern the pool.
  pub edit-Inv :
      (k : ℕ) (b : MediaBuffer) (v : Vec)
      → get_elem? ws k ≡ some b
      → Inv p (set ws k (record b { bytes = v })) rs
  edit-Inv k b v h = record {
    slot_inv = λ i.
        SlotInv-fewer (get_elem? p.slots i) (free_at i p) (writers_at i ws)
          (writers_at i (set ws k (record b { bytes = v }))) (readers_at i rs)
          (omega (
            arith,
            tally-set (λ (c : MediaBuffer). at i c.slot_index) ws k b (record b { bytes = v }) h
                refl,
          ))
          (inv.slot_inv i);
    counted = inv.counted;
    watermark = inv.watermark;
  }
