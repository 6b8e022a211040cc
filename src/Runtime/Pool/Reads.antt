-- ===== src/Runtime/Pool/Reads.antt =====
-- What a reader finds in its slot, and what the statistics count.
use caml.Base.{
  ℕ, ◌<◌, ◌≡◌, refl, inl, inr, List, some, arith, length, get_elem?, tally-remove_at,
  get_elem?-set_self, get_elem?-lt, Option, none, set,
}
use caml.Runtime.Pool.Invariant.{Inv, HoldsBytes, slot_of, at_self}
use caml.Runtime.Pool.Slots.{at_here, update_slot_lem}
use caml.Runtime.Pool.World.{at, free_at, writers_at, readers_at}
use caml.Runtime.Pool.Writers.{writer_slot}
use caml.Runtime.Pool.{
  Vec, BufferSlot, BufferPool, MediaBuffer, PooledBuffer, freeze, read_slot, as_slice,
}

-- A slot with a reader has the bytes at the cached place.
read_slot_lem :
    (o : Option Vec) (s : BufferSlot) (f r : ℕ)
    → s.bytes ≡ o
    → 0 < r
    → HoldsBytes o s f r
    → (v : Vec) × (s.bytes ≡ some v) × (read_slot s ≡ some v.items)
unfolding read_slot
read_slot_lem none s f r e pos h = absurd (omega (arith, h))
read_slot_lem (some v) s f r e pos (_, inl gone) = absurd (omega (arith, gone))
read_slot_lem (some v) s f r e pos (_, inr (ep, el)) =
    (v, e, rw (e, read_slot, ep, el, at_self v.ptr, at_self (length v.items)) refl)

-- Under the invariant, every reader that is alive reads the bytes of the vector that its slot holds.
pub as_slice_live :
    (p : BufferPool) (ws : List MediaBuffer) (rs : List PooledBuffer)
    → Inv p ws rs
    → (k i : ℕ) → get_elem? rs k ≡ some i
    → (s : BufferSlot) × (v : Vec) × (get_elem? p.slots i ≡ some s)
      × (s.bytes ≡ some v)
      × (as_slice i p ≡ some v.items)
unfolding as_slice
as_slice_live p ws rs inv k i h =
    let left = tally-remove_at (at i) rs k i h in
    let pos : 0 < readers_at i rs = omega (arith, left, at_here i) in
    let (s, es, fits) =
      slot_of (get_elem? p.slots i) (free_at i p) (writers_at i ws) (readers_at i rs)
        (inv.slot_inv i) (omega (arith, pos)) in
    let (v, ev, read) = read_slot_lem s.bytes s (free_at i p) (readers_at i rs) refl pos fits.2 in
    (s, v, es, ev, rw (as_slice, es) read)

-- Under the invariant, freezing a live writer succeeds, and the new reader reads exactly the
-- writer's bytes.
pub freeze-as_slice :
    (p : BufferPool) (ws : List MediaBuffer) (rs : List PooledBuffer)
    → Inv p ws rs
    → (k : ℕ) (b : MediaBuffer) → get_elem? ws k ≡ some b
    → (q : BufferPool) × (freeze b p ≡ some q) × (as_slice b.slot_index q ≡ some b.bytes.items)
unfolding freeze as_slice read_slot
freeze-as_slice p ws rs inv k b h =
    let i = b.slot_index in
    let (s, es, _, _, _, _) = writer_slot p ws rs inv k b h in
    let s' : BufferSlot = record {
      bytes = some b.bytes;
      ptr = b.bytes.ptr;
      len = length b.bytes.items;
      ref_count = 1;
    } in
    (
      record p { slots = set p.slots i s' },
      update_slot_lem p i _ s es,
      rw
          (
            as_slice,
            get_elem?-set_self p.slots i s' (get_elem?-lt p.slots i s es),
            read_slot,
            at_self b.bytes.ptr,
            at_self (length b.bytes.items),
          )
          refl,
    )
