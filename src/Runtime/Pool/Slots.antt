-- ===== src/Runtime/Pool/Slots.antt =====
-- How the slots of a pool change, one at a time.
use caml.Base.{
  min, ◌+◌, ℕ, ◌<◌, ◌≤◌, ◌≡◌, refl, inl, inr, false, List, Option, none, some, arith, ◌==◌,
  get_elem?, set,
}
use caml.Runtime.Pool.Invariant.{SlotInv, HoldsBytes, at_self}
use caml.Runtime.Pool.World.{at}
use caml.Runtime.Pool.{Vec, clear, BufferSlot, BufferPool, reuse, update_slot, release, drop_pooled}

pub at_here : (i : ℕ) → at i i ≡ 1
at_here i = rw (at_self i)

pub at_there : (x i : ℕ) → (x == i) ≡ false → at i x ≡ 0
at_there x i h = rw h

pub reuse_lem :
    (p : BufferPool) (idx : ℕ) (rest : List ℕ) (s : BufferSlot) (v : Vec)
    → get_elem? p.slots idx ≡ some s
    → s.bytes ≡ some v
    → reuse p idx rest (get_elem? p.slots idx)
      ≡ some (
        record { bytes = clear v; slot_index = idx },
        record p { slots = set p.slots idx (record s { bytes = none }); free_indices = rest },
      )
unfolding reuse
reuse_lem p idx rest s v es held = ground arith

pub update_slot_lem :
    (p : BufferPool) (idx : ℕ) (f : BufferSlot → BufferSlot) (s : BufferSlot)
    → get_elem? p.slots idx ≡ some s
    → update_slot idx f p ≡ some (record p { slots = set p.slots idx (f s) })
unfolding update_slot
update_slot_lem p idx f s es = rw (es, update_slot)

pub at-le-one : (i x : ℕ) → at i x ≤ 1
at-le-one i x = ground arith

-- Fewer writers do no harm.
pub SlotInv-fewer :
    (o : Option BufferSlot) (f w w' r : ℕ) → w' ≤ w → SlotInv o f w r → SlotInv o f w' r
SlotInv-fewer none f w w' r le h = omega arith
SlotInv-fewer (some s) f w w' r le h = (omega (arith, h.0), h.1, h.2)

-- What one reader finds, others find too.
pub HoldsBytes-shared :
    (o : Option Vec) (s s' : BufferSlot) (f r f' r' : ℕ)
    → 0 < r
    → s'.ptr ≡ s.ptr
    → s'.len ≡ s.len
    → f' + min 1 r' ≡ 1
    → HoldsBytes o s f r
    → HoldsBytes o s' f' r'
HoldsBytes-shared none s s' f r f' r' pos ep el one h = absurd (omega (arith, h))
HoldsBytes-shared (some v) s s' f r f' r' pos ep el one (_, inl e) = absurd (omega (arith, e))
HoldsBytes-shared (some v) s s' f r f' r' pos ep el one (_, inr (e, e')) = (one, inr (cc, cc))

-- A slot that had a reader still has its bytes when the last one goes.
pub HoldsBytes-last :
    (o : Option Vec) (s s' : BufferSlot) (f r f' : ℕ)
    → 0 < r
    → f' ≡ 1
    → HoldsBytes o s f r
    → HoldsBytes o s' f' 0
HoldsBytes-last none s s' f r f' pos one h = absurd (omega (arith, h))
HoldsBytes-last (some v) s s' f r f' pos one h = (omega arith, inl refl)

pub drop_pooled_lem :
    (p : BufferPool) (i : ℕ) (s : BufferSlot)
    → get_elem? p.slots i ≡ some s
    → drop_pooled i p ≡ some (release p i s)
unfolding drop_pooled
drop_pooled_lem p i s es = rw (es, drop_pooled)
