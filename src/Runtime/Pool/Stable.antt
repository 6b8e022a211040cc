-- ===== src/Runtime/Pool/Stable.antt =====
-- What a reader reads stays the same while it lives, whatever is done to the other handles.
use caml.Base.{
  ℕ, zero, suc, ◌<◌, ◌≡◌, ◌≢◌, refl, sym, ◌∙◌, inl, inr, Bool-cases, List, [], ◌∷◌, Option, none,
  some, arith, ◌==◌, length, length-append, get_elem?, set, tally, ◌+◌, Option-cases,
  get_elem?-set_self, get_elem?-set_ne, get_elem?-lt, get_elem?-append_left,
}
use caml.Runtime.Pool.Invariant.{Inv, SlotInv, slot_of, at_other}
use caml.Runtime.Pool.Slots.{at_here, update_slot_lem}
use caml.Runtime.Pool.World.{at, free_at, writers_at, readers_at}
use caml.Runtime.Pool.{
  BufferSlot, BufferPool, MediaBuffer, PooledBuffer, with_capacity, fresh_slot, clear, add_slot,
  add_slots, preallocate, reuse, allocate, acquire_from, acquire, update_slot, freeze, push_free,
  drop_media, read_slot, as_slice,
}

-- `q` has at `i` the slot of `p`.
abbrev SameSlot : ℕ → BufferPool → BufferPool → Type 0
SameSlot i p q = get_elem? q.slots i ≡ get_elem? p.slots i

pub SameSlot-as_slice : (i : ℕ) (p q : BufferPool) → SameSlot i p q → as_slice i q ≡ as_slice i p
unfolding as_slice
SameSlot-as_slice i p q same = rw (as_slice, same) refl

-- Setting another slot, or adding slots at the end.
update_slot-SameSlot :
    (p q : BufferPool) (idx i : ℕ) (f : BufferSlot → BufferSlot)
    → update_slot idx f p ≡ some q
    → idx ≢ i
    → SameSlot i p q
unfolding update_slot
update_slot-SameSlot p q idx i f h other = elim (Option-cases (get_elem? p.slots idx)) [
  | inl gone ↦ let no_slot : none ≡ some q = rw (update_slot, gone) at h in cc
  | inr (s, es) ↦
      let set_to : some (record p { slots = set p.slots idx (f s) }) ≡ some q =
        sym (update_slot_lem p idx f s es) ∙ h in
      let same : q ≡ record p { slots = set p.slots idx (f s) } = cc in
      rw same (get_elem?-set_ne p.slots idx i (f s) other)
]

pub freeze-SameSlot :
    (b : MediaBuffer) (p q : BufferPool) (i : ℕ)
    → freeze b p ≡ some q
    → b.slot_index ≢ i
    → SameSlot i p q
unfolding freeze
freeze-SameSlot b p q i h other = update_slot-SameSlot p q b.slot_index i _ h other

push_free-SameSlot :
    (p q : BufferPool) (idx i : ℕ) (o : Option BufferPool)
    → ((r : BufferPool) → o ≡ some r → SameSlot i p r)
    → push_free idx o ≡ some q
    → SameSlot i p q
push_free-SameSlot p q idx i none same h = absurd (cc h)
push_free-SameSlot p q idx i (some r) same h =
    let pushed : q ≡ record r { free_indices = idx ∷ r.free_indices } = cc in
    rw pushed (same r refl)

pub drop_media-SameSlot :
    (b : MediaBuffer) (p q : BufferPool) (i : ℕ)
    → drop_media b p ≡ some q
    → b.slot_index ≢ i
    → SameSlot i p q
unfolding drop_media
drop_media-SameSlot b p q i h other = elim (Bool-cases (b.bytes.capacity == 0)) [
  | inl empty ↦ let same : some p ≡ some q = rw empty at h in let e : q ≡ p = cc in rw e refl
  | inr room ↦
      push_free-SameSlot p q b.slot_index i _
        (λ r e. update_slot-SameSlot p r b.slot_index i _ e other) (rw room at h)
]

add_slots-SameSlot :
    (address : ℕ → ℕ) (n : ℕ) (p : BufferPool) (i : ℕ)
    → i < length p.slots
    → SameSlot i p (add_slots address n p)
unfolding add_slots add_slot
add_slots-SameSlot address zero p i lt = refl
add_slots-SameSlot address (suc n) p i lt =
    let s = fresh_slot (some (with_capacity (address n) p.buffer_size)) in
    let more : i < length (add_slot (address n) p).slots =
      omega (arith, length-append p.slots (s ∷ [])) in
    add_slots-SameSlot address n (add_slot (address n) p) i more
    ∙ get_elem?-append_left p.slots (s ∷ []) i lt

pub preallocate-SameSlot :
    (address : ℕ → ℕ) (n : ℕ) (p : BufferPool) (i : ℕ)
    → i < length p.slots
    → SameSlot i p (preallocate address n p)
unfolding preallocate
preallocate-SameSlot address n p i lt = add_slots-SameSlot address n p i lt

reuse-SameSlot :
    (p q : BufferPool) (idx i : ℕ) (rest : List ℕ) (b : MediaBuffer) (o : Option BufferSlot)
    → reuse p idx rest o ≡ some (b, q)
    → idx ≢ i
    → SameSlot i p q
unfolding reuse
reuse-SameSlot p q idx i rest b none h other = absurd (cc h)
reuse-SameSlot p q idx i rest b (some slot) h other = elim (Option-cases slot.bytes) [
  | inl gone ↦ let no_bytes : none ≡ some (b, q) = rw (reuse, gone) at h in cc
  | inr (v, held) ↦
      let taken = record p {
        slots = set p.slots idx (record slot { bytes = none });
        free_indices = rest;
      } in
      let done : some (record { bytes = clear v; slot_index = idx }, taken) ≡ some (b, q) =
        rw (reuse, held) at h in
      let same : q ≡ taken = cc in
      rw same (get_elem?-set_ne p.slots idx i (record slot { bytes = none }) other)
]

-- What `acquire` does to the slot of a live reader: nothing, as that slot is not free.
module _ (p : BufferPool) (ws : List MediaBuffer) (rs : List PooledBuffer) (inv : Inv p ws rs) where
  pub live_slot :
      (i : ℕ)
      → 0 < readers_at i rs
      → (s : BufferSlot) × (get_elem? p.slots i ≡ some s)
        × SlotInv (some s) (free_at i p) (writers_at i ws) (readers_at i rs)
  live_slot i pos =
      slot_of (get_elem? p.slots i) (free_at i p) (writers_at i ws) (readers_at i rs)
        (inv.slot_inv i) (omega (arith, pos))

  free_elsewhere :
      (idx i : ℕ) (rest : List ℕ) → p.free_indices ≡ idx ∷ rest → 0 < readers_at i rs → idx ≢ i
  free_elsewhere idx i rest e pos here =
      let (s, es, fits) = live_slot i pos in
      let free : free_at i p ≡ at i idx + tally (at i) rest = rw e in
      let one : at i idx ≡ 1 = rw here (at_here i) in omega (arith, fits.0, free, one, pos)

  acquire_from-SameSlot :
      (address : ℕ) (free : List ℕ) (b : MediaBuffer) (q : BufferPool) (i : ℕ)
      → p.free_indices ≡ free
      → 0 < readers_at i rs
      → acquire_from address p free ≡ some (b, q)
      → SameSlot i p q
  unfolding allocate
  acquire_from-SameSlot address [] b q i e pos h =
      let (s, es, _) = live_slot i pos in
      let same : q ≡ (allocate address p).1 = cc in
      rw same (get_elem?-append_left p.slots (fresh_slot none ∷ []) i (get_elem?-lt p.slots i s es))
  acquire_from-SameSlot address (idx ∷ rest) b q i e pos h =
      reuse-SameSlot p q idx i rest b (get_elem? p.slots idx) h (free_elsewhere idx i rest e pos)

  pub acquire-SameSlot :
      (address : ℕ) (b : MediaBuffer) (q : BufferPool) (i : ℕ)
      → 0 < readers_at i rs
      → acquire address p ≡ some (b, q)
      → SameSlot i p q
  unfolding acquire
  acquire-SameSlot address b q i pos h =
      acquire_from-SameSlot address p.free_indices b q i refl pos h

-- The count of readers is no part of what they read.
read_slot-ref_count :
    (s : BufferSlot) (n : ℕ) → read_slot (record s { ref_count = n }) ≡ read_slot s
unfolding read_slot
read_slot-ref_count s n = refl

pub set_count-as_slice :
    (p : BufferPool) (idx i n : ℕ) (s : BufferSlot)
    → get_elem? p.slots idx ≡ some s
    → as_slice i (record p { slots = set p.slots idx (record s { ref_count = n }) }) ≡ as_slice i p
unfolding as_slice
set_count-as_slice p idx i n s es = elim (Bool-cases (idx == i)) [
  | inl here ↦
      let e : idx ≡ i = ground arith in
      rw
        (
          ← e,
          as_slice,
          get_elem?-set_self p.slots idx (record s { ref_count = n })
              (get_elem?-lt p.slots idx s es),
          es,
        )
        (read_slot-ref_count s n)
  | inr there ↦
      SameSlot-as_slice i p (record p { slots = set p.slots idx (record s { ref_count = n }) })
        (get_elem?-set_ne p.slots idx i (record s { ref_count = n }) (at_other idx i there))
]
