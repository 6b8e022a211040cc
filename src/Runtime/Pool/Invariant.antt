-- ===== src/Runtime/Pool/Invariant.antt =====
-- The invariant of a pool and its handles. A slot that holds its vector is free, once, or shared by
-- readers, and not both; a slot without has one writer, or none: then it is lost, as when a writer is
-- dropped whose vector has no capacity.
use caml.Base.{
  ℕ, zero, suc, ◌+◌, ◌≤◌, ◌<◌, ◌≡◌, ◌≢◌, refl, ◌⊎◌, inl, inr, true, false, List, [], ◌∷◌, ◌++◌,
  Option, none, some, arith, min, ◌==◌, length, get_elem?, set, Bool-cases, get_elem?-set_self,
  get_elem?-set_ne, get_elem?-append_end,
}
use caml.Runtime.Pool.World.{free_at, writers_at, readers_at}
use caml.Runtime.Pool.{Vec, BufferSlot, BufferPool, MediaBuffer, PooledBuffer}

-- A slot holds its vector if and only if it is free or shared, and readers find it at the cached place.
abbrev pub HoldsBytes : Option Vec → BufferSlot → ℕ → ℕ → Type 0
HoldsBytes none s free readers = free + readers ≡ 0
HoldsBytes (some v) s free readers =
    (free + min 1 readers ≡ 1) × ((readers ≡ 0) ⊎ ((s.ptr ≡ v.ptr) × (s.len ≡ length v.items)))

-- The slot at one index, with the numbers of its free entries, writers and readers.
abbrev pub SlotInv : Option BufferSlot → ℕ → ℕ → ℕ → Type 0
SlotInv none free writers readers = free + writers + readers ≡ 0
SlotInv (some s) free writers readers =
    (free + writers + min 1 readers ≤ 1)
    × (s.ref_count ≡ readers)
    × HoldsBytes s.bytes s free readers

pub record Inv (p : BufferPool) (ws : List MediaBuffer) (rs : List PooledBuffer) : Type 0 where
  pub slot_inv :
      (i : ℕ) → SlotInv (get_elem? p.slots i) (free_at i p) (writers_at i ws) (readers_at i rs)
  pub counted : p.allocated_count ≡ length p.slots
  pub watermark : p.high_watermark ≡ p.allocated_count

pub at_self : (i : ℕ) → (i == i) ≡ true
at_self i = ground arith

pub at_other : (x i : ℕ) → (x == i) ≡ false → x ≢ i
at_other x i h = ground arith

-- Change one slot: it is enough to look at that slot with its new numbers, if the numbers of the
-- other slots stay.
pub SlotInv-set :
    (slots : List BufferSlot) (idx : ℕ) (s : BufferSlot) (f w r f' w' r' : ℕ → ℕ)
    → idx < length slots
    → ((i : ℕ) → SlotInv (get_elem? slots i) (f i) (w i) (r i))
    → ((i : ℕ) → (idx == i) ≡ false → (f' i ≡ f i) × (w' i ≡ w i) × (r' i ≡ r i))
    → SlotInv (some s) (f' idx) (w' idx) (r' idx)
    → (i : ℕ) → SlotInv (get_elem? (set slots idx s) i) (f' i) (w' i) (r' i)
SlotInv-set slots idx s f w r f' w' r' lt inv others mine i = elim (Bool-cases (idx == i)) [
  | inl here ↦ let e : idx ≡ i = ground arith in rw (← e, get_elem?-set_self slots idx s lt) mine
  | inr there ↦
      let (ef, ew, er) = others i there in
      rw (get_elem?-set_ne slots idx i s (at_other idx i there), ef, ew, er) (inv i)
]

get_elem?-append_ne :
    (slots : List BufferSlot) (s : BufferSlot) (i : ℕ)
    → (length slots == i) ≡ false
    → get_elem? (slots ++ s ∷ []) i ≡ get_elem? slots i
get_elem?-append_ne [] s zero h = cc
get_elem?-append_ne [] s (suc i) h = refl
get_elem?-append_ne (x ∷ slots) s zero h = refl
get_elem?-append_ne (x ∷ slots) s (suc i) h = get_elem?-append_ne slots s i (ground arith)

-- Add a slot at the end likewise.
pub SlotInv-append :
    (slots : List BufferSlot) (s : BufferSlot) (f w r f' w' r' : ℕ → ℕ)
    → ((i : ℕ) → SlotInv (get_elem? slots i) (f i) (w i) (r i))
    → ((i : ℕ) → (length slots == i) ≡ false → (f' i ≡ f i) × (w' i ≡ w i) × (r' i ≡ r i))
    → SlotInv (some s) (f' (length slots)) (w' (length slots)) (r' (length slots))
    → (i : ℕ) → SlotInv (get_elem? (slots ++ s ∷ []) i) (f' i) (w' i) (r' i)
SlotInv-append slots s f w r f' w' r' inv others mine i = elim (Bool-cases (length slots == i)) [
  | inl here ↦
      let e : length slots ≡ i = ground arith in rw (← e, get_elem?-append_end slots s) mine
  | inr there ↦
      let (ef, ew, er) = others i there in
      rw (get_elem?-append_ne slots s i there, ef, ew, er) (inv i)
]

-- A slot that anything refers to is there.
pub slot_of :
    (o : Option BufferSlot) (f w r : ℕ)
    → SlotInv o f w r
    → 0 < f + w + r
    → (s : BufferSlot) × (o ≡ some s) × SlotInv (some s) f w r
slot_of none f w r h pos = absurd (omega arith)
slot_of (some s) f w r h pos = (s, refl, h)
