-- ===== src/Runtime/Pool.antt =====
-- crates/caml-core/src/runtime.rs: `BufferPool` with its two kinds of handle, `MediaBuffer` for
-- writing and `PooledBuffer` for reading. Each method holds the pool's lock from its first access to
-- its last, so it is one function from the pool to the pool; `none` stands for a panic or for a read
-- through a stale pointer. The addresses that the allocator hands out are arguments. The head of
-- `free_indices` is the vector's last element, which `pop` takes and `push` adds.
pub mod World
pub mod Invariant
pub mod Slots
pub mod Acquire
pub mod Writers
pub mod Readers
pub mod Steps
pub mod Reads
pub mod Stable
pub mod Sharing
pub mod Counts
mod Tests
use caml.Base.{
  ℕ, zero, suc, ◌+◌, ◌-◌, ◌*◌, ◌%◌, ◌^◌, Bool, ◌&&◌, List, [], ◌∷◌, ◌++◌, Option, none, some, ltb,
  leb, ◌==◌, if◌then◌else◌, max, length, get_elem?, set,
}

-- A `Vec<u8>`: where its bytes are, how many there is room for, and the bytes.
pub record Vec : Type 0 where
  pub ptr : ℕ
  pub capacity : ℕ
  pub items : List ℕ

-- `Vec::with_capacity` and `clear`.
abbrev pub with_capacity : ℕ → ℕ → Vec
with_capacity address n = record { ptr = address; capacity = n; items = [] }

abbrev pub clear : Vec → Vec
clear v = record v { items = [] }

pub record BufferSlot : Type 0 where
  pub bytes : Option Vec
  pub ptr : ℕ
  pub len : ℕ
  pub ref_count : ℕ

-- `BufferPool`, with the fields of its `PoolInner`.
pub record BufferPool : Type 0 where
  pub slots : List BufferSlot
  pub free_indices : List ℕ
  pub allocated_count : ℕ
  pub high_watermark : ℕ
  pub buffer_size : ℕ

pub record PoolStats : Type 0 where
  pub available : ℕ
  pub in_use : ℕ
  pub high_watermark : ℕ

pub record MediaBuffer : Type 0 where
  pub bytes : Vec
  pub slot_index : ℕ

-- A `PooledBuffer` is the index of its slot.
abbrev pub PooledBuffer : Type 0
PooledBuffer = ℕ

abbrev pub usize_mod : ℕ
usize_mod = 2 ^ 64

-- A slot with nothing cached, as it is pushed.
abbrev pub fresh_slot : Option Vec → BufferSlot
fresh_slot bytes = record { bytes = bytes; ptr = 0; len = 0; ref_count = 0 }

-- `BufferPool::new`.
pub new : ℕ → BufferPool
new buffer_size = record {
  slots = [];
  free_indices = [];
  allocated_count = 0;
  high_watermark = 0;
  buffer_size = max buffer_size 1;
}

-- One round of the loop of `preallocate`.
pub add_slot : ℕ → BufferPool → BufferPool
add_slot address p = record p {
  slots = p.slots ++ fresh_slot (some (with_capacity address p.buffer_size)) ∷ [];
  free_indices = length p.slots ∷ p.free_indices;
}

pub add_slots : (ℕ → ℕ) → ℕ → BufferPool → BufferPool
add_slots address zero p = p
add_slots address (suc n) p = add_slots address n (add_slot (address n) p)

-- `preallocate`.
pub preallocate : (ℕ → ℕ) → ℕ → BufferPool → BufferPool
preallocate address count p =
    let q = add_slots address count p in
    record q {
      allocated_count = q.allocated_count + count;
      high_watermark = max q.high_watermark (q.allocated_count + count);
    }

-- `stats`; the subtraction saturates as `-` does.
pub stats : BufferPool → PoolStats
stats p = record {
  available = length p.free_indices;
  in_use = p.allocated_count - length p.free_indices;
  high_watermark = p.high_watermark;
}

-- `high_watermark_bytes`.
pub high_watermark_bytes : BufferPool → ℕ
unfolding stats
high_watermark_bytes p = (stats p).high_watermark * p.buffer_size

-- The branch of `acquire` that reuses slot `idx`; the other free indices are `rest`.
pub reuse : BufferPool → ℕ → List ℕ → Option BufferSlot → Option (MediaBuffer × BufferPool)
reuse p idx rest none = none
reuse p idx rest (some slot) = elim slot.bytes [
  | none ↦ none
  | some bytes ↦ some (
    record { bytes = clear bytes; slot_index = idx },
    record p { slots = set p.slots idx (record slot { bytes = none }); free_indices = rest },
  )
]

-- The branch of `acquire` that allocates a slot.
pub allocate : ℕ → BufferPool → MediaBuffer × BufferPool
allocate address p = (
  record { bytes = with_capacity address p.buffer_size; slot_index = length p.slots },
  record p {
    slots = p.slots ++ fresh_slot none ∷ [];
    allocated_count = p.allocated_count + 1;
    high_watermark = max p.high_watermark (p.allocated_count + 1);
  },
)

abbrev pub acquire_from : ℕ → BufferPool → List ℕ → Option (MediaBuffer × BufferPool)
acquire_from address p [] = some (allocate address p)
acquire_from address p (idx ∷ rest) = reuse p idx rest (get_elem? p.slots idx)

-- `BufferPool::acquire`.
pub acquire : ℕ → BufferPool → Option (MediaBuffer × BufferPool)
acquire address p = acquire_from address p p.free_indices

-- `MediaBuffer::extend_from_slice`; a vector that has to grow moves to `address`.
pub extend_from_slice : ℕ → List ℕ → MediaBuffer → MediaBuffer
extend_from_slice address payload b =
    let needed = length b.bytes.items + length payload in
    record b {
      bytes = record {
        ptr = if leb needed b.bytes.capacity then b.bytes.ptr else address;
        capacity = max b.bytes.capacity needed;
        items = b.bytes.items ++ payload;
      };
    }

-- Change the slot at `idx`; an index out of range panics.
pub update_slot : ℕ → (BufferSlot → BufferSlot) → BufferPool → Option BufferPool
update_slot idx f p = elim (get_elem? p.slots idx) [
  | none ↦ none
  | some slot ↦ some (record p { slots = set p.slots idx (f slot) })
]

-- `MediaBuffer::freeze`: the handle to read is the slot's index.
pub freeze : MediaBuffer → BufferPool → Option BufferPool
freeze b = update_slot b.slot_index λ slot. record {
  bytes = some b.bytes;
  ptr = b.bytes.ptr;
  len = length b.bytes.items;
  ref_count = 1;
}

-- Mark a slot free, where the change of the slot did not panic.
abbrev pub push_free : ℕ → Option BufferPool → Option BufferPool
push_free idx none = none
push_free idx (some p) = some (record p { free_indices = idx ∷ p.free_indices })

-- `Drop for MediaBuffer`.
pub drop_media : MediaBuffer → BufferPool → Option BufferPool
drop_media b p =
    if b.bytes.capacity == 0
    then some p
    else push_free b.slot_index
        (update_slot b.slot_index (λ slot. record slot { bytes = some (clear b.bytes) }) p)

-- `Clone for PooledBuffer`: `fetch_add` wraps.
pub clone_pooled : PooledBuffer → BufferPool → Option BufferPool
clone_pooled idx =
    update_slot idx λ slot. record slot { ref_count = (slot.ref_count + 1) % usize_mod }

-- `Drop for PooledBuffer`: `fetch_sub` wraps, and the last handle gives the slot back.
pub release : BufferPool → ℕ → BufferSlot → BufferPool
release p idx slot =
    let lower = (slot.ref_count + usize_mod - 1) % usize_mod in
    if slot.ref_count == 1
    then record p {
      slots = set p.slots idx (record slot { ptr = 0; len = 0; ref_count = lower });
      free_indices = idx ∷ p.free_indices;
    }
    else record p { slots = set p.slots idx (record slot { ref_count = lower }) }

pub drop_pooled : PooledBuffer → BufferPool → Option BufferPool
unfolding release
drop_pooled idx p = elim (get_elem? p.slots idx) [
  | none ↦ none
  | some slot ↦ some (release p idx slot)
]

-- The bytes at the cached pointer: those of the slot's own vector, if it is still there.
unfoldable pub read_slot : BufferSlot → Option (List ℕ)
read_slot slot = elim slot.bytes [
  | none ↦ none
  | some v ↦ if v.ptr == slot.ptr && length v.items == slot.len then some v.items else none
]

-- `PooledBuffer::as_slice` and `len`.
unfoldable pub as_slice : PooledBuffer → BufferPool → Option (List ℕ)
unfolding read_slot
as_slice idx p = elim (get_elem? p.slots idx) [ none ↦ none | some slot ↦ read_slot slot ]

unfoldable pub pooled_len : PooledBuffer → BufferPool → Option ℕ
pooled_len idx p = elim (get_elem? p.slots idx) [ none ↦ none | some slot ↦ some slot.len ]
