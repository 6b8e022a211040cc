-- ===== src/Runtime/Pool/Tests.antt =====
-- Runs of the pool.
use caml.Base.{◌+◌, length, ◌≡◌, refl, sym, ◌∙◌, List, [], ◌∷◌, none, some, arith, get_elem?}
use caml.Runtime.Pool.Reads.{as_slice_live, freeze-as_slice}
use caml.Runtime.Pool.Counts.{stats-Inv}
use caml.Runtime.Pool.Sharing.{act-as_slice}
use caml.Runtime.Pool.Steps.{WorldInv, run-start-Inv}
use caml.Runtime.Pool.World.{
  World, Action, preallocates, acquires, edits, freezes, drops_writer, clones, drops_reader, act,
  run, start,
}
use caml.Runtime.Pool.{
  stats, release, Vec, BufferSlot, BufferPool, freeze, as_slice, add_slot, add_slots, preallocate,
  acquire, reuse, update_slot, clone_pooled, drop_pooled, new, allocate, drop_media,
}

-- One buffer is filled, frozen and shared; the other is still being written.
abbrev payload : Vec
payload = record { ptr = 7; capacity = 4; items = 10 ∷ 20 ∷ [] }

abbrev share : List Action
share =
    preallocates (λ n. 7 + n) 1
    ∷ acquires 8
    ∷ edits 0 payload
    ∷ freezes 0
    ∷ clones 0
    ∷ acquires 9
    ∷ []

abbrev shared : World
shared = record {
  pool = record {
    slots =
        record { bytes = some payload; ptr = 7; len = 2; ref_count = 2 }
        ∷ record { bytes = none; ptr = 0; len = 0; ref_count = 0 }
        ∷ [];
    free_indices = [];
    allocated_count = 2;
    high_watermark = 2;
    buffer_size = 4;
  };
  writers = record { bytes = record { ptr = 9; capacity = 4; items = [] }; slot_index = 1 } ∷ [];
  readers = 0 ∷ 0 ∷ [];
}

run-shared : run share (start 4) ≡ some shared
unfolding run act start new acquire preallocate add_slots add_slot reuse freeze update_slot
    clone_pooled drop_pooled allocate
run-shared = refl

-- One reader of the two is dropped.
abbrev shared_less : World
shared_less = record shared {
  pool = record {
    slots =
        record { bytes = some payload; ptr = 7; len = 2; ref_count = 1 }
        ∷ record { bytes = none; ptr = 0; len = 0; ref_count = 0 }
        ∷ [];
    free_indices = [];
    allocated_count = 2;
    high_watermark = 2;
    buffer_size = 4;
  };
  readers = 0 ∷ [];
}

drops-shared : act (drops_reader 1) shared ≡ some shared_less
unfolding act drop_pooled release
drops-shared = refl

-- The last reader gives the slot back.
gives_back :
    (w : World) × (run (drops_reader 0 ∷ drops_reader 0 ∷ []) shared ≡ some w)
    × (w.pool.free_indices ≡ 0 ∷ [])
unfolding run act start new acquire preallocate add_slots add_slot reuse freeze update_slot
    clone_pooled drop_pooled allocate
gives_back = (_, refl, refl)

-- A slot whose writer goes with a vector without capacity is lost: nobody has it, and it is not free.
loses_a_slot :
    (w : World) × (run
        (acquires 7 ∷ edits 0 (record { ptr = 1; capacity = 0; items = [] }) ∷ drops_writer 0 ∷ [])
        (start 4)
      ≡ some w)
    × (w.pool.free_indices ≡ [])
    × (w.writers ≡ [])
    × (w.readers ≡ [])
    × (length w.pool.slots ≡ 1)
unfolding run act start new acquire preallocate add_slots add_slot reuse update_slot drop_media
    allocate
loses_a_slot = (_, refl, refl, refl, refl, refl)

run-start-Inv_example : (w : World) × (run share (start 4) ≡ some w) × WorldInv w
run-start-Inv_example = run-start-Inv 4 share (omega arith)

shared-WorldInv : WorldInv shared
shared-WorldInv =
    let (w, e, inv) = run-start-Inv 4 share (omega arith) in
    let same : some w ≡ some shared = sym e ∙ run-shared in
    let w_is : w ≡ shared = cc in rw w_is at inv

as_slice_live_example :
    (s : BufferSlot) × (v : Vec) × (get_elem? shared.pool.slots 0 ≡ some s)
    × (s.bytes ≡ some v)
    × (as_slice 0 shared.pool ≡ some v.items)
as_slice_live_example =
    as_slice_live shared.pool shared.writers shared.readers shared-WorldInv 1 0 refl

freeze-as_slice_example :
    (q : BufferPool) × (freeze
        (record { bytes = record { ptr = 9; capacity = 4; items = [] }; slot_index = 1 })
        shared.pool
      ≡ some q)
    × (as_slice 1 q ≡ some [])
freeze-as_slice_example =
    freeze-as_slice shared.pool shared.writers shared.readers shared-WorldInv 0
      (record { bytes = record { ptr = 9; capacity = 4; items = [] }; slot_index = 1 }) refl

act-as_slice_example : as_slice 0 shared_less.pool ≡ as_slice 0 shared.pool
act-as_slice_example =
    act-as_slice shared shared-WorldInv 0 (omega arith) (drops_reader 1) shared_less (omega arith)
      drops-shared

stats-Inv_example :
    ((stats shared.pool).available + (stats shared.pool).in_use ≡ 2)
    × ((stats shared.pool).high_watermark ≡ 2)
stats-Inv_example = stats-Inv shared.pool shared.writers shared.readers shared-WorldInv
