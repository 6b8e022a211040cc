-- ===== src/Runtime/Pool/World.antt =====
-- A pool together with the handles that are alive, and what a program can do with them. `none` is
-- a panic. A position with no handle there is no action at all, since a handle is a value that its
-- owner holds.
use caml.Base.{
  ℕ, List, [], ◌∷◌, Option, none, some, ◌==◌, if◌then◌else◌, get_elem?, set, remove_at, tally,
}
use caml.Runtime.Pool.{
  Vec, BufferPool, MediaBuffer, PooledBuffer, new, preallocate, acquire, freeze, drop_media,
  clone_pooled, drop_pooled,
}

pub record World : Type 0 where
  pub pool : BufferPool
  pub writers : List MediaBuffer
  pub readers : List PooledBuffer

-- The methods of the handles; `edits` is any use of `as_mut_vec` or `extend_from_slice`.
pub data Action : Type 0 where
  preallocates : (address : ℕ → ℕ) → (count : ℕ) → Action
  acquires : (address : ℕ) → Action
  edits : (k : ℕ) → (bytes : Vec) → Action
  freezes drops_writer clones drops_reader : (k : ℕ) → Action

abbrev pub acquired : World → Option (MediaBuffer × BufferPool) → Option World
acquired w none = none
acquired w (some (b, p)) = some (record w { pool = p; writers = b ∷ w.writers })

abbrev pub edited : World → ℕ → Vec → Option MediaBuffer → Option World
edited w k v none = some w
edited w k v (some b) = some (record w { writers = set w.writers k (record b { bytes = v }) })

abbrev pub with_pool : Option BufferPool → (BufferPool → World) → Option World
with_pool none f = none
with_pool (some p) f = some (f p)

abbrev pub frozen : World → ℕ → Option MediaBuffer → Option World
frozen w k none = some w
frozen w k (some b) =
    with_pool (freeze b w.pool)
      λ p. record { pool = p; writers = remove_at w.writers k; readers = b.slot_index ∷ w.readers }

abbrev pub dropped_writer : World → ℕ → Option MediaBuffer → Option World
dropped_writer w k none = some w
dropped_writer w k (some b) =
    with_pool (drop_media b w.pool) λ p. record w { pool = p; writers = remove_at w.writers k }

abbrev pub cloned : World → Option PooledBuffer → Option World
cloned w none = some w
cloned w (some r) =
    with_pool (clone_pooled r w.pool) λ p. record w { pool = p; readers = r ∷ w.readers }

abbrev pub dropped_reader : World → ℕ → Option PooledBuffer → Option World
dropped_reader w k none = some w
dropped_reader w k (some r) =
    with_pool (drop_pooled r w.pool) λ p. record w { pool = p; readers = remove_at w.readers k }

unfoldable pub act : Action → World → Option World
act (preallocates address count) w = some (record w { pool = preallocate address count w.pool })
act (acquires address) w = acquired w (acquire address w.pool)
act (edits k v) w = edited w k v (get_elem? w.writers k)
act (freezes k) w = frozen w k (get_elem? w.writers k)
act (drops_writer k) w = dropped_writer w k (get_elem? w.writers k)
act (clones k) w = cloned w (get_elem? w.readers k)
act (drops_reader k) w = dropped_reader w k (get_elem? w.readers k)

unfoldable pub run : List Action → World → Option World
run [] w = some w
run (a ∷ rest) w = elim (act a w) [ none ↦ none | some w' ↦ run rest w' ]

-- A new pool, before any handle exists.
unfoldable pub start : ℕ → World
start buffer_size = record { pool = new buffer_size; writers = []; readers = [] }

-- How many free entries, writers and readers slot `i` has.
abbrev pub at : ℕ → ℕ → ℕ
at i x = if x == i then 1 else 0

abbrev pub free_at : ℕ → BufferPool → ℕ
free_at i p = tally (at i) p.free_indices

abbrev pub writers_at : ℕ → List MediaBuffer → ℕ
writers_at i ws = tally (λ b. at i b.slot_index) ws

abbrev pub readers_at : ℕ → List PooledBuffer → ℕ
readers_at i rs = tally (at i) rs
