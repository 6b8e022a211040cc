-- ===== src/Runtime/Pool/Steps.antt =====
-- Whatever a program does with the handles that it holds, nothing panics and the invariant stays.
use caml.Base.{
  ℕ, suc, ◌+◌, ◌≤◌, ◌<◌, ◌≡◌, refl, inl, inr, List, [], ◌∷◌, Option, some, arith, length, get_elem?,
  length-remove_at, Option-cases,
}
use caml.Runtime.Pool.Acquire.{preallocate-Inv, acquire-Inv}
use caml.Runtime.Pool.Invariant.{Inv}
use caml.Runtime.Pool.Readers.{clone_pooled-Inv, drop_pooled-Inv}
use caml.Runtime.Pool.World.{
  World, Action, preallocates, acquires, edits, freezes, drops_writer, clones, drops_reader, act,
  run, start,
}
use caml.Runtime.Pool.Writers.{freeze-Inv, drop_media-Inv, edit-Inv}
use caml.Runtime.Pool.{usize_mod, new}

abbrev pub WorldInv : World → Type 0
WorldInv w = Inv w.pool w.writers w.readers

-- The world after an action that did not panic.
abbrev Goes : World → Option World → Type 0
Goes w o = (w' : World) × (o ≡ some w') × WorldInv w' × (length w'.readers ≤ suc (length w.readers))

-- One action: it does not panic, keeps the invariant and adds one reader at most.
act-Inv :
    (a : Action) (w : World) → WorldInv w → length w.readers + 1 < usize_mod → Goes w (act a w)
unfolding act
act-Inv (preallocates address count) w inv room =
    (_, refl, preallocate-Inv w.pool w.writers w.readers inv address count, omega arith)
act-Inv (acquires address) w inv room =
    let (b, q, e, after) = acquire-Inv w.pool w.writers w.readers inv address in
    (record w { pool = q; writers = b ∷ w.writers }, rw e, after, omega arith)
act-Inv (edits k v) w inv room = elim (Option-cases (get_elem? w.writers k)) [
  | inl gone ↦ (w, rw gone, inv, omega arith)
  | inr (b, h) ↦ (_, rw h, edit-Inv w.pool w.writers w.readers inv k b v h, omega arith)
]
act-Inv (freezes k) w inv room = elim (Option-cases (get_elem? w.writers k)) [
  | inl gone ↦ (w, rw gone, inv, omega arith)
  | inr (b, h) ↦
      let (q, e, after) = freeze-Inv w.pool w.writers w.readers inv k b h in
      (_, rw (h, e), after, omega arith)
]
act-Inv (drops_writer k) w inv room = elim (Option-cases (get_elem? w.writers k)) [
  | inl gone ↦ (w, rw gone, inv, omega arith)
  | inr (b, h) ↦
      let (q, e, after) = drop_media-Inv w.pool w.writers w.readers inv k b h in
      (_, rw (h, e), after, omega arith)
]
act-Inv (clones k) w inv room = elim (Option-cases (get_elem? w.readers k)) [
  | inl gone ↦ (w, rw gone, inv, omega arith)
  | inr (r, h) ↦
      let (q, e, after) = clone_pooled-Inv w.pool w.writers w.readers inv k r h room in
      (_, rw (h, e), after, omega arith)
]
act-Inv (drops_reader k) w inv room = elim (Option-cases (get_elem? w.readers k)) [
  | inl gone ↦ (w, rw gone, inv, omega arith)
  | inr (r, h) ↦
      let (q, e, after) = drop_pooled-Inv w.pool w.writers w.readers inv k r h (omega arith) in
      (_, rw (h, e), after, omega (arith, length-remove_at w.readers k r h))
]

run-Inv :
    (steps : List Action) (w : World)
    → WorldInv w
    → length w.readers + length steps < usize_mod
    → (w' : World) × (run steps w ≡ some w') × WorldInv w'
unfolding run
run-Inv [] w inv room = (w, refl, inv)
run-Inv (a ∷ steps) w inv room =
    let (w1, e, inv1, more) = act-Inv a w inv (omega arith) in
    let (w', e', inv') = run-Inv steps w1 inv1 (omega arith) in (w', rw (e, run) e', inv')

-- A new pool with no handle.
start-Inv : (buffer_size : ℕ) → WorldInv (start buffer_size)
unfolding start new
start-Inv buffer_size = record { slot_inv = λ i. refl; counted = refl; watermark = refl }

-- Whatever a program does with a new pool and its handles, in fewer than 2 ^ 64 actions, no method
-- panics, and at the end a slot that holds its vector is free, once, or shared by readers, not both, and
-- its pointer and length are those of the vector if it is shared; a slot without is neither, and at most
-- one writer has it; and each reference count is the number of readers.
pub run-start-Inv :
    (buffer_size : ℕ) (steps : List Action)
    → length steps < usize_mod
    → (w : World) × (run steps (start buffer_size) ≡ some w) × WorldInv w
unfolding start
run-start-Inv buffer_size steps room =
    run-Inv steps (start buffer_size) (start-Inv buffer_size) (omega arith)
