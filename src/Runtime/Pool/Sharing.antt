-- ===== src/Runtime/Pool/Sharing.antt =====
-- A reader that stays alive reads the same bytes, whatever a program does.
use caml.Base.{
  ℕ, ◌+◌, ◌-◌, ◌%◌, ◌<◌, ◌≡◌, ◌≢◌, refl, sym, ap, ◌∙◌, inl, inr, Bool-cases, List, ◌∷◌, Option,
  none, some, arith, ◌==◌, get_elem?, set, remove_at, tally-remove_at, Option-cases, get_elem?-lt,
  get_elem?-set_ne,
}
use caml.Runtime.Pool.Readers.{reader_slot}
use caml.Runtime.Pool.Slots.{at_here, update_slot_lem, drop_pooled_lem}
use caml.Runtime.Pool.Stable.{
  SameSlot-as_slice, freeze-SameSlot, drop_media-SameSlot, preallocate-SameSlot, acquire-SameSlot,
  live_slot, set_count-as_slice,
}
use caml.Runtime.Pool.Steps.{WorldInv}
use caml.Runtime.Pool.World.{
  World, Action, preallocates, acquires, edits, freezes, drops_writer, clones, drops_reader, act,
  with_pool, acquired, edited, readers_at, at,
}
use caml.Runtime.Pool.Writers.{writer_slot}
use caml.Runtime.Pool.{
  Vec, BufferSlot, BufferPool, MediaBuffer, PooledBuffer, usize_mod, preallocate, acquire, freeze,
  drop_media, clone_pooled, release, drop_pooled, as_slice,
}

with_pool-eq-some :
    (o : Option BufferPool) (f : BufferPool → World) (w : World)
    → with_pool o f ≡ some w
    → (q : BufferPool) × (o ≡ some q) × (w ≡ f q)
with_pool-eq-some none f w h = absurd (cc h)
with_pool-eq-some (some q) f w h = (q, refl, cc)

acquired-eq-some :
    (w w' : World) (o : Option (MediaBuffer × BufferPool))
    → acquired w o ≡ some w'
    → (b : MediaBuffer) × (q : BufferPool) × (o ≡ some (b, q)) × (w'.pool ≡ q)
acquired-eq-some w w' none h = absurd (cc h)
acquired-eq-some w w' (some (b, q)) h =
    let done : w' ≡ record w { pool = q; writers = b ∷ w.writers } = cc in
    (b, q, refl, rw done refl)

edited-pool :
    (w w' : World) (k : ℕ) (v : Vec) (o : Option MediaBuffer)
    → edited w k v o ≡ some w'
    → w'.pool ≡ w.pool
edited-pool w w' k v none h = ap (λ (x : World). x.pool) (let same : w' ≡ w = cc in same)
edited-pool w w' k v (some b) h =
    let same : w' ≡ record w { writers = set w.writers k (record b { bytes = v }) } = cc in
    ap (λ (x : World). x.pool) same

-- The slot of a live reader is not one that nobody reads.
read_elsewhere :
    (idx i : ℕ) (rs : List PooledBuffer) → readers_at idx rs ≡ 0 → 0 < readers_at i rs → idx ≢ i
read_elsewhere idx i rs zero_readers pos here =
    let none_here : readers_at i rs ≡ 0 = rw here at zero_readers in omega arith

module _ (w : World) (inv : WorldInv w) (i : ℕ) (live : 0 < readers_at i w.readers) where
  clone-as_slice :
      (r : ℕ) (k : ℕ) (q : BufferPool)
      → get_elem? w.readers k ≡ some r
      → clone_pooled r w.pool ≡ some q
      → as_slice i q ≡ as_slice i w.pool
  unfolding clone_pooled
  clone-as_slice r k q h e =
      let (s, es, _, _) = reader_slot w.pool w.writers w.readers inv k r h in
      let count = (s.ref_count + 1) % usize_mod in
      let counted = record w.pool { slots = set w.pool.slots r (record s { ref_count = count }) } in
      let done : some counted ≡ some q = sym (update_slot_lem w.pool r _ s es) ∙ e in
      let same : q ≡ counted = cc in rw same (set_count-as_slice w.pool r i count s es)

  release-as_slice :
      (r : ℕ) (k : ℕ) (s : BufferSlot)
      → get_elem? w.readers k ≡ some r
      → get_elem? w.pool.slots r ≡ some s
      → s.ref_count ≡ readers_at r w.readers
      → 0 < readers_at i (remove_at w.readers k)
      → as_slice i (release w.pool r s) ≡ as_slice i w.pool
  unfolding release
  release-as_slice r k s h es refs still = elim (Bool-cases (s.ref_count == 1)) [
    | inl last ↦
        let one : s.ref_count ≡ 1 = ground arith in
        let gone : readers_at r (remove_at w.readers k) ≡ 0 =
          omega (arith, tally-remove_at (at r) w.readers k r h, at_here r, refs, one) in
        let other = read_elsewhere r i (remove_at w.readers k) gone still in
        rw last (SameSlot-as_slice i w.pool _ (get_elem?-set_ne w.pool.slots r i _ other))
    | inr others ↦
        rw others (set_count-as_slice w.pool r i ((s.ref_count + usize_mod - 1) % usize_mod) s es)
  ]

  -- No writer has the slot of a live reader.
  unread_slot : (k : ℕ) (b : MediaBuffer) → get_elem? w.writers k ≡ some b → b.slot_index ≢ i
  unread_slot k b held =
      let (_, _, _, _, unread, _) = writer_slot w.pool w.writers w.readers inv k b held in
      read_elsewhere b.slot_index i w.readers unread live

  -- A slot that has a reader before and after an action reads the same before and after it, under
  -- the invariant.
  pub act-as_slice :
      (a : Action) (w' : World)
      → 0 < readers_at i w'.readers
      → act a w ≡ some w'
      → as_slice i w'.pool ≡ as_slice i w.pool
  unfolding act
  act-as_slice (preallocates address count) w' still h =
      let (s, es, _) = live_slot w.pool w.writers w.readers inv i live in
      let q = preallocate address count w.pool in
      let same : w' ≡ record w { pool = q } = cc in
      rw same (
        SameSlot-as_slice i w.pool q
          (preallocate-SameSlot address count w.pool i (get_elem?-lt w.pool.slots i s es)))
  act-as_slice (acquires address) w' still h =
      let (b, q, e, same) = acquired-eq-some w w' (acquire address w.pool) h in
      rw same (
        SameSlot-as_slice i w.pool q
          (acquire-SameSlot w.pool w.writers w.readers inv address b q i live e))
  act-as_slice (edits k v) w' still h = rw (edited-pool w w' k v (get_elem? w.writers k) h) refl
  act-as_slice (freezes k) w' still h = elim (Option-cases (get_elem? w.writers k)) [
    | inl gone ↦ let same : w' ≡ w = ground arith in rw same refl
    | inr (b, held) ↦
        let (q, e, same) = with_pool-eq-some (freeze b w.pool) _ w' (rw held at h) in
        rw same
          (SameSlot-as_slice i w.pool q (freeze-SameSlot b w.pool q i e (unread_slot k b held)))
  ]
  act-as_slice (drops_writer k) w' still h = elim (Option-cases (get_elem? w.writers k)) [
    | inl gone ↦ let same : w' ≡ w = ground arith in rw same refl
    | inr (b, held) ↦
        let (q, e, same) = with_pool-eq-some (drop_media b w.pool) _ w' (rw held at h) in
        rw same
          (SameSlot-as_slice i w.pool q (drop_media-SameSlot b w.pool q i e (unread_slot k b held)))
  ]
  act-as_slice (clones k) w' still h = elim (Option-cases (get_elem? w.readers k)) [
    | inl gone ↦ let same : w' ≡ w = ground arith in rw same refl
    | inr (r, held) ↦
        let (q, e, same) = with_pool-eq-some (clone_pooled r w.pool) _ w' (rw held at h) in
        rw same (clone-as_slice r k q held e)
  ]
  act-as_slice (drops_reader k) w' still h = elim (Option-cases (get_elem? w.readers k)) [
    | inl gone ↦ let same : w' ≡ w = ground arith in rw same refl
    | inr (r, held) ↦
        let (q, e, same) = with_pool-eq-some (drop_pooled r w.pool) _ w' (rw held at h) in
        let (s, es, _, fits) = reader_slot w.pool w.writers w.readers inv k r held in
        let done : some (release w.pool r s) ≡ some q = sym (drop_pooled_lem w.pool r s es) ∙ e in
        let released : q ≡ release w.pool r s = cc in
        let left : 0 < readers_at i (remove_at w.readers k) = rw same at still in
        rw (same, released) (release-as_slice r k s held es fits.1 left)
  ]
