-- ===== src/Webrtc/Sink/Oldest.antt =====
-- Which packet `drop_oldest_prefer_delta` takes out.

use caml.Base.{
  ◌≡◌, refl, ap, ◌⊎◌, inl, inr, true, false, Bool-cases, List, [], ◌∷◌, ◌++◌, none, some, length,
  get_elem?, remove_at, All, is_empty,
}
use caml.Runtime.Media.{EncodedPacket}
use caml.Webrtc.Sink.{delta_position, drop_oldest_prefer_delta}

module _ {ℓ} {A : Type ℓ} where
  get_elem?_middle :
      (before : List A) (x : A) (after : List A)
      → get_elem? (before ++ x ∷ after) (length before) ≡ some x
  get_elem?_middle [] x after = refl
  get_elem?_middle (y ∷ before) x after = get_elem?_middle before x after

  remove_at_middle :
      (before : List A) (x : A) (after : List A)
      → remove_at (before ++ x ∷ after) (length before) ≡ before ++ after
  remove_at_middle [] x after = refl
  remove_at_middle (y ∷ before) x after = ap (◌∷◌ y) (remove_at_middle before x after)

abbrev pub IsKeyframe : EncodedPacket → Type 0
IsKeyframe packet = packet.is_keyframe ≡ true

-- The first delta packet, and where it stands.
abbrev FirstDelta : List EncodedPacket → Type 0
FirstDelta queue =
    (before : List EncodedPacket) × (packet : EncodedPacket) × (after : List EncodedPacket) × (queue
      ≡ before ++ packet ∷ after)
    × (delta_position queue ≡ some (length before))
    × All IsKeyframe before
    × (packet.is_keyframe ≡ false)

delta_position-cases :
    (queue : List EncodedPacket)
    → ((delta_position queue ≡ none) × All IsKeyframe queue) ⊎ FirstDelta queue
unfolding delta_position
delta_position-cases [] = inl (refl, tt)
delta_position-cases (p ∷ queue) = elim (Bool-cases p.is_keyframe) [
  | inr delta ↦ inr ([], p, queue, refl, rw delta refl, tt, delta)
  | inl key ↦ elim (delta_position-cases queue) [
    | inl (none_there, all) ↦ inl (rw (key, none_there) refl, (key, all))
    | inr (before, x, after, e, place, all, delta) ↦
        inr (p ∷ before, x, after, ap (◌∷◌ p) e, rw (key, place) refl, (key, all), delta)
  ]
]

-- What is taken out of a queue: its first delta packet, or the head of a queue of keyframes.
abbrev pub IsChosen : List EncodedPacket → EncodedPacket → List EncodedPacket → Type 0
IsChosen before packet after =
    All IsKeyframe before
    × ((packet.is_keyframe ≡ false) ⊎ (All IsKeyframe (before ++ packet ∷ after) × (before ≡ [])))

-- `drop_oldest_prefer_delta` takes one packet out of a queue that is not empty, and leaves the others
-- in order: the first that is no keyframe, or, if all are keyframes, the head.
pub drop_oldest_prefer_delta-IsChosen :
    (queue : List EncodedPacket)
    → is_empty queue ≡ false
    → (before : List EncodedPacket) × (packet : EncodedPacket) × (after : List EncodedPacket)
      × (queue ≡ before ++ packet ∷ after)
      × (drop_oldest_prefer_delta queue ≡ (some packet, before ++ after))
      × IsChosen before packet after
unfolding drop_oldest_prefer_delta
drop_oldest_prefer_delta-IsChosen [] h = cc
drop_oldest_prefer_delta-IsChosen (p ∷ queue) h = elim (delta_position-cases (p ∷ queue)) [
  | inl (none_there, all) ↦ ([], p, queue, refl, rw none_there refl, (tt, inr (all, refl)))
  | inr (before, x, after, e, place, all, delta) ↦ (
    before,
    x,
    after,
    e,
    rw (place, e, get_elem?_middle before x after, remove_at_middle before x after) refl,
    (all, inl delta),
  )
]
