-- ===== src/Webrtc/Sink/Machine/Balance.antt =====
-- The packets accepted, against those taken, queued and dropped.
use mathlib.Core.List.{Sublist, append_assoc, sublist-append_left}
use mathlib.Core.List.Sublist
use caml.Base.{ℕ, ◌+◌, ◌≡◌, sym, ap, subst, List, [], ◌∷◌, ◌++◌, length, arith, length-append}
use caml.Runtime.Media.{EncodedPacket, DropPolicy, block, drop_oldest, drop_newest}

-- What each policy promises of the packets that come through, against those accepted.
abbrev pub InOrder : DropPolicy → List EncodedPacket → List EncodedPacket → Type 0
InOrder block through accepted = through ≡ accepted
InOrder drop_oldest through accepted = Sublist through accepted
InOrder drop_newest through accepted = Sublist through accepted

-- The packets taken and queued are in order, and the accepted ones that are missing are the drops.
pub record Balance (policy : DropPolicy) (accepted taken queue : List EncodedPacket) (drops : ℕ)
    : Type 0 where
  pub in_order : InOrder policy (taken ++ queue) accepted
  pub counted : length accepted ≡ length taken + length queue + drops

InOrder-snoc :
    (policy : DropPolicy) (through accepted : List EncodedPacket) (packet : EncodedPacket)
    → InOrder policy through accepted
    → InOrder policy (through ++ packet ∷ []) (accepted ++ packet ∷ [])
InOrder-snoc block through accepted packet o = ap (λ l. l ++ packet ∷ []) o
InOrder-snoc drop_oldest through accepted packet o = Sublist.append o (Sublist.refl (packet ∷ []))
InOrder-snoc drop_newest through accepted packet o = Sublist.append o (Sublist.refl (packet ∷ []))

module _ (accepted taken : List EncodedPacket) (drops : ℕ) (packet : EncodedPacket) where
  pub Balance-push :
      (policy : DropPolicy) (queue : List EncodedPacket)
      → Balance policy accepted taken queue drops
      → Balance policy (accepted ++ packet ∷ []) taken (queue ++ packet ∷ []) drops
  Balance-push policy queue b = record {
    in_order =
        subst (λ l. InOrder policy l (accepted ++ packet ∷ []))
          (append_assoc taken queue (packet ∷ []))
          (InOrder-snoc policy (taken ++ queue) accepted packet b.in_order);
    counted =
        omega (
          arith,
          b.counted,
          length-append accepted (packet ∷ []),
          length-append queue (packet ∷ []),
        );
  }

  pub Balance-refuse :
      (queue : List EncodedPacket)
      → Balance drop_newest accepted taken queue drops
      → Balance drop_newest (accepted ++ packet ∷ []) taken queue (drops + 1)
  Balance-refuse queue b = record {
    in_order = Sublist.trans b.in_order (sublist-append_left accepted (packet ∷ []));
    counted = omega (arith, b.counted, length-append accepted (packet ∷ []));
  }

-- The queue without one packet.
pub Balance-evict :
    (accepted taken : List EncodedPacket) (drops : ℕ) (before : List EncodedPacket)
    (lost : EncodedPacket) (after : List EncodedPacket)
    → Balance drop_oldest accepted taken (before ++ lost ∷ after) drops
    → Balance drop_oldest accepted taken (before ++ after) (drops + 1)
Balance-evict accepted taken drops before lost after b = record {
  in_order =
      Sublist.trans
        (Sublist.append (Sublist.refl taken)
          (Sublist.append (Sublist.refl before) (Sublist.cons lost (Sublist.refl after))))
        b.in_order;
  counted =
      omega (arith, b.counted, length-append before after, length-append before (lost ∷ after));
}

-- A packet that the sender takes.
pub Balance-take :
    (policy : DropPolicy) (accepted taken queue : List EncodedPacket) (drops : ℕ)
    (packet : EncodedPacket)
    → Balance policy accepted taken (packet ∷ queue) drops
    → Balance policy accepted (taken ++ packet ∷ []) queue drops
Balance-take policy accepted taken queue drops packet b =
    let e : (taken ++ packet ∷ []) ++ queue ≡ taken ++ packet ∷ queue =
      append_assoc taken (packet ∷ []) queue in
    record {
      in_order = subst (λ l. InOrder policy l accepted) (sym e) b.in_order;
      counted = omega (arith, b.counted, length-append taken (packet ∷ []));
    }
