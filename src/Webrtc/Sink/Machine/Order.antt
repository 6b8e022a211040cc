-- ===== src/Webrtc/Sink/Machine/Order.antt =====
-- Where the packets go: none is invented, doubled or overtaken, and each that is lost is counted.
use mathlib.Core.List.Sublist
use caml.Base.{
  ◌+◌, ◌≤◌, ◌≡◌, refl, inl, inr, Bool, true, false, List, [], ◌∷◌, ◌++◌, Option, none, some, arith,
  is_empty, Result, ok, err, if◌then◌else◌,
}
use caml.Runtime.Media.{
  EncodedPacket, DropPolicy, block, drop_oldest, drop_newest, MediaPayload, encoded_packet,
  decoded_frame, end_of_stream, RuntimeError,
}
use caml.Webrtc.Sink.{
  WebRtcSink, Enqueued, close, install_metrics, set_sender_error, shared_error, enqueue_full,
  nothing_more, waits_for_packet, dequeue_from, dequeue_unless, dequeue_section,
}
use caml.Webrtc.Sink.Attempts.{enqueue_section-cases}
use caml.Webrtc.Sink.Oldest.{drop_oldest_prefer_delta-IsChosen}
use caml.Webrtc.Sink.Machine.Bounds.{some_packet}
use caml.Webrtc.Sink.Machine.{
  Machine, start, Producer, outside, entered, checking, trying, waiting, closing, joining, Sender,
  looking, sending, failing, finished, answer, unless_error, note_drop, after_attempt, try_packet,
  join_sender, producer_step, enter, after_dequeue, sender_step, Action, consume, producer_goes,
  sender_goes, step, run, run-keeps,
}
use caml.Webrtc.Sink.Machine.Balance.{
  InOrder, Balance, Balance-push, Balance-refuse, Balance-evict, Balance-take,
}

abbrev pub Balanced : DropPolicy → Machine → Type 0
Balanced policy m = Balance policy m.log.accepted m.log.taken m.shared.queue m.log.drops

-- What `try_packet` does with the outcome of the section.
abbrev tried : Bool → EncodedPacket → Machine → Enqueued → Machine
tried metrics packet m q =
    after_attempt q.dropped packet q.attempt
      (record m { shared = q.shared; log = note_drop metrics q.dropped m.log })

tried_full-Balanced :
    (policy : DropPolicy) (metrics : Bool) (packet : EncodedPacket) (m : Machine)
    → is_empty m.shared.queue ≡ false
    → Balanced policy m
    → Balanced policy (tried metrics packet m (enqueue_full policy packet m.shared))
unfolding answer
tried_full-Balanced block metrics packet m some_queue b = b
tried_full-Balanced drop_newest metrics packet m some_queue b =
    Balance-refuse m.log.accepted m.log.taken m.log.drops packet m.shared.queue b
tried_full-Balanced drop_oldest metrics packet m some_queue b =
    let (before, lost, after, e, done, chosen) =
      drop_oldest_prefer_delta-IsChosen m.shared.queue some_queue in
    rw done (
      Balance-push m.log.accepted m.log.taken (m.log.drops + 1) packet drop_oldest (before ++ after)
        (Balance-evict m.log.accepted m.log.taken m.log.drops before lost after (rw e at b)))

module _ (sink : WebRtcSink) (some_room : 1 ≤ sink.queue_limit) where
  try_packet-Balanced :
      (metrics : Bool) (packet : EncodedPacket) (m : Machine)
      → Balanced sink.drop_policy m
      → Balanced sink.drop_policy (try_packet sink metrics packet m)
  unfolding try_packet answer
  try_packet-Balanced metrics packet m b = elim (enqueue_section-cases sink packet m.shared) [
    | inl (shut, e) ↦ rw e b
    | inr (inl (open_still, room, e)) ↦ rw e (
        Balance-push m.log.accepted m.log.taken m.log.drops packet sink.drop_policy m.shared.queue
          b)
    | inr (inr (open_still, full, e)) ↦ rw e (
        tried_full-Balanced sink.drop_policy metrics packet m
          (some_packet m.shared.queue (omega arith)) b)
  ]

  unless_error-Balanced :
      (policy : DropPolicy) (r : Result RuntimeError (Unit {0})) (m next : Machine)
      → Balanced policy m
      → Balanced policy next
      → Balanced policy (unless_error r m next)
  unfolding answer
  unless_error-Balanced policy (ok tt) m next b bn = bn
  unless_error-Balanced policy (err error) m next b bn = b

  producer_step-Balanced :
      (metrics : Bool) (producer : Producer) (m : Machine)
      → Balanced sink.drop_policy m
      → Balanced sink.drop_policy (producer_step sink metrics producer m)
  unfolding producer_step close answer
  producer_step-Balanced metrics outside m b = b
  producer_step-Balanced metrics (entered (encoded_packet packet)) m b =
      unless_error-Balanced sink.drop_policy (shared_error m.shared) m _ b b
  producer_step-Balanced metrics (entered (decoded_frame frame)) m b =
      unless_error-Balanced sink.drop_policy (shared_error m.shared) m _ b b
  producer_step-Balanced metrics (entered end_of_stream) m b =
      unless_error-Balanced sink.drop_policy (shared_error m.shared) m _ b b
  producer_step-Balanced metrics (checking packet) m b =
      unless_error-Balanced sink.drop_policy (shared_error m.shared) m _ b b
  producer_step-Balanced metrics (trying packet) m b = try_packet-Balanced metrics packet m b
  producer_step-Balanced metrics (waiting packet) m b = b
  producer_step-Balanced metrics closing m b = b
  producer_step-Balanced metrics joining m b = joined m.sender
    where
      joined : (s : Sender) → Balanced sink.drop_policy (join_sender s m)
      joined looking = b
      joined (sending packet) = b
      joined (failing error) = b
      joined finished = unless_error-Balanced sink.drop_policy (shared_error m.shared) m _ b b

-- The sender's side.
dequeued-Balanced :
    (policy : DropPolicy) (m : Machine) (error : Option RuntimeError) (queue : List EncodedPacket)
    → Balance policy m.log.accepted m.log.taken queue m.log.drops
    → Balanced policy m
    → Balanced policy (
        after_dequeue
          (dequeue_from queue m.shared).0
          (record m { shared = (dequeue_from queue m.shared).1 }))
dequeued-Balanced policy m error [] b whole = none_there m.shared.closed
  where
    none_there :
        (shut : Bool)
        → Balanced policy (after_dequeue (if shut then nothing_more else waits_for_packet) m)
    none_there true = whole
    none_there false = whole
dequeued-Balanced policy m error (packet ∷ queue) b whole =
    Balance-take policy m.log.accepted m.log.taken queue m.log.drops packet b

looking-Balanced :
    (policy : DropPolicy) (m : Machine) (error : Option RuntimeError)
    → Balanced policy m
    → Balanced policy (
        after_dequeue
          (dequeue_unless error m.shared).0
          (record m { shared = (dequeue_unless error m.shared).1 }))
looking-Balanced policy m (some error) b = b
looking-Balanced policy m none b = dequeued-Balanced policy m none m.shared.queue b b

sender_step-Balanced :
    (policy : DropPolicy) (r : Result RuntimeError (Unit {0})) (s : Sender) (m : Machine)
    → Balanced policy m
    → Balanced policy (sender_step r s m)
unfolding sender_step dequeue_section set_sender_error
sender_step-Balanced policy r looking m b = looking-Balanced policy m m.shared.error b
sender_step-Balanced policy (ok tt) (sending packet) m b = b
sender_step-Balanced policy (err error) (sending packet) m b = b
sender_step-Balanced policy r (failing error) m b = b
sender_step-Balanced policy r finished m b = b

enter-Balanced :
    (policy : DropPolicy) (metrics : Bool) (payload : MediaPayload) (producer : Producer)
    (m : Machine)
    → Balanced policy m
    → Balanced policy (enter metrics payload producer m)
unfolding install_metrics
enter-Balanced policy metrics payload outside m b = b
enter-Balanced policy metrics payload (entered other) m b = b
enter-Balanced policy metrics payload (checking packet) m b = b
enter-Balanced policy metrics payload (trying packet) m b = b
enter-Balanced policy metrics payload (waiting packet) m b = b
enter-Balanced policy metrics payload closing m b = b
enter-Balanced policy metrics payload joining m b = b

empty-InOrder : (policy : DropPolicy) → InOrder policy [] []
empty-InOrder block = refl
empty-InOrder drop_oldest = Sublist.refl []
empty-InOrder drop_newest = Sublist.refl []

-- Whatever is consumed, and however the two sides go on, from a new sink with a limit of at least 1:
-- the packets that the sender took, followed by those in the queue, are those that `consume` accepted,
-- in their order, under the policy `Block`, and some of those, in their order, under the others; and
-- the accepted packets are as many as these and the drops.
pub run-Balanced :
    (sink : WebRtcSink) (metrics : Bool) (actions : List Action)
    → 1 ≤ sink.queue_limit
    → Balanced sink.drop_policy (run sink metrics actions start)
run-Balanced sink metrics actions some_room =
    run-keeps (Balanced sink.drop_policy) sink metrics keeps actions start
      record { in_order = empty-InOrder sink.drop_policy; counted = refl }
  where
    keeps :
        (a : Action) (m : Machine)
        → Balanced sink.drop_policy m
        → Balanced sink.drop_policy (step sink metrics a m)
    keeps (consume payload) m b =
        unfold step in enter-Balanced sink.drop_policy metrics payload m.producer m b
    keeps producer_goes m b =
        unfold step in producer_step-Balanced sink some_room metrics m.producer m b
    keeps (sender_goes r) m b = unfold step in sender_step-Balanced sink.drop_policy r m.sender m b
