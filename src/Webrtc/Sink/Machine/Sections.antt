-- ===== src/Webrtc/Sink/Machine/Sections.antt =====
-- What the sections under the lock keep of the shared state, every run keeps.
use caml.Base.{Bool, List, Result, ok, err}
use caml.Runtime.Media.{
  RuntimeError, EncodedPacket, MediaPayload, encoded_packet, decoded_frame, end_of_stream,
}
use caml.Webrtc.Sink.{
  WebRtcSharedState, WebRtcSink, shared_error, install_metrics, enqueue_section, dequeue_section,
  set_sender_error, close, Attempt, returns, waits_for_room, Dequeued, nothing_more,
  waits_for_packet, takes,
}
use caml.Webrtc.Sink.Machine.{
  Machine, Producer, outside, entered, checking, trying, waiting, closing, joining, Sender, looking,
  sending, failing, finished, answer, consume_payload, unless_error, after_attempt, try_packet,
  join_sender, producer_step, enter, after_dequeue, after_process, sender_step, Action, consume,
  producer_goes, sender_goes, step, run, run-keeps,
}

pub record Keeps (sink : WebRtcSink) (Q : WebRtcSharedState → Type 0) : Type 0 where
  pub installs :
      (metrics : Bool) (shared : WebRtcSharedState) → Q shared → Q (install_metrics metrics shared)
  pub enqueues :
      (packet : EncodedPacket) (shared : WebRtcSharedState)
      → Q shared
      → Q (enqueue_section sink packet shared).shared
  pub dequeues : (shared : WebRtcSharedState) → Q shared → Q (dequeue_section shared).1
  pub fails :
      (error : RuntimeError) (shared : WebRtcSharedState)
      → Q shared
      → Q (set_sender_error error shared)
  pub closes : (shared : WebRtcSharedState) → Q shared → Q (close shared)

module _ (sink : WebRtcSink) (Q : WebRtcSharedState → Type 0) (keeps : Keeps sink Q) where
  unless_error-keeps :
      (r : Result RuntimeError (Unit {0})) (m next : Machine)
      → Q m.shared
      → Q next.shared
      → Q (unless_error r m next).shared
  unfolding answer
  unless_error-keeps (ok tt) m next q qn = qn
  unless_error-keeps (err error) m next q qn = q

  consume_payload-keeps :
      (payload : MediaPayload) (m : Machine)
      → Q m.shared
      → Q (consume_payload sink payload m).shared
  unfolding answer
  consume_payload-keeps (encoded_packet packet) m q = q
  consume_payload-keeps (decoded_frame frame) m q = q
  consume_payload-keeps end_of_stream m q = q

  after_attempt-keeps :
      (dropped : Bool) (packet : EncodedPacket) (attempt : Attempt) (m : Machine)
      → Q m.shared
      → Q (after_attempt dropped packet attempt m).shared
  unfolding answer
  after_attempt-keeps dropped packet waits_for_room m q = q
  after_attempt-keeps dropped packet (returns (ok tt)) m q = q
  after_attempt-keeps dropped packet (returns (err error)) m q = q

  join_sender-keeps : (s : Sender) (m : Machine) → Q m.shared → Q (join_sender s m).shared
  unfolding answer
  join_sender-keeps looking m q = q
  join_sender-keeps (sending packet) m q = q
  join_sender-keeps (failing error) m q = q
  join_sender-keeps finished m q = unless_error-keeps (shared_error m.shared) m _ q q

  producer_step-keeps :
      (metrics : Bool) (producer : Producer) (m : Machine)
      → Q m.shared
      → Q (producer_step sink metrics producer m).shared
  unfolding producer_step try_packet
  producer_step-keeps metrics outside m q = q
  producer_step-keeps metrics (entered payload) m q =
      unless_error-keeps (shared_error m.shared) m _ q (consume_payload-keeps payload m q)
  producer_step-keeps metrics (checking packet) m q =
      unless_error-keeps (shared_error m.shared) m _ q q
  producer_step-keeps metrics (trying packet) m q =
      after_attempt-keeps (enqueue_section sink packet m.shared).dropped packet
        (enqueue_section sink packet m.shared).attempt _ (keeps.enqueues packet m.shared q)
  producer_step-keeps metrics (waiting packet) m q = q
  producer_step-keeps metrics closing m q = keeps.closes m.shared q
  producer_step-keeps metrics joining m q = join_sender-keeps m.sender m q

  after_dequeue-keeps : (d : Dequeued) (m : Machine) → Q m.shared → Q (after_dequeue d m).shared
  after_dequeue-keeps nothing_more m q = q
  after_dequeue-keeps waits_for_packet m q = q
  after_dequeue-keeps (takes packet) m q = q

  after_process-keeps :
      (packet : EncodedPacket) (r : Result RuntimeError (Unit {0})) (m : Machine)
      → Q m.shared
      → Q (after_process packet r m).shared
  after_process-keeps packet (ok tt) m q = q
  after_process-keeps packet (err error) m q = q

  sender_step-keeps :
      (r : Result RuntimeError (Unit {0})) (s : Sender) (m : Machine)
      → Q m.shared
      → Q (sender_step r s m).shared
  unfolding sender_step
  sender_step-keeps r looking m q =
      after_dequeue-keeps (dequeue_section m.shared).0 _ (keeps.dequeues m.shared q)
  sender_step-keeps r (sending packet) m q = after_process-keeps packet r m q
  sender_step-keeps r (failing error) m q = keeps.fails error m.shared q
  sender_step-keeps r finished m q = q

  enter-keeps :
      (metrics : Bool) (payload : MediaPayload) (producer : Producer) (m : Machine)
      → Q m.shared
      → Q (enter metrics payload producer m).shared
  enter-keeps metrics payload outside m q = keeps.installs metrics m.shared q
  enter-keeps metrics payload (entered other) m q = q
  enter-keeps metrics payload (checking packet) m q = q
  enter-keeps metrics payload (trying packet) m q = q
  enter-keeps metrics payload (waiting packet) m q = q
  enter-keeps metrics payload closing m q = q
  enter-keeps metrics payload joining m q = q

  step-keeps :
      (metrics : Bool) (a : Action) (m : Machine) → Q m.shared → Q (step sink metrics a m).shared
  unfolding step
  step-keeps metrics (consume payload) m q = enter-keeps metrics payload m.producer m q
  step-keeps metrics producer_goes m q = producer_step-keeps metrics m.producer m q
  step-keeps metrics (sender_goes r) m q = sender_step-keeps r m.sender m q

  pub run-Keeps :
      (metrics : Bool) (actions : List Action) (m : Machine)
      → Q m.shared
      → Q (run sink metrics actions m).shared
  run-Keeps metrics actions m q =
      run-keeps (λ n. Q n.shared) sink metrics (step-keeps metrics) actions m q
