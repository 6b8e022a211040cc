-- ===== src/Webrtc/Sink/Machine/Tests.antt =====
-- The sink and its sender: runs, and the theorems at examples.
use caml.Base.{
  ◌+◌, ◌≡◌, refl, true, false, List, [], ◌∷◌, ◌++◌, none, some, length, ok, err, map, arith,
}
use caml.Runtime.Media.{
  EncodedPacket, DropPolicy, block, drop_oldest, drop_newest, encoded_packet, end_of_stream, owned,
  RuntimeError,
}
use caml.Text.{codes}
use caml.Webrtc.Sink.{WebRtcSink, record_backpressure_drop}
use caml.Webrtc.Sink.Machine.{
  Machine, Action, consume, producer_goes, sender_goes, start, run, step, outside, joining,
  finished,
}
use caml.Webrtc.Sink.Machine.Errors.{run-error}
use caml.Webrtc.Sink.Machine.Flush.{close_and_flush-sent}
use caml.Webrtc.Sink.Machine.Balance.{InOrder}
use caml.Webrtc.Sink.Machine.Order.{Balanced, run-Balanced}

abbrev key_packet : EncodedPacket
key_packet = record {
  codec = codes "h264";
  timestamp = none;
  duration = none;
  is_keyframe = true;
  storage = owned (1 ∷ []);
}

abbrev delta_packet : EncodedPacket
delta_packet = record key_packet { is_keyframe = false; storage = owned (2 ∷ []) }

abbrev sink_with : DropPolicy → WebRtcSink
sink_with policy = record { pipeline_id = codes "front"; queue_limit = 2; drop_policy = policy }

-- A packet is offered, and the call goes through.
abbrev offers : EncodedPacket → List Action
offers packet = consume (encoded_packet packet) ∷ producer_goes ∷ producer_goes ∷ producer_goes ∷ []

-- With the queue full, the delta packet makes room, though a keyframe is older.
replaces :
    map
      (λ (packet : EncodedPacket). packet.is_keyframe)
      (run
        (sink_with drop_oldest)
        true
        (offers key_packet ++ (offers delta_packet ++ offers key_packet))
        start).shared.queue
    ≡ true ∷ true ∷ []
unfolding run
replaces = refl

refuses :
    (run
      (sink_with drop_newest)
      true
      (offers key_packet ++ (offers delta_packet ++ offers key_packet))
      start).log.reported
    ≡ 1
unfolding run record_backpressure_drop
refuses = refl

-- Two packets are sent, and the stream ends.
abbrev whole_stream : List Action
whole_stream =
    offers key_packet
    ++ (offers delta_packet
        ++ (sender_goes (ok tt)
            ∷ sender_goes (ok tt)
            ∷ consume end_of_stream
            ∷ producer_goes
            ∷ producer_goes
            ∷ sender_goes (ok tt)
            ∷ sender_goes (ok tt)
            ∷ sender_goes (ok tt)
            ∷ []))

-- The machine where the call of `close_and_flush` waits, and the sender is at its end.
abbrev ended : Machine
ended = record {
  shared = record { queue = []; closed = true; error = none; metrics = false };
  producer = joining;
  sender = finished;
  log = record {
    answers = ok tt ∷ ok tt ∷ [];
    accepted = key_packet ∷ delta_packet ∷ [];
    taken = key_packet ∷ delta_packet ∷ [];
    sent = key_packet ∷ delta_packet ∷ [];
    drops = 0;
    reported = 0;
  };
}

reaches : run (sink_with block) false whole_stream start ≡ ended
unfolding run
reaches = refl

answers_ok :
    (step (sink_with block) false producer_goes ended).log.answers ≡ ended.log.answers ++ ok tt ∷ []
unfolding run
answers_ok = refl

-- The sender fails at the first packet.
abbrev stall : RuntimeError
stall = RuntimeError.sink (codes "stalled")

abbrev failed_sink : Machine
failed_sink =
    run (sink_with block) false
      (offers key_packet
        ++ (sender_goes (ok tt) ∷ sender_goes (err stall) ∷ sender_goes (ok tt) ∷ []))
      start

has_failed : failed_sink.shared.error ≡ some stall
unfolding run
has_failed = refl

stays_outside : (run (sink_with block) false (producer_goes ∷ []) failed_sink).producer ≡ outside
unfolding run
stays_outside = refl

run-Balanced_example : Balanced block (run (sink_with block) false whole_stream start)
run-Balanced_example = run-Balanced (sink_with block) false whole_stream (omega arith)

close_and_flush-sent_example :
    (ended.shared.queue ≡ [])
    × (ended.log.sent ≡ ended.log.taken)
    × InOrder block ended.log.sent ended.log.accepted
    × (length ended.log.accepted ≡ length ended.log.sent + ended.log.drops)
close_and_flush-sent_example =
    close_and_flush-sent (sink_with block) false whole_stream ended (omega arith) reaches refl
      answers_ok

run-error_example :
    let n = run (sink_with block) false (producer_goes ∷ []) failed_sink in
    (n.shared.error ≡ some stall)
    × (n.log.taken ≡ failed_sink.log.taken)
    × ((run (sink_with block) false (consume end_of_stream ∷ producer_goes ∷ []) n).log.answers
        ≡ n.log.answers ++ err stall ∷ [])
run-error_example =
    run-error (sink_with block) false (producer_goes ∷ []) failed_sink
      (run (sink_with block) false (producer_goes ∷ []) failed_sink) stall end_of_stream has_failed
      refl stays_outside
