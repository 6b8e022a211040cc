-- ===== src/Webrtc/Sink.antt =====
-- crates/caml-webrtc/src/lib.rs: the state that `WebRtcSink` and its sender task share, and what each
-- of them does with it between taking and giving back the lock; each such section is one function.
-- Machine has the steps between the sections. A metrics exporter is there or not.
pub mod Oldest
pub mod Attempts
pub mod Machine
use Prim.Native.String.{String}
use caml.Base.{
  ℕ, zero, suc, ◌+◌, Bool, true, false, not, ◌||◌, List, [], ◌∷◌, ◌++◌, Option, none, some, length,
  ltb, if◌then◌else◌, Result, ok, err, remove_at, get_elem?,
}
use mathlib.Core.Option
use caml.Runtime.Media.{RuntimeError, EncodedPacket, DropPolicy, block, drop_oldest, drop_newest}
use caml.Text.{Text, codes}

pub record WebRtcSharedState : Type 0 where
  pub queue : List EncodedPacket
  pub closed : Bool
  pub error : Option RuntimeError
  pub metrics : Bool

-- The fields of `WebRtcSink` that stay as they are.
pub record WebRtcSink : Type 0 where
  pub pipeline_id : Text
  pub queue_limit : ℕ
  pub drop_policy : DropPolicy

-- The state that `new_configured` puts behind the lock.
abbrev pub new_shared : WebRtcSharedState
new_shared = record { queue = []; closed = false; error = none; metrics = false }

-- `shared_error`.
abbrev pub error_or_ok : Option RuntimeError → Result RuntimeError (Unit {0})
error_or_ok none = ok tt
error_or_ok (some error) = err error

unfoldable pub shared_error : WebRtcSharedState → Result RuntimeError (Unit {0})
shared_error shared = error_or_ok shared.error

unfoldable pub install_metrics : Bool → WebRtcSharedState → WebRtcSharedState
install_metrics metrics shared = record shared { metrics = metrics || shared.metrics }

-- `record_backpressure_drop`, on the number of drops reported so far.
unfoldable pub record_backpressure_drop : Bool → ℕ → ℕ
record_backpressure_drop metrics reported = if metrics then reported + 1 else reported

-- `queue.iter().position(|packet| !packet.is_keyframe)`.
unfoldable pub delta_position : List EncodedPacket → Option ℕ
delta_position [] = none
delta_position (packet ∷ queue) =
    let rest = Option.map suc (delta_position queue) in
    if not packet.is_keyframe then some 0 else rest

-- `VecDeque::remove` and `pop_front`: what is taken out, and the queue without it.
abbrev pub remove : ℕ → List EncodedPacket → Option EncodedPacket × List EncodedPacket
remove index queue = (get_elem? queue index, remove_at queue index)

abbrev pub pop_front : List EncodedPacket → Option EncodedPacket × List EncodedPacket
pop_front [] = (none, [])
pop_front (packet ∷ queue) = (some packet, queue)

abbrev pub remove_or_pop : List EncodedPacket → Option ℕ → Option EncodedPacket × List EncodedPacket
remove_or_pop queue none = pop_front queue
remove_or_pop queue (some index) = remove index queue

unfoldable pub drop_oldest_prefer_delta :
    List EncodedPacket → Option EncodedPacket × List EncodedPacket
unfolding delta_position
drop_oldest_prefer_delta queue = remove_or_pop queue (delta_position queue)

-- How a turn of the loop in `enqueue_packet` ends: the call returns, or it waits for a notification.
pub data Attempt : Type 0 where
  returns : Result RuntimeError (Unit {0}) → Attempt
  waits_for_room : Attempt

-- The attempt, the state behind it, and whether a packet was dropped.
pub record Enqueued : Type 0 where
  pub attempt : Attempt
  pub shared : WebRtcSharedState
  pub dropped : Bool

abbrev pub push_back : EncodedPacket → WebRtcSharedState → WebRtcSharedState
push_back packet shared = record shared { queue = shared.queue ++ packet ∷ [] }

-- The `match` on the policy, where the queue is full.
abbrev pub enqueue_full : DropPolicy → EncodedPacket → WebRtcSharedState → Enqueued
enqueue_full block packet shared = record {
  attempt = waits_for_room;
  shared = shared;
  dropped = false;
}
enqueue_full drop_newest packet shared = record {
  attempt = returns (ok tt);
  shared = shared;
  dropped = true;
}
enqueue_full drop_oldest packet shared = record {
  attempt = returns (ok tt);
  shared = push_back packet (record shared { queue = (drop_oldest_prefer_delta shared.queue).1 });
  dropped = true;
}

-- The section of `enqueue_packet` behind `shared_error`.
unfoldable pub enqueue_section : WebRtcSink → EncodedPacket → WebRtcSharedState → Enqueued
unfolding drop_oldest_prefer_delta
enqueue_section sink packet shared =
    if shared.closed
    then record {
      attempt = returns (
          err (
            RuntimeError.sink (
              codes "pipeline '"
              ++ (sink.pipeline_id ++ codes "' cannot enqueue after WebRTC sink is closed"))));
      shared = shared;
      dropped = false;
    }
    else if ltb (length shared.queue) sink.queue_limit
    then record { attempt = returns (ok tt); shared = push_back packet shared; dropped = false }
    else enqueue_full sink.drop_policy packet shared

-- What a turn of the loop in `dequeue_packet` finds.
pub data Dequeued : Type 0 where
  nothing_more waits_for_packet : Dequeued
  takes : EncodedPacket → Dequeued

abbrev pub dequeue_from : List EncodedPacket → WebRtcSharedState → Dequeued × WebRtcSharedState
dequeue_from [] shared = (if shared.closed then nothing_more else waits_for_packet, shared)
dequeue_from (packet ∷ queue) shared = (takes packet, record shared { queue = queue })

abbrev pub dequeue_unless : Option RuntimeError → WebRtcSharedState → Dequeued × WebRtcSharedState
dequeue_unless (some error) shared = (nothing_more, shared)
dequeue_unless none shared = dequeue_from shared.queue shared

unfoldable pub dequeue_section : WebRtcSharedState → Dequeued × WebRtcSharedState
dequeue_section shared = dequeue_unless shared.error shared

abbrev pub error_or : Option RuntimeError → RuntimeError → RuntimeError
error_or none error = error
error_or (some first) error = first

unfoldable pub set_sender_error : RuntimeError → WebRtcSharedState → WebRtcSharedState
set_sender_error error shared = record shared { error = some (error_or shared.error error) }

-- The section of `close_and_flush`.
unfoldable pub close : WebRtcSharedState → WebRtcSharedState
close shared = record shared { closed = true }
