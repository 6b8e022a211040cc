-- ===== src/Webrtc/Sink/Machine.antt =====
-- crates/caml-webrtc/src/lib.rs: `consume`, `enqueue_packet` and `close_and_flush` on the side of the
-- pipeline, and `run_sender_loop` with `dequeue_packet` on the other, as steps between which either
-- side may go on. A step is a section under the lock, or what stands between two of them. A wait may
-- end at any time, and then the loop looks again. How a packet fares in `process_packet` comes with the
-- step. The log records what the calls answered and where the packets went.
pub mod Sections
pub mod Bounds
pub mod Balance
pub mod Order
pub mod Flow
pub mod Flush
pub mod Errors
mod Tests
use Prim.Native.String.{String}
use caml.Base.{
  ℕ, ◌+◌, Bool, true, false, List, [], ◌∷◌, ◌++◌, Option, none, some, if◌then◌else◌, Result, ok,
  err,
}
use caml.Runtime.Media.{
  RuntimeError, EncodedPacket, MediaPayload, encoded_packet, decoded_frame, end_of_stream,
}
use caml.Text.{Text, codes}
use caml.Webrtc.Sink.{
  WebRtcSharedState, WebRtcSink, new_shared, shared_error, install_metrics,
  record_backpressure_drop, Attempt, returns, waits_for_room, Enqueued, enqueue_section, Dequeued,
  nothing_more, waits_for_packet, takes, dequeue_section, set_sender_error, close,
}

-- Where the pipeline's side stands: outside `consume`; behind `install_metrics`; before the check and
-- before the section of a turn of `enqueue_packet`, and in its wait; before the section of
-- `close_and_flush`, and where it waits for the sender.
pub data Producer : Type 0 where
  outside : Producer
  entered : MediaPayload → Producer
  checking trying waiting : EncodedPacket → Producer
  closing joining : Producer

-- Where the sender's loop stands: before `dequeue_packet`, in `process_packet`, before
-- `set_sender_error`, and at its end.
pub data Sender : Type 0 where
  looking : Sender
  sending : EncodedPacket → Sender
  failing : RuntimeError → Sender
  finished : Sender

pub record Log : Type 0 where
  pub answers : List (Result RuntimeError (Unit {0}))
  pub accepted : List EncodedPacket
  pub taken : List EncodedPacket
  pub sent : List EncodedPacket
  pub drops : ℕ
  pub reported : ℕ

pub record Machine : Type 0 where
  pub shared : WebRtcSharedState
  pub producer : Producer
  pub sender : Sender
  pub log : Log

abbrev pub empty_log : Log
empty_log = record { answers = []; accepted = []; taken = []; sent = []; drops = 0; reported = 0 }

-- The sink as `new_configured` makes it.
abbrev pub start : Machine
start = record { shared = new_shared; producer = outside; sender = looking; log = empty_log }

-- The call of `consume` returns.
unfoldable pub answer : Result RuntimeError (Unit {0}) → Machine → Machine
answer r m = record m {
  producer = outside;
  log = record m.log { answers = m.log.answers ++ r ∷ [] };
}

abbrev pub go_to : Producer → Machine → Machine
go_to producer m = record m { producer = producer }

-- The `match` of `consume`, behind its check.
abbrev pub consume_payload : WebRtcSink → MediaPayload → Machine → Machine
consume_payload sink (encoded_packet packet) m = go_to (checking packet) m
consume_payload sink (decoded_frame frame) m =
    answer
      (err (
        RuntimeError.sink (
          codes "pipeline '"
          ++ (sink.pipeline_id
              ++ codes
                  "' produced decoded frames but the current WebRTC sink expects packetized encoded video"))))
      m
consume_payload sink end_of_stream m = go_to closing m

-- `self.shared_error().await?`, and what follows.
abbrev pub unless_error : Result RuntimeError (Unit {0}) → Machine → Machine → Machine
unless_error (ok tt) m next = next
unless_error (err error) m next = answer (err error) m

-- A drop is counted, and reported where there is an exporter.
abbrev pub note_drop : Bool → Bool → Log → Log
note_drop metrics false log = log
note_drop metrics true log = record log {
  drops = log.drops + 1;
  reported = record_backpressure_drop metrics log.reported;
}

-- `accepted` has the packets whose call returns `Ok`.
abbrev pub after_attempt : Bool → EncodedPacket → Attempt → Machine → Machine
after_attempt dropped packet waits_for_room m = go_to (waiting packet) m
after_attempt dropped packet (returns (err error)) m = answer (err error) m
after_attempt dropped packet (returns (ok tt)) m =
    answer (ok tt) (record m { log = record m.log { accepted = m.log.accepted ++ packet ∷ [] } })

unfoldable pub try_packet : WebRtcSink → Bool → EncodedPacket → Machine → Machine
unfolding enqueue_section answer
try_packet sink metrics packet m =
    let q = enqueue_section sink packet m.shared in
    after_attempt q.dropped packet q.attempt
      (record m { shared = q.shared; log = note_drop metrics q.dropped m.log })

-- The sender's task is awaited only where it still runs.
abbrev pub join_sender : Sender → Machine → Machine
join_sender finished m = unless_error (shared_error m.shared) m (answer (ok tt) m)
join_sender _ m = m

-- A step of the pipeline's side, where `metrics` says whether its context has an exporter.
unfoldable pub producer_step : WebRtcSink → Bool → Producer → Machine → Machine
unfolding try_packet shared_error close
producer_step sink metrics outside m = m
producer_step sink metrics (entered payload) m =
    unless_error (shared_error m.shared) m (consume_payload sink payload m)
producer_step sink metrics (checking packet) m =
    unless_error (shared_error m.shared) m (go_to (trying packet) m)
producer_step sink metrics (trying packet) m = try_packet sink metrics packet m
producer_step sink metrics (waiting packet) m = go_to (checking packet) m
producer_step sink metrics closing m = record m { shared = close m.shared; producer = joining }
producer_step sink metrics joining m = join_sender m.sender m

-- A call of `consume` begins.
abbrev pub enter : Bool → MediaPayload → Producer → Machine → Machine
enter metrics payload outside m = record m {
  shared = install_metrics metrics m.shared;
  producer = entered payload;
}
enter metrics payload _ m = m

-- The sender takes what it found.
abbrev pub after_dequeue : Dequeued → Machine → Machine
after_dequeue nothing_more m = record m { sender = finished }
after_dequeue waits_for_packet m = m
after_dequeue (takes packet) m = record m {
  sender = sending packet;
  log = record m.log { taken = m.log.taken ++ packet ∷ [] };
}

abbrev pub after_process : EncodedPacket → Result RuntimeError (Unit {0}) → Machine → Machine
after_process packet (ok tt) m = record m {
  sender = looking;
  log = record m.log { sent = m.log.sent ++ packet ∷ [] };
}
after_process packet (err error) m = record m { sender = failing error }

-- A step of the sender's side, with the outcome of `process_packet` where it is called.
unfoldable pub sender_step : Result RuntimeError (Unit {0}) → Sender → Machine → Machine
unfolding dequeue_section set_sender_error
sender_step r looking m =
    let d = dequeue_section m.shared in after_dequeue d.0 (record m { shared = d.1 })
sender_step r (sending packet) m = after_process packet r m
sender_step r (failing error) m = record m {
  shared = set_sender_error error m.shared;
  sender = finished;
}
sender_step r finished m = m

-- Whose turn it is. A step of a side that cannot go on changes nothing.
pub data Action : Type 0 where
  consume : MediaPayload → Action
  producer_goes : Action
  sender_goes : Result RuntimeError (Unit {0}) → Action

unfoldable pub step : WebRtcSink → Bool → Action → Machine → Machine
unfolding producer_step sender_step install_metrics
step sink metrics (consume payload) m = enter metrics payload m.producer m
step sink metrics producer_goes m = producer_step sink metrics m.producer m
step sink metrics (sender_goes r) m = sender_step r m.sender m

unfoldable pub run : WebRtcSink → Bool → List Action → Machine → Machine
unfolding step
run sink metrics [] m = m
run sink metrics (a ∷ actions) m = run sink metrics actions (step sink metrics a m)

-- What every step keeps, every run keeps.
pub run-keeps {ℓ} :
    (P : Machine → Type ℓ) (sink : WebRtcSink) (metrics : Bool)
    → ((a : Action) (m : Machine) → P m → P (step sink metrics a m))
    → (actions : List Action) (m : Machine) → P m
    → P (run sink metrics actions m)
unfolding run
run-keeps P sink metrics keeps [] m p = p
run-keeps P sink metrics keeps (a ∷ actions) m p =
    run-keeps P sink metrics keeps actions (step sink metrics a m) (keeps a m p)
