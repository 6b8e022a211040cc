-- ===== src/Webrtc/Sink/Machine/Errors.antt =====
-- The first error of the sender is the last word of the sink.
use caml.Base.{
  ◌≡◌, refl, ap, subst, ◌∙◌, Bool, true, false, List, [], ◌∷◌, ◌++◌, some, Result, ok, err,
}
use caml.Runtime.Media.{
  EncodedPacket, MediaPayload, encoded_packet, decoded_frame, end_of_stream, RuntimeError,
}
use caml.Webrtc.Sink.{
  WebRtcSharedState, WebRtcSink, close, install_metrics, set_sender_error, shared_error, error_or,
  enqueue_section, Attempt, returns, waits_for_room, dequeue_unless, dequeue_section, nothing_more,
}
use caml.Webrtc.Sink.Machine.Flow.{enqueue_section-error}
use caml.Webrtc.Sink.Machine.Sections.{Keeps, run-Keeps}
use caml.Webrtc.Sink.Machine.{
  Machine, Producer, outside, entered, checking, trying, waiting, closing, joining, Sender, looking,
  sending, failing, finished, answer, unless_error, note_drop, after_attempt, try_packet,
  join_sender, producer_step, enter, sender_step, Action, consume, producer_goes, sender_goes, step,
  run,
}

-- The error is set.
abbrev HasError : RuntimeError → WebRtcSharedState → Type 0
HasError error shared = shared.error ≡ some error

dequeue_section_stops :
    (shared : WebRtcSharedState) (error : RuntimeError)
    → HasError error shared
    → dequeue_section shared ≡ (nothing_more, shared)
unfolding dequeue_section
dequeue_section_stops shared error e = ap (λ o. dequeue_unless o shared) e

HasError-Keeps : (sink : WebRtcSink) (error : RuntimeError) → Keeps sink (HasError error)
HasError-Keeps sink error = record {
  installs = λ metrics shared e. unfold install_metrics in e;
  enqueues = λ packet shared e. enqueue_section-error sink packet shared ∙ e;
  dequeues = λ shared e. rw (dequeue_section_stops shared error e) e;
  fails = λ later shared e. unfold set_sender_error in ap (λ o. some (error_or o later)) e;
  closes = λ shared e. unfold close in e;
}

unless_error-taken :
    (r : Result RuntimeError (Unit {0})) (m next : Machine)
    → next.log.taken ≡ m.log.taken
    → (unless_error r m next).log.taken ≡ m.log.taken
unfolding answer
unless_error-taken (ok tt) m next e = e
unless_error-taken (err error) m next e = refl

try_packet-taken :
    (sink : WebRtcSink) (metrics : Bool) (packet : EncodedPacket) (m : Machine)
    → (try_packet sink metrics packet m).log.taken ≡ m.log.taken
unfolding try_packet answer
try_packet-taken sink metrics packet m =
    attempted (enqueue_section sink packet m.shared).attempt
      (enqueue_section sink packet m.shared).dropped
  where
    attempted :
        (attempt : Attempt) (dropped : Bool)
        → (after_attempt dropped packet attempt (record m {
          shared = (enqueue_section sink packet m.shared).shared;
          log = note_drop metrics dropped m.log;
        })).log.taken
          ≡ m.log.taken
    attempted waits_for_room true = refl
    attempted waits_for_room false = refl
    attempted (returns (ok tt)) true = refl
    attempted (returns (ok tt)) false = refl
    attempted (returns (err error)) true = refl
    attempted (returns (err error)) false = refl

producer_step-taken :
    (sink : WebRtcSink) (metrics : Bool) (producer : Producer) (m : Machine)
    → (producer_step sink metrics producer m).log.taken ≡ m.log.taken
unfolding producer_step answer
producer_step-taken sink metrics outside m = refl
producer_step-taken sink metrics (entered (encoded_packet packet)) m =
    unless_error-taken (shared_error m.shared) m _ refl
producer_step-taken sink metrics (entered (decoded_frame frame)) m =
    unless_error-taken (shared_error m.shared) m _ refl
producer_step-taken sink metrics (entered end_of_stream) m =
    unless_error-taken (shared_error m.shared) m _ refl
producer_step-taken sink metrics (checking packet) m =
    unless_error-taken (shared_error m.shared) m _ refl
producer_step-taken sink metrics (trying packet) m = try_packet-taken sink metrics packet m
producer_step-taken sink metrics (waiting packet) m = refl
producer_step-taken sink metrics closing m = refl
producer_step-taken sink metrics joining m = joined m.sender
  where
    joined : (s : Sender) → (join_sender s m).log.taken ≡ m.log.taken
    joined looking = refl
    joined (sending packet) = refl
    joined (failing error) = refl
    joined finished = unless_error-taken (shared_error m.shared) m _ refl

enter-taken :
    (metrics : Bool) (payload : MediaPayload) (producer : Producer) (m : Machine)
    → (enter metrics payload producer m).log.taken ≡ m.log.taken
enter-taken metrics payload outside m = refl
enter-taken metrics payload (entered other) m = refl
enter-taken metrics payload (checking packet) m = refl
enter-taken metrics payload (trying packet) m = refl
enter-taken metrics payload (waiting packet) m = refl
enter-taken metrics payload closing m = refl
enter-taken metrics payload joining m = refl

sender_step-taken :
    (r : Result RuntimeError (Unit {0})) (s : Sender) (m : Machine) (error : RuntimeError)
    → HasError error m.shared
    → (sender_step r s m).log.taken ≡ m.log.taken
unfolding sender_step
sender_step-taken r looking m error e = rw (dequeue_section_stops m.shared error e) refl
sender_step-taken (ok tt) (sending packet) m error e = refl
sender_step-taken (err why) (sending packet) m error e = refl
sender_step-taken r (failing why) m error e = refl
sender_step-taken r finished m error e = refl

step-taken :
    (sink : WebRtcSink) (metrics : Bool) (a : Action) (m : Machine) (error : RuntimeError)
    → HasError error m.shared
    → (step sink metrics a m).log.taken ≡ m.log.taken
unfolding step
step-taken sink metrics (consume payload) m error e = enter-taken metrics payload m.producer m
step-taken sink metrics producer_goes m error e = producer_step-taken sink metrics m.producer m
step-taken sink metrics (sender_goes r) m error e = sender_step-taken r m.sender m error e

run-taken :
    (sink : WebRtcSink) (metrics : Bool) (actions : List Action) (m : Machine)
    (error : RuntimeError)
    → HasError error m.shared
    → (run sink metrics actions m).log.taken ≡ m.log.taken
unfolding run
run-taken sink metrics [] m error e = refl
run-taken sink metrics (a ∷ actions) m error e =
    run-taken sink metrics actions (step sink metrics a m) error
      (run-Keeps sink (HasError error) (HasError-Keeps sink error) metrics (a ∷ []) m e)
    ∙ step-taken sink metrics a m error e

-- A call of `consume` on a sink whose error is set.
refused :
    (sink : WebRtcSink) (metrics : Bool) (payload : MediaPayload) (producer : Producer)
    (m : Machine) (error : RuntimeError)
    → producer ≡ outside
    → HasError error m.shared
    → let n = enter metrics payload producer m in
      (producer_step sink metrics n.producer n).log.answers ≡ m.log.answers ++ err error ∷ []
unfolding producer_step shared_error install_metrics answer
refused sink metrics payload outside m error here e = rw e refl
refused sink metrics payload (entered other) m error here e = cc
refused sink metrics payload (checking packet) m error here e = cc
refused sink metrics payload (trying packet) m error here e = cc
refused sink metrics payload (waiting packet) m error here e = cc
refused sink metrics payload closing m error here e = cc
refused sink metrics payload joining m error here e = cc

-- Once the error of a sink is set, then whatever happens the error stays as it is and the sender takes
-- no packet any more; and whenever the pipeline's side is outside `consume`, the next call answers that
-- error, whatever the payload.
pub run-error :
    (sink : WebRtcSink) (metrics : Bool) (actions : List Action) (m n : Machine)
    (error : RuntimeError) (payload : MediaPayload)
    → m.shared.error ≡ some error
    → run sink metrics actions m ≡ n
    → n.producer ≡ outside
    → (n.shared.error ≡ some error)
      × (n.log.taken ≡ m.log.taken)
      × ((run sink metrics (consume payload ∷ producer_goes ∷ []) n).log.answers
          ≡ n.log.answers ++ err error ∷ [])
unfolding run step
run-error sink metrics actions m n error payload e reached here =
    let kept : n.shared.error ≡ some error =
      subst (λ (q : Machine). q.shared.error ≡ some error) reached
        (run-Keeps sink (HasError error) (HasError-Keeps sink error) metrics actions m e) in
    (
      kept,
      subst (λ (q : Machine). q.log.taken ≡ m.log.taken) reached
          (run-taken sink metrics actions m error e),
      refused sink metrics payload n.producer n error here kept,
    )
