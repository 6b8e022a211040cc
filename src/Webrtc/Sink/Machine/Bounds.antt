-- ===== src/Webrtc/Sink/Machine/Bounds.antt =====
-- The queue of the sink is bounded.
use caml.Base.{
  suc, ◌≤◌, ◌≡◌, refl, ap, inl, inr, Bool, false, List, [], ◌∷◌, length, arith, length-append,
  is_empty,
}
use caml.Runtime.Media.{EncodedPacket, DropPolicy, block, drop_oldest, drop_newest}
use caml.Webrtc.Sink.{
  WebRtcSharedState, WebRtcSink, install_metrics, set_sender_error, close, enqueue_full,
  enqueue_section, dequeue_section, drop_oldest_prefer_delta,
}
use caml.Webrtc.Sink.Attempts.{enqueue_section-cases}
use caml.Webrtc.Sink.Oldest.{drop_oldest_prefer_delta-IsChosen}
use caml.Webrtc.Sink.Machine.{Action, start, run}
use caml.Webrtc.Sink.Machine.Sections.{Keeps, run-Keeps}

-- One packet less.
pub length-drop_oldest_prefer_delta :
    (queue : List EncodedPacket)
    → is_empty queue ≡ false
    → suc (length (drop_oldest_prefer_delta queue).1) ≡ length queue
length-drop_oldest_prefer_delta queue h =
    let (before, packet, after, e, done, chosen) = drop_oldest_prefer_delta-IsChosen queue h in
    rw done (
      omega (arith, ap length e, length-append before after, length-append before (packet ∷ after)))

abbrev pub Fits : WebRtcSink → WebRtcSharedState → Type 0
Fits sink shared = length shared.queue ≤ sink.queue_limit

pub some_packet : (queue : List EncodedPacket) → 1 ≤ length queue → is_empty queue ≡ false
some_packet [] h = elim h [ ]
some_packet (packet ∷ queue) h = refl

enqueue_full-Fits :
    (sink : WebRtcSink) (packet : EncodedPacket) (shared : WebRtcSharedState) (policy : DropPolicy)
    → Fits sink shared
    → 1 ≤ length shared.queue
    → Fits sink (enqueue_full policy packet shared).shared
enqueue_full-Fits sink packet shared block fits full = fits
enqueue_full-Fits sink packet shared drop_newest fits full = fits
enqueue_full-Fits sink packet shared drop_oldest fits full = omega (
  arith,
  length-append (drop_oldest_prefer_delta shared.queue).1 (packet ∷ []),
  length-drop_oldest_prefer_delta shared.queue (some_packet shared.queue full),
)

enqueue_section-Fits :
    (sink : WebRtcSink) (packet : EncodedPacket) (shared : WebRtcSharedState)
    → 1 ≤ sink.queue_limit
    → Fits sink shared
    → Fits sink (enqueue_section sink packet shared).shared
enqueue_section-Fits sink packet shared some_room fits =
    elim (enqueue_section-cases sink packet shared) [
      | inl (shut, e) ↦ rw e fits
      | inr (inl (open_still, room, e)) ↦
          rw e (omega (arith, length-append shared.queue (packet ∷ [])))
      | inr (inr (open_still, full, e)) ↦
          rw e (enqueue_full-Fits sink packet shared sink.drop_policy fits (omega arith))
    ]

dequeue_section-Fits :
    (sink : WebRtcSink) (shared : WebRtcSharedState)
    → Fits sink shared
    → Fits sink (dequeue_section shared).1
unfolding dequeue_section
dequeue_section-Fits sink shared fits = ground arith

-- Whatever is consumed, and however the two sides go on, the queue of a sink whose limit is at least 1
-- never holds more packets than the limit.
pub run-Fits :
    (sink : WebRtcSink) (metrics : Bool) (actions : List Action)
    → 1 ≤ sink.queue_limit
    → Fits sink (run sink metrics actions start).shared
run-Fits sink metrics actions some_room =
    run-Keeps sink (Fits sink) keeps metrics actions start (omega arith)
  where
    keeps : Keeps sink (Fits sink)
    keeps = record {
      installs = λ metrics shared fits. unfold install_metrics in fits;
      enqueues = λ packet shared fits. enqueue_section-Fits sink packet shared some_room fits;
      dequeues = λ shared fits. dequeue_section-Fits sink shared fits;
      fails = λ error shared fits. unfold set_sender_error in fits;
      closes = λ shared fits. unfold close in fits;
    }
