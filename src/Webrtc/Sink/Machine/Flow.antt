-- ===== src/Webrtc/Sink/Machine/Flow.antt =====
-- Where the packets are that the sender took.
use caml.Base.{
  ◌≡◌, refl, sym, ap, ◌∙◌, subst, ◌⊎◌, inl, inr, Bool, true, false, List, [], ◌∷◌, ◌++◌, Option,
  none, some, Result, ok, err, if◌then◌else◌,
}
use caml.Runtime.Media.{
  EncodedPacket, DropPolicy, block, drop_oldest, drop_newest, MediaPayload, encoded_packet,
  decoded_frame, end_of_stream, RuntimeError,
}
use caml.Webrtc.Sink.{
  WebRtcSharedState, WebRtcSink, close, install_metrics, set_sender_error, shared_error,
  enqueue_section, enqueue_full, Attempt, returns, waits_for_room, nothing_more, waits_for_packet,
  dequeue_from, dequeue_unless, dequeue_section,
}
use caml.Webrtc.Sink.Attempts.{enqueue_section-cases}
use caml.Webrtc.Sink.Machine.{
  Machine, Log, start, Producer, outside, entered, checking, trying, waiting, closing, joining,
  Sender, looking, sending, failing, finished, answer, unless_error, note_drop, after_attempt,
  try_packet, join_sender, producer_step, enter, after_dequeue, sender_step, Action, consume,
  producer_goes, sender_goes, step, run, run-keeps,
}

-- Where the packets are that the sender took, by where it stands.
abbrev pub Flow : Sender → WebRtcSharedState → Log → Type 0
Flow looking shared log = (shared.error ≡ none) × (log.sent ≡ log.taken)
Flow (sending packet) shared log = (shared.error ≡ none) × (log.taken ≡ log.sent ++ packet ∷ [])
Flow (failing error) shared log = shared.error ≡ none
Flow finished shared log =
    ((error : RuntimeError) × (shared.error ≡ some error))
    ⊎ ((shared.closed ≡ true) × (shared.queue ≡ []) × (log.sent ≡ log.taken))

enqueue_full-error :
    (policy : DropPolicy) (packet : EncodedPacket) (shared : WebRtcSharedState)
    → (enqueue_full policy packet shared).shared.error ≡ shared.error
enqueue_full-error block packet shared = refl
enqueue_full-error drop_oldest packet shared = refl
enqueue_full-error drop_newest packet shared = refl

pub enqueue_section-error :
    (sink : WebRtcSink) (packet : EncodedPacket) (shared : WebRtcSharedState)
    → (enqueue_section sink packet shared).shared.error ≡ shared.error
enqueue_section-error sink packet shared = elim (enqueue_section-cases sink packet shared) [
  | inl (shut, e) ↦ rw e refl
  | inr (inl (open_still, room, e)) ↦ rw e refl
  | inr (inr (open_still, full, e)) ↦ rw e (enqueue_full-error sink.drop_policy packet shared)
]

enqueue_section_shut :
    (sink : WebRtcSink) (packet : EncodedPacket) (shared : WebRtcSharedState)
    → shared.closed ≡ true
    → (enqueue_section sink packet shared).shared ≡ shared
enqueue_section_shut sink packet shared shut = elim (enqueue_section-cases sink packet shared) [
  | inl (_, e) ↦ rw e refl
  | inr (inl (open_still, room, e)) ↦ cc
  | inr (inr (open_still, full, e)) ↦ cc
]

enqueue_section-Flow :
    (sink : WebRtcSink) (packet : EncodedPacket) (s : Sender) (shared : WebRtcSharedState)
    (log : Log)
    → Flow s shared log
    → Flow s (enqueue_section sink packet shared).shared log
enqueue_section-Flow sink packet looking shared log (none_yet, f) =
    (enqueue_section-error sink packet shared ∙ none_yet, f)
enqueue_section-Flow sink packet (sending p) shared log (none_yet, f) =
    (enqueue_section-error sink packet shared ∙ none_yet, f)
enqueue_section-Flow sink packet (failing error) shared log none_yet =
    enqueue_section-error sink packet shared ∙ none_yet
enqueue_section-Flow sink packet finished shared log (inl (error, e)) =
    inl (error, enqueue_section-error sink packet shared ∙ e)
enqueue_section-Flow sink packet finished shared log (inr f) = inr (
    subst (λ (q : WebRtcSharedState). (q.closed ≡ true) × (q.queue ≡ []) × (log.sent ≡ log.taken))
      (sym (enqueue_section_shut sink packet shared f.0)) f)

-- `Flow` looks at the places of the packets only.
abbrev pub Flows : Machine → Type 0
Flows m = Flow m.sender m.shared m.log

Flow-same :
    (s : Sender) (shared next : WebRtcSharedState) (log later : Log)
    → next.error ≡ shared.error
    → next.queue ≡ shared.queue
    → (shared.closed ≡ true → next.closed ≡ true)
    → later.sent ≡ log.sent
    → later.taken ≡ log.taken
    → Flow s shared log
    → Flow s next later
Flow-same looking shared next log later e q c s t f = (e ∙ f.0, s ∙ f.1 ∙ sym t)
Flow-same (sending packet) shared next log later e q c s t f =
    (e ∙ f.0, t ∙ f.1 ∙ ap (λ l. l ++ packet ∷ []) (sym s))
Flow-same (failing error) shared next log later e q c s t f = e ∙ f
Flow-same finished shared next log later e q c s t (inl (error, f)) = inl (error, e ∙ f)
Flow-same finished shared next log later e q c s t (inr (shut, empty, f)) =
    inr (c shut, q ∙ empty, s ∙ f ∙ sym t)

answer-Flows : (r : Result RuntimeError (Unit {0})) (m : Machine) → Flows m → Flows (answer r m)
unfolding answer
answer-Flows r m = Flow-same m.sender m.shared m.shared m.log _ refl refl (λ c. c) refl refl

unless_error-Flows :
    (r : Result RuntimeError (Unit {0})) (m next : Machine)
    → Flows m
    → Flows next
    → Flows (unless_error r m next)
unless_error-Flows (ok tt) m next f fn = fn
unless_error-Flows (err error) m next f fn = answer-Flows (err error) m f

after_attempt-Flows :
    (dropped : Bool) (packet : EncodedPacket) (attempt : Attempt) (m : Machine)
    → Flows m
    → Flows (after_attempt dropped packet attempt m)
unfolding answer
after_attempt-Flows dropped packet waits_for_room m f = f
after_attempt-Flows dropped packet (returns (err error)) m f = answer-Flows (err error) m f
after_attempt-Flows dropped packet (returns (ok tt)) m f =
    Flow-same m.sender m.shared m.shared m.log _ refl refl (λ c. c) refl refl f

note_drop-Flow :
    (metrics dropped : Bool) (s : Sender) (shared : WebRtcSharedState) (log : Log)
    → Flow s shared log
    → Flow s shared (note_drop metrics dropped log)
note_drop-Flow metrics false s shared log f = f
note_drop-Flow metrics true s shared log f =
    Flow-same s shared shared log _ refl refl (λ c. c) refl refl f

join_sender-Flows : (s : Sender) (m : Machine) → Flows m → Flows (join_sender s m)
join_sender-Flows looking m f = f
join_sender-Flows (sending packet) m f = f
join_sender-Flows (failing error) m f = f
join_sender-Flows finished m f =
    unless_error-Flows (shared_error m.shared) m _ f (answer-Flows (ok tt) m f)

producer_step-Flows :
    (sink : WebRtcSink) (metrics : Bool) (producer : Producer) (m : Machine)
    → Flows m
    → Flows (producer_step sink metrics producer m)
unfolding producer_step try_packet close
producer_step-Flows sink metrics outside m f = f
producer_step-Flows sink metrics (entered (encoded_packet packet)) m f =
    unless_error-Flows (shared_error m.shared) m _ f f
producer_step-Flows sink metrics (entered (decoded_frame frame)) m f =
    unless_error-Flows (shared_error m.shared) m _ f (answer-Flows _ m f)
producer_step-Flows sink metrics (entered end_of_stream) m f =
    unless_error-Flows (shared_error m.shared) m _ f f
producer_step-Flows sink metrics (checking packet) m f =
    unless_error-Flows (shared_error m.shared) m _ f f
producer_step-Flows sink metrics (trying packet) m f =
    let q = enqueue_section sink packet m.shared in
    after_attempt-Flows q.dropped packet q.attempt _ (
      note_drop-Flow metrics q.dropped m.sender q.shared m.log
        (enqueue_section-Flow sink packet m.sender m.shared m.log f))
producer_step-Flows sink metrics (waiting packet) m f = f
producer_step-Flows sink metrics closing m f =
    Flow-same m.sender m.shared _ m.log m.log refl refl (λ c. refl) refl refl f
producer_step-Flows sink metrics joining m f = join_sender-Flows m.sender m f

enter-Flows :
    (metrics : Bool) (payload : MediaPayload) (producer : Producer) (m : Machine)
    → Flows m
    → Flows (enter metrics payload producer m)
unfolding install_metrics
enter-Flows metrics payload outside m f =
    Flow-same m.sender m.shared _ m.log m.log refl refl (λ c. c) refl refl f
enter-Flows metrics payload (entered other) m f = f
enter-Flows metrics payload (checking packet) m f = f
enter-Flows metrics payload (trying packet) m f = f
enter-Flows metrics payload (waiting packet) m f = f
enter-Flows metrics payload closing m f = f
enter-Flows metrics payload joining m f = f

-- The sender's side, from where it has sent what it took.
dequeued-Flows :
    (m : Machine) (queue : List EncodedPacket)
    → m.shared.queue ≡ queue
    → m.sender ≡ looking
    → m.shared.error ≡ none
    → m.log.sent ≡ m.log.taken
    → Flows (
        after_dequeue
          (dequeue_from queue m.shared).0
          (record m { shared = (dequeue_from queue m.shared).1 }))
dequeued-Flows m [] empty here none_yet f = shut_or_not m.shared.closed refl
  where
    shut_or_not :
        (b : Bool)
        → m.shared.closed ≡ b
        → Flows (after_dequeue (if m.shared.closed then nothing_more else waits_for_packet) m)
    shut_or_not true shut =
        subst (λ (b : Bool). Flows (after_dequeue (if b then nothing_more else waits_for_packet) m))
          (sym shut) (inr (shut, empty, f))
    shut_or_not false open_still =
        subst (λ (b : Bool). Flows (after_dequeue (if b then nothing_more else waits_for_packet) m))
          (sym open_still) (subst (λ s. Flow s m.shared m.log) (sym here) (none_yet, f))
dequeued-Flows m (packet ∷ queue) some_there here none_yet f =
    (none_yet, ap (λ l. l ++ packet ∷ []) (sym f))

looking-Flows :
    (m : Machine) (error : Option RuntimeError)
    → m.shared.error ≡ error
    → m.sender ≡ looking
    → Flow looking m.shared m.log
    → Flows (
        after_dequeue
          (dequeue_unless error m.shared).0
          (record m { shared = (dequeue_unless error m.shared).1 }))
looking-Flows m (some error) e here f = inl (error, e)
looking-Flows m none e here (none_yet, f) = dequeued-Flows m m.shared.queue refl here none_yet f

sender_step-Flows :
    (r : Result RuntimeError (Unit {0})) (s : Sender) (m : Machine)
    → m.sender ≡ s
    → Flow s m.shared m.log
    → Flows (sender_step r s m)
unfolding sender_step dequeue_section set_sender_error
sender_step-Flows r looking m here f = looking-Flows m m.shared.error refl here f
sender_step-Flows (ok tt) (sending packet) m here (none_yet, f) = (none_yet, sym f)
sender_step-Flows (err error) (sending packet) m here (none_yet, f) = none_yet
sender_step-Flows r (failing error) m here none_yet = inl (_, refl)
sender_step-Flows r finished m here f = subst (λ s. Flow s m.shared m.log) (sym here) f

pub run-Flows :
    (sink : WebRtcSink) (metrics : Bool) (actions : List Action)
    → Flows (run sink metrics actions start)
run-Flows sink metrics actions = run-keeps Flows sink metrics keeps actions start (refl, refl)
  where
    keeps : (a : Action) (m : Machine) → Flows m → Flows (step sink metrics a m)
    keeps (consume payload) m f = unfold step in enter-Flows metrics payload m.producer m f
    keeps producer_goes m f = unfold step in producer_step-Flows sink metrics m.producer m f
    keeps (sender_goes r) m f = unfold step in sender_step-Flows r m.sender m refl f
