-- ===== src/Webrtc/Sink/Machine/Flush.antt =====
-- When `close_and_flush` succeeds, everything is sent.
use mathlib.Core.List.{append-nil}
use caml.Base.{
  ◌+◌, ◌≤◌, ◌≡◌, refl, sym, ap, ◌≢◌, subst, inl, inr, Bool, List, [], ◌∷◌, ◌++◌, Option, none, some,
  length, arith, length-append, Result, ok, err, get_elem?, get_elem?-append_end,
}
use caml.Runtime.Media.{RuntimeError}
use caml.Webrtc.Sink.{WebRtcSharedState, WebRtcSink, error_or_ok, shared_error}
use caml.Webrtc.Sink.Machine.Balance.{InOrder}
use caml.Webrtc.Sink.Machine.Order.{Balanced, run-Balanced}
use caml.Webrtc.Sink.Machine.{
  Machine, Log, start, joining, Sender, looking, sending, failing, finished, answer, unless_error,
  join_sender, producer_step, Action, producer_goes, step, run,
}
use caml.Webrtc.Sink.Machine.Flow.{Flow, Flows, run-Flows}

last_answer :
    (answers : List (Result RuntimeError (Unit {0}))) (r s : Result RuntimeError (Unit {0}))
    → answers ++ r ∷ [] ≡ answers ++ s ∷ []
    → r ≡ s
last_answer answers r s e = cc (
  get_elem?-append_end answers r,
  get_elem?-append_end answers s,
  ap (λ l. get_elem? l (length answers)) e,
)

length-snoc :
    (answers : List (Result RuntimeError (Unit {0}))) (r : Result RuntimeError (Unit {0}))
    → answers ≢ answers ++ r ∷ []
length-snoc answers r e = omega (arith, ap length e, length-append answers (r ∷ []))

-- Where the wait of `close_and_flush` ends with `Ok`, the sender is at its end, without an error.
joined_ok :
    (s : Sender) (m : Machine)
    → (join_sender s m).log.answers ≡ m.log.answers ++ ok tt ∷ []
    → (s ≡ finished) × (m.shared.error ≡ none)
unfolding answer shared_error
joined_ok looking m e = absurd (length-snoc _ _ e)
joined_ok (sending packet) m e = absurd (length-snoc _ _ e)
joined_ok (failing error) m e = absurd (length-snoc _ _ e)
joined_ok finished m e = (refl, no_error m.shared.error e)
  where
    no_error :
        (o : Option RuntimeError)
        → (unless_error (error_or_ok o) m (answer (ok tt) m)).log.answers
          ≡ m.log.answers ++ ok tt ∷ []
        → o ≡ none
    no_error none e = refl
    no_error (some error) e =
        let f : err error ≡ ok tt = last_answer m.log.answers (err error) (ok tt) e in cc

flushed_lem :
    (s : Sender) (shared : WebRtcSharedState) (log : Log)
    → s ≡ finished
    → shared.error ≡ none
    → Flow s shared log
    → (shared.queue ≡ []) × (log.sent ≡ log.taken)
flushed_lem looking shared log e none_yet f = cc
flushed_lem (sending packet) shared log e none_yet f = cc
flushed_lem (failing error) shared log e none_yet f = cc
flushed_lem finished shared log e none_yet (inl (error, f)) = cc
flushed_lem finished shared log e none_yet (inr (shut, empty, f)) = (empty, f)

-- Whenever, in any run of a sink with a limit of at least 1, the wait of `close_and_flush` ends and
-- `consume` answers `Ok`, the queue is empty, the sender has sent all that it took, these are the
-- accepted packets, in order, as far as the policy promises it (all of them under `Block`), and the
-- accepted packets are as many as those sent and the drops.
pub close_and_flush-sent :
    (sink : WebRtcSink) (metrics : Bool) (actions : List Action) (m : Machine)
    → 1 ≤ sink.queue_limit
    → run sink metrics actions start ≡ m
    → m.producer ≡ joining
    → (step sink metrics producer_goes m).log.answers ≡ m.log.answers ++ ok tt ∷ []
    → (m.shared.queue ≡ [])
      × (m.log.sent ≡ m.log.taken)
      × InOrder sink.drop_policy m.log.sent m.log.accepted
      × (length m.log.accepted ≡ length m.log.sent + m.log.drops)
unfolding step producer_step
close_and_flush-sent sink metrics actions m some_room reached here e =
    let balanced =
      subst (Balanced sink.drop_policy) reached (run-Balanced sink metrics actions some_room) in
    let flows = subst Flows reached (run-Flows sink metrics actions) in
    let (done, none_yet) = joined_ok m.sender m (
      subst (λ p. (producer_step sink metrics p m).log.answers ≡ m.log.answers ++ ok tt ∷ []) here
        e) in
    let (empty, all) = flushed_lem m.sender m.shared m.log done none_yet flows in
    let through : m.log.taken ++ m.shared.queue ≡ m.log.sent = rw (empty, append-nil) (sym all) in
    (
      empty,
      all,
      subst (λ l. InOrder sink.drop_policy l m.log.accepted) through balanced.in_order,
      omega (arith, balanced.counted, ap length through, length-append m.log.taken m.shared.queue),
    )
