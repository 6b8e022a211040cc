-- ===== src/Runtime/Loop/Explained.antt =====
-- The loop of a pipeline is explained by the answers of its stages.
use caml.Base.{
  ◌≡◌, refl, ap, inl, inr, Bool, List, [], ◌∷◌, ◌++◌, Option, none, some, Result, ok, err,
}
use caml.Runtime.Loop.{
  Tick, cancels, times_out, answers, PipelineStages, LoopRun, pipeline_exit_from_error, and_then,
  transform_all, deliver, after_delivery, after_next, run_pipeline_loop,
}
use caml.Runtime.Loop.Explanation.{
  IsMedia, ExitsWith, Transform, Passes, Reaches, FailsIn, Errs, Explains,
}
use caml.Runtime.Media.{
  RuntimeError, is_recoverable, MediaPayload, encoded_packet, decoded_frame, end_of_stream,
}
use caml.Runtime.Supervisor.{PipelineLoopExit}
use caml.Text.{Text}

pipeline_exit_from_error-ExitsWith :
    (error : RuntimeError) → ExitsWith error (pipeline_exit_from_error error)
unfolding pipeline_exit_from_error is_recoverable
pipeline_exit_from_error-ExitsWith (RuntimeError.recoverable message) = refl
pipeline_exit_from_error-ExitsWith (RuntimeError.adapter message) = refl
pipeline_exit_from_error-ExitsWith (RuntimeError.source message) = refl
pipeline_exit_from_error-ExitsWith (RuntimeError.transform message) = refl
pipeline_exit_from_error-ExitsWith (RuntimeError.sink message) = refl
pipeline_exit_from_error-ExitsWith (RuntimeError.pipeline message) = refl
pipeline_exit_from_error-ExitsWith (RuntimeError.join message) = refl

module _ {S : Type 0} where
  -- What the answer of the transforms says of the way through them.
  abbrev Transformed :
      List (Transform S) → MediaPayload → S → Result RuntimeError MediaPayload × S → Type 0
  Transformed transforms payload s (ok out, t) = Passes transforms payload s out t
  Transformed transforms payload s (err error, t) =
      (before : List (Transform S)) × (transform : Transform S) × (after : List (Transform S))
      × (made : MediaPayload) × (m : S) × (transforms ≡ before ++ transform ∷ after)
      × Passes before payload s made m
      × (transform made m ≡ (err error, t))

  Transformed-later :
      (transform : Transform S) (transforms : List (Transform S)) (payload made : MediaPayload)
      (s m : S) (a : Result RuntimeError MediaPayload × S)
      → transform payload s ≡ (ok made, m)
      → Transformed transforms made m a
      → Transformed (transform ∷ transforms) payload s a
  Transformed-later transform transforms payload made s m (ok out, t) e w = (made, m, e, w)
  Transformed-later transform transforms payload made s m (err error, t) e w =
      let (before, f, after, p, n, split, passes, fails) = w in
      (transform ∷ before, f, after, p, n, ap (◌∷◌ transform) split, (made, m, e, passes), fails)

  -- One transform, on its answer, given that the rest is as it says.
  transformed :
      (transform : Transform S) (transforms : List (Transform S)) (payload : MediaPayload) (s : S)
      (a : Result RuntimeError MediaPayload × S)
      → transform payload s ≡ a
      → ((made : MediaPayload) (m : S)
          → Transformed transforms made m (transform_all transforms made m))
      → Transformed (transform ∷ transforms) payload s (and_then a (transform_all transforms))
  transformed transform transforms payload s (ok made, m) e ih =
      Transformed-later transform transforms payload made s m (transform_all transforms made m) e
        (ih made m)
  transformed transform transforms payload s (err error, m) e ih =
      ([], transform, transforms, payload, s, refl, (refl, refl), e)

  transform_all-Transformed :
      (transforms : List (Transform S)) (payload : MediaPayload) (s : S)
      → Transformed transforms payload s (transform_all transforms payload s)
  unfolding transform_all
  transform_all-Transformed [] payload s = (refl, refl)
  transform_all-Transformed (transform ∷ transforms) payload s =
      transformed transform transforms payload s (transform payload s) refl
        (transform_all-Transformed transforms)

module _ {S : Type 0} (stages : PipelineStages S) where
  -- What the answer of the delivery says of the way of its payload.
  abbrev Delivered : MediaPayload → S → Result RuntimeError (Unit {0}) × S → Type 0
  Delivered payload s (ok tt, t) = Reaches stages payload s t
  Delivered payload s (err error, t) = FailsIn stages payload s error t

  consumed :
      (payload out : MediaPayload) (s m : S) (d : Result RuntimeError (Unit {0}) × S)
      → Passes stages.transforms payload s out m
      → stages.consume out m ≡ d
      → Delivered payload s d
  consumed payload out s m (ok tt, t) passes e = (out, m, passes, e)
  consumed payload out s m (err error, t) passes e = inr (out, m, passes, e)

  sunk :
      (payload : MediaPayload) (s : S) (a : Result RuntimeError MediaPayload × S)
      → Transformed stages.transforms payload s a
      → Delivered payload s (and_then a stages.consume)
  sunk payload s (ok out, m) w = consumed payload out s m (stages.consume out m) w refl
  sunk payload s (err error, m) w = inl w

  deliver-Delivered :
      (payload : MediaPayload) (s : S) → Delivered payload s (deliver stages payload s)
  unfolding deliver
  deliver-Delivered payload s =
      sunk payload s (transform_all stages.transforms payload s)
        (transform_all-Transformed stages.transforms payload s)

  module _ (shown_timeout : Text) where
    -- A tick whose payload was delivered, in front of what is explained.
    Explains-later :
        (ticks : List Tick) (s t u m : S) (exit : Option PipelineLoopExit) (payload : MediaPayload)
        → stages.next s ≡ (ok payload, m)
        → IsMedia payload
        → Reaches stages payload m t
        → Explains stages shown_timeout ticks t exit u
        → Explains stages shown_timeout (answers ∷ ticks) s exit u
    Explains-later ticks s t u m none payload e media way rest =
        (payload, m, t, e, media, way, rest)
    Explains-later ticks s t u m (some exit) payload e media way rest =
        let (before, tick, after, n, split, delivers, ends) = rest in
        (
          answers ∷ before,
          tick,
          after,
          n,
          ap (◌∷◌ answers) split,
          (payload, m, t, e, media, way, delivers),
          ends,
        )

    -- A stage that fails ends the loop.
    Explains-error :
        (ticks : List Tick) (s t : S) (error : RuntimeError)
        → Errs stages s error t
        → Explains stages shown_timeout
            (answers ∷ ticks)
            s
            (some (pipeline_exit_from_error error))
            t
    Explains-error ticks s t error errs = (
      [],
      answers,
      ticks,
      s,
      refl,
      refl,
      inr (error, errs, pipeline_exit_from_error-ExitsWith error),
    )

    -- One turn in which the source answers, given that the rest is explained.
    module _ (has_metrics : Bool) (ticks : List Tick) (s : S) (rest : S → LoopRun S)
        (ih : (t : S) → Explains stages shown_timeout ticks t (rest t).exit (rest t).state) where
      delivered :
          (payload : MediaPayload) (m : S) (d : Result RuntimeError (Unit {0}) × S)
          → IsMedia payload
          → stages.next s ≡ (ok payload, m)
          → Delivered payload m d
          → let run = after_delivery has_metrics d rest in
            Explains stages shown_timeout (answers ∷ ticks) s run.exit run.state
      delivered payload m (ok tt, t) media e way =
          Explains-later ticks s t (rest t).state m (rest t).exit payload e media way (ih t)
      delivered payload m (err error, t) media e way =
          Explains-error ticks s t error (inr (payload, m, e, media, way))

      answered :
          (a : Result RuntimeError MediaPayload × S)
          → stages.next s ≡ a
          → let run = after_next stages has_metrics a rest in
            Explains stages shown_timeout (answers ∷ ticks) s run.exit run.state
      answered (err error, t) e = Explains-error ticks s t error (inl e)
      answered (ok end_of_stream, t) e = ([], answers, ticks, s, refl, refl, inl (e, refl))
      answered (ok (encoded_packet packet), t) e =
          delivered (encoded_packet packet) t (deliver stages (encoded_packet packet) t) tt e
            (deliver-Delivered (encoded_packet packet) t)
      answered (ok (decoded_frame frame), t) e =
          delivered (decoded_frame frame) t (deliver stages (decoded_frame frame) t) tt e
            (deliver-Delivered (decoded_frame frame) t)

    -- However the ticks come: if the loop has not returned, each of them gave a payload that each
    -- transform in turn took, and then the sink, without an error, from the first state to the last;
    -- and if it has, then such ticks stand before one that explains the exit and the last state: the
    -- cancellation; the timeout, which is recoverable; the end of the stream, which no transform and no
    -- sink sees; or an error of the source, of the first transform that fails, or of the sink, with the
    -- error's text, and recoverable only for `Recoverable`.
    pub run_pipeline_loop-Explains :
        (has_metrics : Bool) (ticks : List Tick) (s : S)
        → let run = run_pipeline_loop stages has_metrics shown_timeout ticks s in
          Explains stages shown_timeout ticks s run.exit run.state
    unfolding run_pipeline_loop
    run_pipeline_loop-Explains has_metrics [] s = refl
    run_pipeline_loop-Explains has_metrics (cancels ∷ ticks) s =
        ([], cancels, ticks, s, refl, refl, (refl, refl))
    run_pipeline_loop-Explains has_metrics (times_out ∷ ticks) s =
        ([], times_out, ticks, s, refl, refl, (refl, refl))
    run_pipeline_loop-Explains has_metrics (answers ∷ ticks) s =
        answered has_metrics ticks s (run_pipeline_loop stages has_metrics shown_timeout ticks)
          (run_pipeline_loop-Explains has_metrics ticks) (stages.next s) refl
