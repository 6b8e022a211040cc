-- ===== src/Runtime/Loop/Supervised.antt =====
-- The loop of a pipeline under its supervisor.
use caml.Base.{ℕ, ◌≡◌, refl, ap, subst, ◌∙◌, Bool, List, ◌∷◌, ◌++◌, some, inl, inr}
use caml.Compiler.Types.{CompiledPipeline}
use caml.Runtime.Loop.Explained.{run_pipeline_loop-Explains}
use caml.Runtime.Loop.Explanation.{ExitsWith, Delivers, Errs, Ends, Explains}
use caml.Runtime.Loop.{Tick, cancels, times_out, answers, PipelineStages, run_pipeline_loop}
use caml.Runtime.Media.{RuntimeError}
use caml.Runtime.Supervisor.Causes.{turn-recoverable}
use caml.Runtime.Supervisor.{PipelineLoopExit, Round, Scale, turn}
use caml.Text.{Text}

ExitsWith-recoverable :
    (error : RuntimeError) (message : Text)
    → ExitsWith error (PipelineLoopExit.recoverable message)
    → (why : Text) × (error ≡ RuntimeError.recoverable why)
ExitsWith-recoverable (RuntimeError.recoverable why) message e = (why, refl)
ExitsWith-recoverable (RuntimeError.adapter why) message e = cc
ExitsWith-recoverable (RuntimeError.source why) message e = cc
ExitsWith-recoverable (RuntimeError.transform why) message e = cc
ExitsWith-recoverable (RuntimeError.sink why) message e = cc
ExitsWith-recoverable (RuntimeError.pipeline why) message e = cc
ExitsWith-recoverable (RuntimeError.join why) message e = cc

module _ {S : Type 0} (stages : PipelineStages S) where
  -- What may lead to a restart: the timeout, or an error `Recoverable` of the source or on the way of
  -- its payload.
  abbrev pub MayRestart : Tick → S → Type 0
  MayRestart cancels s = ⊥
  MayRestart times_out s = Unit {0}
  MayRestart answers s = (why : Text) × (t : S) × Errs stages s (RuntimeError.recoverable why) t

  Ends-MayRestart :
      (shown_timeout : Text) (tick : Tick) (s t : S) (message : Text)
      → Ends stages shown_timeout tick s (PipelineLoopExit.recoverable message) t
      → MayRestart tick s
  Ends-MayRestart shown_timeout cancels s t message (e, _) = cc
  Ends-MayRestart shown_timeout times_out s t message e = tt
  Ends-MayRestart shown_timeout answers s t message (inl (_, e)) = cc
  Ends-MayRestart shown_timeout answers s t message (inr (error, errs, e)) =
      let (why, is) = ExitsWith-recoverable error message e in
      (why, t, subst (λ x. Errs stages s x t) is errs)

-- A turn of the supervisor whose pipeline ended as its loop did is followed by another turn only if the
-- ticks of the loop were payloads delivered without an error, and then the timeout, or a `Recoverable`
-- error of the source or of a stage: never after a cancellation, the end of the stream, or another
-- error.
pub turn-MayRestart :
    {S : Type 0} (stages : PipelineStages S) (shown_timeout : Text) (has_metrics : Bool)
    (ticks : List Tick) (s : S) (scale : Scale) (p : CompiledPipeline) (attempts : ℕ) (r : Round)
    {n : ℕ}
    → (run_pipeline_loop stages has_metrics shown_timeout ticks s).exit ≡ some r.exit
    → (turn scale has_metrics p attempts r).next ≡ some n
    → (before : List Tick) × (tick : Tick) × (after : List Tick) × (m : S) × (ticks
        ≡ before ++ tick ∷ after)
      × Delivers stages before s m
      × MayRestart stages tick m
turn-MayRestart stages shown_timeout has_metrics ticks s scale p attempts r left again =
    let (message, e) = turn-recoverable scale has_metrics p attempts r again in
    let run = run_pipeline_loop stages has_metrics shown_timeout ticks s in
    let (before, tick, after, m, split, delivers, ends) =
      subst (λ exit. Explains stages shown_timeout ticks s exit run.state) (left ∙ ap some e)
        (run_pipeline_loop-Explains stages shown_timeout has_metrics ticks s) in
    (
      before,
      tick,
      after,
      m,
      split,
      delivers,
      Ends-MayRestart stages shown_timeout tick m run.state message ends,
    )
