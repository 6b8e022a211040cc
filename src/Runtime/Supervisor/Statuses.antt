-- ===== src/Runtime/Supervisor/Statuses.antt =====
-- The statuses that a supervised pipeline goes through.
use caml.Base.{
  ℕ, ◌≡◌, refl, inl, inr, Bool, true, false, not, Bool-cases, List, [], ◌∷◌, ◌++◌, Option, none,
  some, ltb, Result, ok, err,
}
use caml.Compiler.Types.{CompiledPipeline}
use caml.Runtime.Supervisor.{
  Scale, TaskStatus, spawning, running, stalled, recovering, stopped, failed, PipelineLoopExit,
  cancelled, end_of_stream, recoverable, fatal, Effect, publishes, starts_backend, records_restart,
  sleeps, Round, Turn, attempts_before, falls_asleep, metric, restart, exited, built_turn, turn,
  Supervision, then_go_on, supervise_from, supervise_pipeline_task,
}
use caml.Text.{Text}
use caml.Units.{Duration}

-- The statuses that a turn of the loop starts in, and which status may follow which.
pub data Starts : TaskStatus → Type 0 where
  first : Starts spawning
  again : Starts recovering

pub data Follows : TaskStatus → TaskStatus → Type 0 where
  runs : {s : TaskStatus} → Starts s → Follows s running
  stops_before : {s : TaskStatus} → Starts s → Follows s stopped
  fails_before : {s : TaskStatus} → Starts s → Follows s failed
  stops : Follows running stopped
  stalls : Follows running stalled
  fails : Follows running failed
  recovers : Follows stalled recovering

-- Each published status may follow the one before it, from `s` on.
abbrev pub Chain : TaskStatus → List Effect → Type 0
Chain s [] = Unit {0}
Chain s (publishes t message ∷ effects) = Follows s t × Chain t effects
Chain s (starts_backend codec_path backend_name ∷ effects) = Chain s effects
Chain s (records_restart message ∷ effects) = Chain s effects
Chain s (sleeps time ∷ effects) = Chain s effects

-- The last status, from `s` on, and whether the task is over with it.
abbrev pub last_status : TaskStatus → List Effect → TaskStatus
last_status s [] = s
last_status s (publishes t message ∷ effects) = last_status t effects
last_status s (starts_backend codec_path backend_name ∷ effects) = last_status s effects
last_status s (records_restart message ∷ effects) = last_status s effects
last_status s (sleeps time ∷ effects) = last_status s effects

abbrev pub is_final : TaskStatus → Bool
is_final stopped = true
is_final failed = true
is_final _ = false

Chain-append :
    (s : TaskStatus) (before after : List Effect)
    → Chain s before
    → Chain (last_status s before) after
    → Chain s (before ++ after)
Chain-append s [] after c d = d
Chain-append s (publishes t message ∷ before) after c d = (c.0, Chain-append t before after c.1 d)
Chain-append s (starts_backend codec_path backend_name ∷ before) after c d =
    Chain-append s before after c d
Chain-append s (records_restart message ∷ before) after c d = Chain-append s before after c d
Chain-append s (sleeps time ∷ before) after c d = Chain-append s before after c d

last_status-append :
    (s : TaskStatus) (before after : List Effect)
    → last_status s (before ++ after) ≡ last_status (last_status s before) after
last_status-append s [] after = refl
last_status-append s (publishes t message ∷ before) after = last_status-append t before after
last_status-append s (starts_backend codec_path backend_name ∷ before) after =
    last_status-append s before after
last_status-append s (records_restart message ∷ before) after = last_status-append s before after
last_status-append s (sleeps time ∷ before) after = last_status-append s before after

-- A turn from `s` on keeps the order, and ends in a final status if it did not panic, or recovering.
abbrev Closes : TaskStatus → Bool → Option ℕ → Type 0
Closes s panicked none = is_final s ≡ not panicked
Closes s panicked (some attempts) = s ≡ recovering

abbrev Fits : TaskStatus → Turn → Type 0
Fits s t = Chain s t.effects × Closes (last_status s t.effects) t.panicked t.next

module _ (scale : Scale) (p : CompiledPipeline) where
  -- A restart, with or without metrics, cancelled in its sleep or not.
  falls_asleep-Fits :
      (has_metrics cancelled_asleep : Bool) (m : Text) (stall recover : Option Text)
      (time : Option Duration) (n : ℕ)
      → Fits running (
          falls_asleep
            (publishes stalled stall ∷ publishes recovering recover ∷ metric has_metrics m)
            time
            n
            cancelled_asleep)
  falls_asleep-Fits true c m stall recover none n = ((stalls, (recovers, tt)), refl)
  falls_asleep-Fits false c m stall recover none n = ((stalls, (recovers, tt)), refl)
  falls_asleep-Fits true true m stall recover (some time) n =
      ((stalls, (recovers, (stops_before again, tt))), refl)
  falls_asleep-Fits true false m stall recover (some time) n = ((stalls, (recovers, tt)), refl)
  falls_asleep-Fits false true m stall recover (some time) n =
      ((stalls, (recovers, (stops_before again, tt))), refl)
  falls_asleep-Fits false false m stall recover (some time) n = ((stalls, (recovers, tt)), refl)

  restart-Fits :
      (has_metrics : Bool) (before : ℕ) (message : Text) (cancelled_asleep : Bool)
      → Fits running (restart scale has_metrics p before message cancelled_asleep)
  unfolding restart
  restart-Fits has_metrics before message cancelled_asleep =
      elim (Bool-cases (ltb before p.recovery.max_restarts)) [
        | inl more ↦ rw more (falls_asleep-Fits has_metrics cancelled_asleep _ _ _ _ _)
        | inr enough ↦ rw enough ((fails, tt), refl)
      ]

  exited-Fits :
      (has_metrics : Bool) (attempts : ℕ) (r : Round) (exit : PipelineLoopExit)
      → Fits running (exited scale has_metrics p attempts r exit)
  exited-Fits has_metrics attempts r cancelled = ((stops, tt), refl)
  exited-Fits has_metrics attempts r end_of_stream = ((stops, tt), refl)
  exited-Fits has_metrics attempts r (recoverable message) =
      restart-Fits has_metrics (attempts_before p.recovery attempts r.elapsed) message
        r.cancelled_asleep
  exited-Fits has_metrics attempts r (fatal message) = ((fails, tt), refl)

  built_turn-Fits :
      (has_metrics : Bool) (attempts : ℕ) (r : Round) (built : Result Text (Unit {0}))
      (s : TaskStatus)
      → Starts s
      → Fits s (built_turn scale has_metrics p attempts r built)
  built_turn-Fits has_metrics attempts r (err message) s ready = ((fails_before ready, tt), refl)
  built_turn-Fits has_metrics attempts r (ok tt) s ready =
      let (chain, close) = exited-Fits has_metrics attempts r r.exit in ((runs ready, chain), close)

  turn-Fits :
      (has_metrics : Bool) (attempts : ℕ) (r : Round) (s : TaskStatus)
      → Starts s
      → Fits s (turn scale has_metrics p attempts r)
  unfolding turn
  turn-Fits has_metrics attempts r s ready = elim (Bool-cases r.is_cancelled) [
    | inl now ↦ rw now ((stops_before ready, tt), refl)
    | inr later ↦ rw later (built_turn-Fits has_metrics attempts r r.built s ready)
  ]

-- A supervision from `s` on: its statuses are in order, and it has ended exactly in a final one.
abbrev pub InOrder : TaskStatus → Supervision → Type 0
InOrder s v = Chain s v.effects × (v.ended ≡ is_final (last_status s v.effects))

then_go_on-InOrder :
    (s : TaskStatus) (t : Turn) (next : Option ℕ) (rest : ℕ → Supervision)
    → Chain s t.effects
    → Closes (last_status s t.effects) t.panicked next
    → ((n : ℕ) → InOrder recovering (rest n))
    → InOrder s (then_go_on t next rest)
then_go_on-InOrder s t none rest chain close ih = (chain, rw close refl)
then_go_on-InOrder s t (some n) rest chain close ih =
    let (more, final) = ih n in
    (
      Chain-append s t.effects (rest n).effects chain (rw close more),
      rw (last_status-append s t.effects (rest n).effects, close) final,
    )

open_status : {s : TaskStatus} → Starts s → false ≡ is_final s
open_status first = refl
open_status again = refl

supervise_from-InOrder :
    (scale : Scale) (has_metrics : Bool) (p : CompiledPipeline) (rounds : List Round) (attempts : ℕ)
    (s : TaskStatus)
    → Starts s
    → InOrder s (supervise_from scale has_metrics p attempts rounds)
unfolding supervise_from
supervise_from-InOrder scale has_metrics p [] attempts s ready = (tt, open_status ready)
supervise_from-InOrder scale has_metrics p (r ∷ rounds) attempts s ready =
    let t = turn scale has_metrics p attempts r in
    let (chain, close) = turn-Fits scale p has_metrics attempts r s ready in
    then_go_on-InOrder s t t.next _ chain close
      λ n. supervise_from-InOrder scale has_metrics p rounds n recovering again

-- Whatever happens, a panic in the backoff too, the published statuses follow each other as they may, from `Spawning` on, and
-- the task has ended exactly if the last of them is `Stopped` or `Failed`.
pub supervise_pipeline_task-InOrder :
    (scale : Scale) (has_metrics : Bool) (p : CompiledPipeline) (rounds : List Round)
    → InOrder spawning (supervise_pipeline_task scale has_metrics p rounds)
unfolding supervise_pipeline_task
supervise_pipeline_task-InOrder scale has_metrics p rounds =
    supervise_from-InOrder scale has_metrics p rounds 0 spawning first
