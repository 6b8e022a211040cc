-- ===== src/Runtime/Supervisor.antt =====
-- crates/caml-core/src/runtime.rs: `supervise_pipeline_task`, which restarts a pipeline. Each turn of
-- its loop is decided by what the world does in it, a `Round`; what the task does is a list of
-- effects. A loop over a list of rounds is at its end, or dead by a panic, or waits for the next round.
-- The arithmetic of the standard library on an f32, `mul_f32` and `powi`, is the parameter `Scale`.
pub mod Statuses
pub mod Restarts
pub mod Backoff
pub mod Causes
mod Tests
use Prim.Native.String.{String}
use mathlib.Core.Option
use caml.Base.{
  ℕ, ◌+◌, ◌-◌, ◌*◌, ◌^◌, Bool, true, false, not, List, [], ◌∷◌, ◌++◌, Option, none, some, ltb, leb,
  if◌then◌else◌, min, Result, ok, err,
}
use caml.Compiler.Types.{
  ResolvedInputBackend, CodecPath, RecoveryClass, RecoveryPolicy, CompiledPipeline,
}
use caml.Text.{Text, codes, show_u64}
use caml.Units.{Duration}

pub data TaskStatus : Type 0 where
  spawning running stalled recovering stopped failed : TaskStatus

pub data PipelineLoopExit : Type 0 where
  cancelled end_of_stream : PipelineLoopExit
  recoverable fatal : Text → PipelineLoopExit

-- What the task does: `publish_status`, the event `BackendStarted`, `record_restart`, `sleep`.
pub data Effect : Type 0 where
  publishes : TaskStatus → Option Text → Effect
  starts_backend : (codec_path : Text) → (backend_name : Text) → Effect
  records_restart : Text → Effect
  sleeps : Duration → Effect

-- What one turn meets: whether it is cancelled at its start, what `build_pipeline` answers, how
-- `run_pipeline_once` ends and how long it ran, and whether the sleep is cancelled.
pub record Round : Type 0 where
  pub is_cancelled : Bool
  pub built : Result Text (Unit {0})
  pub exit : PipelineLoopExit
  pub elapsed : Duration
  pub cancelled_asleep : Bool

-- `d.mul_f32(m.powi(k))` for a duration, a whole multiplier and an exponent; `none` is a panic.
abbrev pub Scale : Type 0
Scale = Duration → ℕ → ℕ → Option Duration

-- What a turn did, and the attempts that the next one starts with; `none` is `break`, or a panic.
pub record Turn : Type 0 where
  pub effects : List Effect
  pub next : Option ℕ
  pub panicked : Bool

abbrev pub breaks : List Effect → Turn
breaks effects = record { effects = effects; next = none; panicked = false }

abbrev pub panics : List Effect → Turn
panics effects = record { effects = effects; next = none; panicked = true }

-- `{:?}` of the codec path, the backend and the recovery class.
abbrev pub debug_codec_path : CodecPath → String
debug_codec_path CodecPath.passthrough = "Passthrough"
debug_codec_path CodecPath.software_transcode = "SoftwareTranscode"
debug_codec_path CodecPath.hardware_transcode = "HardwareTranscode"
debug_codec_path CodecPath.hardware_decode = "HardwareDecode"

abbrev pub debug_backend : ResolvedInputBackend → String
debug_backend ResolvedInputBackend.ffmpeg_rtsp = "FfmpegRtsp"
debug_backend ResolvedInputBackend.v4l2_device = "V4l2Device"
debug_backend ResolvedInputBackend.libcamera_device = "LibcameraDevice"
debug_backend ResolvedInputBackend.auto_device = "AutoDevice"

abbrev pub debug_class : RecoveryClass → String
debug_class RecoveryClass.network = "Network"
debug_class RecoveryClass.device = "Device"
debug_class RecoveryClass.hardware = "Hardware"

-- The `backoff` before restart number `attempts`.
pub backoff : Scale → RecoveryPolicy → ℕ → Option Duration
backoff scale policy attempts =
    Option.map (λ scaled. min scaled policy.max_backoff)
      (scale policy.initial_backoff policy.backoff_multiplier (attempts - 1))

-- The attempts before this failure, forgotten after a run of `reset_after`.
pub attempts_before : RecoveryPolicy → ℕ → Duration → ℕ
attempts_before policy attempts elapsed = if leb policy.reset_after elapsed then 0 else attempts

abbrev pub metric : Bool → Text → List Effect
metric true message = records_restart message ∷ []
metric false message = []

-- The end of the sleep.
abbrev pub wakes : List Effect → ℕ → Bool → Turn
wakes effects attempts true = breaks (effects ++ publishes stopped none ∷ [])
wakes effects attempts false = record { effects = effects; next = some attempts; panicked = false }

-- The sleep, if the backoff is computed without a panic.
abbrev pub falls_asleep : List Effect → Option Duration → ℕ → Bool → Turn
falls_asleep effects none attempts cancelled_asleep = panics effects
falls_asleep effects (some time) attempts cancelled_asleep =
    wakes (effects ++ sleeps time ∷ []) attempts cancelled_asleep

module _ (scale : Scale) (has_metrics : Bool) (p : CompiledPipeline) where
  -- The branch of a recoverable exit, after `before` attempts.
  pub restart : ℕ → Text → Bool → Turn
  unfolding backoff
  restart before message cancelled_asleep =
      if ltb before p.recovery.max_restarts
      then falls_asleep
          (publishes stalled (some message)
            ∷ publishes recovering (some (codes "restart attempt " ++ show_u64 (before + 1)))
            ∷ metric has_metrics (codes (debug_class p.recovery.class) ++ (codes ": " ++ message)))
          (backoff scale p.recovery (before + 1)) (before + 1) cancelled_asleep
      else breaks (publishes failed (some message) ∷ [])

  -- The `match` on the exit of the pipeline's loop.
  abbrev pub exited : ℕ → Round → PipelineLoopExit → Turn
  exited attempts r cancelled = breaks (publishes stopped none ∷ [])
  exited attempts r end_of_stream = breaks (publishes stopped none ∷ [])
  exited attempts r (recoverable message) =
      restart (attempts_before p.recovery attempts r.elapsed) message r.cancelled_asleep
  exited attempts r (fatal message) = breaks (publishes failed (some message) ∷ [])

  -- What follows the building of the stages.
  abbrev pub built_turn : ℕ → Round → Result Text (Unit {0}) → Turn
  built_turn attempts r (err message) = breaks (publishes failed (some message) ∷ [])
  built_turn attempts r (ok tt) =
      let rest = exited attempts r r.exit in
      record rest {
        effects =
            publishes running none
            ∷ starts_backend (codes (debug_codec_path p.codec_path))
                (codes (debug_backend p.resolved_backend))
            ∷ rest.effects;
      }

  -- One turn of the loop.
  unfoldable pub turn : ℕ → Round → Turn
  unfolding restart attempts_before
  turn attempts r =
      if r.is_cancelled then breaks (publishes stopped none ∷ []) else built_turn attempts r r.built

-- The task: it has ended if it left its loop; it may have panicked instead.
pub record Supervision : Type 0 where
  pub effects : List Effect
  pub ended : Bool
  pub panicked : Bool

abbrev pub then_go_on : Turn → Option ℕ → (ℕ → Supervision) → Supervision
then_go_on t none rest = record {
  effects = t.effects;
  ended = not t.panicked;
  panicked = t.panicked;
}
then_go_on t (some attempts) rest = record {
  effects = t.effects ++ (rest attempts).effects;
  ended = (rest attempts).ended;
  panicked = (rest attempts).panicked;
}

module _ (scale : Scale) (has_metrics : Bool) (p : CompiledPipeline) where
  pub supervise_from : ℕ → List Round → Supervision
  supervise_from attempts [] = record { effects = []; ended = false; panicked = false }
  supervise_from attempts (r ∷ rounds) =
      let t = turn scale has_metrics p attempts r in
      then_go_on t t.next λ next. supervise_from next rounds

  -- `supervise_pipeline_task`, after the status `Spawning` that `RuntimeEngine::start` publishes.
  pub supervise_pipeline_task : List Round → Supervision
  unfolding supervise_from turn
  supervise_pipeline_task rounds = supervise_from 0 rounds
