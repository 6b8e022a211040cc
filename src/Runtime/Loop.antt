-- ===== src/Runtime/Loop.antt =====
-- crates/caml-core/src/runtime.rs: `run_pipeline_once` and `run_pipeline_loop`, which pull payloads from
-- a source through the transforms into a sink. The stages are functions on a state of type `S`, which
-- holds the pool of the `PipelineContext`. Each turn of the loop is decided by a tick: the
-- cancellation, the timeout, or the answer of the source. A loop over a list of ticks that does not
-- return waits for the next tick. Debug's text of a Duration is a parameter.
pub mod Explanation
pub mod Explained
pub mod Supervised
mod Tests
use Prim.Native.String.{String}
use caml.Base.{
  ℕ, ◌+◌, Bool, true, false, List, [], ◌∷◌, ◌++◌, Option, none, some, length, if◌then◌else◌, Result,
  ok, err,
}
use caml.Compiler.Types.{CompiledPipeline}
use caml.Runtime.Media.{
  RuntimeError, is_recoverable, error_text, MediaPayload, encoded_packet, decoded_frame,
  end_of_stream, payload_bytes,
}
use caml.Runtime.Pool.{BufferPool, new, preallocate, high_watermark_bytes}
use caml.Runtime.Supervisor.{PipelineLoopExit}
use caml.Text.{Text, codes}
use caml.Units.{Duration}

pub data Tick : Type 0 where
  cancels times_out answers : Tick

-- What the exporter is told.
pub data Metric : Type 0 where
  throughput : ℕ → Metric
  stream_error : Text → Metric
  memory_watermark : ℕ → Metric

-- `PipelineStages`, over the state.
pub record PipelineStages (S : Type 0) : Type 0 where
  pub next : S → Result RuntimeError MediaPayload × S
  pub transforms : List (MediaPayload → S → Result RuntimeError MediaPayload × S)
  pub consume : MediaPayload → S → Result RuntimeError (Unit {0}) × S
  pub pool : S → BufferPool

pub record LoopRun (S : Type 0) : Type 0 where
  pub exit : Option PipelineLoopExit
  pub state : S
  pub metrics : List Metric

unfoldable pub pipeline_exit_from_error : RuntimeError → PipelineLoopExit
unfolding is_recoverable error_text
pipeline_exit_from_error error =
    if is_recoverable error
    then PipelineLoopExit.recoverable (error_text error)
    else PipelineLoopExit.fatal (error_text error)

abbrev pub record_if : Bool → List Metric → List Metric
record_if true metrics = metrics
record_if false metrics = []

-- The throughput of a payload with bytes.
abbrev pub throughput_of : Option (List ℕ) → List Metric
throughput_of none = []
throughput_of (some bytes) = throughput (length bytes) ∷ []

-- The message on a timeout.
abbrev pub no_media : Text → Text
no_media shown_timeout = codes "no media received within " ++ shown_timeout

-- The pool that `run_pipeline_once` makes.
abbrev pub fresh_pool : (ℕ → ℕ) → CompiledPipeline → BufferPool
fresh_pool address p = preallocate address p.runtime.buffer_count (new p.runtime.buffer_size)

module _ {S : Type 0} where
  -- The `?`-like early return of a stage, on its answer.
  abbrev pub and_then :
      {A B : Type 0}
      → Result RuntimeError A × S
      → (A → S → Result RuntimeError B × S)
      → Result RuntimeError B × S
  and_then (ok a, s) go = go a s
  and_then (err error, s) go = (err error, s)

  -- `for transform in &mut stages.transforms`.
  unfoldable pub transform_all :
      List (MediaPayload → S → Result RuntimeError MediaPayload × S)
      → MediaPayload
      → S
      → Result RuntimeError MediaPayload × S
  transform_all [] payload s = (ok payload, s)
  transform_all (transform ∷ transforms) payload s =
      and_then (transform payload s) (transform_all transforms)

  -- The way of a payload through the transforms into the sink.
  unfoldable pub deliver : PipelineStages S → MediaPayload → S → Result RuntimeError (Unit {0}) × S
  unfolding transform_all
  deliver stages payload s = and_then (transform_all stages.transforms payload s) stages.consume

  abbrev pub leaves : PipelineLoopExit → S → List Metric → LoopRun S
  leaves exit s metrics = record { exit = some exit; state = s; metrics = metrics }

  abbrev pub with_metrics : List Metric → LoopRun S → LoopRun S
  with_metrics metrics run = record run { metrics = metrics ++ run.metrics }

  -- The return of the loop on an error of a stage, which is reported.
  abbrev pub fails_with : Bool → RuntimeError → S → LoopRun S
  fails_with has_metrics error s =
      leaves (pipeline_exit_from_error error) s
        (record_if has_metrics (stream_error (error_text error) ∷ []))

  -- What follows the delivery of a payload.
  abbrev pub after_delivery :
      Bool → Result RuntimeError (Unit {0}) × S → (S → LoopRun S) → LoopRun S
  after_delivery has_metrics (ok tt, s) rest = rest s
  after_delivery has_metrics (err error, s) rest = fails_with has_metrics error s

  -- What follows the answer of the source.
  abbrev pub after_next :
      PipelineStages S → Bool → Result RuntimeError MediaPayload × S → (S → LoopRun S) → LoopRun S
  after_next stages has_metrics (err error, s) rest = fails_with has_metrics error s
  after_next stages has_metrics (ok end_of_stream, s) rest =
      leaves PipelineLoopExit.end_of_stream s []
  after_next stages has_metrics (ok (encoded_packet packet), s) rest =
      with_metrics
        (record_if has_metrics
          (throughput_of (payload_bytes (stages.pool s) (encoded_packet packet))))
        (after_delivery has_metrics (deliver stages (encoded_packet packet) s) rest)
  after_next stages has_metrics (ok (decoded_frame frame), s) rest =
      with_metrics
        (record_if has_metrics
          (throughput_of (payload_bytes (stages.pool s) (decoded_frame frame))))
        (after_delivery has_metrics (deliver stages (decoded_frame frame) s) rest)

  unfoldable pub run_pipeline_loop : PipelineStages S → Bool → Text → List Tick → S → LoopRun S
  unfolding pipeline_exit_from_error payload_bytes deliver
  run_pipeline_loop stages has_metrics shown_timeout [] s = record {
    exit = none;
    state = s;
    metrics = [];
  }
  run_pipeline_loop stages has_metrics shown_timeout (cancels ∷ ticks) s =
      leaves PipelineLoopExit.cancelled s []
  run_pipeline_loop stages has_metrics shown_timeout (times_out ∷ ticks) s =
      leaves (PipelineLoopExit.recoverable (no_media shown_timeout)) s []
  run_pipeline_loop stages has_metrics shown_timeout (answers ∷ ticks) s =
      after_next stages has_metrics (stages.next s)
        λ s'. run_pipeline_loop stages has_metrics shown_timeout ticks s'

  -- The watermark of the pool, recorded where the loop returned.
  abbrev pub watermark_metric : Bool → PipelineStages S → LoopRun S → List Metric
  watermark_metric has_metrics stages run =
      record_if has_metrics (memory_watermark (high_watermark_bytes (stages.pool run.state)) ∷ [])

  abbrev pub finish_once : Bool → PipelineStages S → Option PipelineLoopExit → LoopRun S → LoopRun S
  finish_once has_metrics stages none run = run
  finish_once has_metrics stages (some exit) run = record run {
    metrics = run.metrics ++ watermark_metric has_metrics stages run;
  }

  unfoldable pub run_pipeline_once :
      (Duration → Text)
      → (ℕ → ℕ)
      → CompiledPipeline
      → PipelineStages S
      → Bool
      → (BufferPool → S)
      → List Tick
      → LoopRun S
  unfolding run_pipeline_loop
  run_pipeline_once show_duration address p stages has_metrics opens ticks =
      let run =
        run_pipeline_loop stages has_metrics (show_duration p.runtime.watchdog_timeout) ticks
          (opens (fresh_pool address p)) in
      finish_once has_metrics stages run.exit run
