-- ===== src/Runtime/Supervisor/Causes.antt =====
-- What a turn of the supervisor's loop must have met to be followed by another.
use caml.Base.{ℕ, ◌≡◌, refl, Bool, Bool-cases, inl, inr, some, Result, ok, err}
use caml.Compiler.Types.{CompiledPipeline}
use caml.Runtime.Supervisor.{
  Scale, PipelineLoopExit, cancelled, end_of_stream, recoverable, fatal, Round, exited, built_turn,
  turn,
}
use caml.Text.{Text}

exited-recoverable :
    (scale : Scale) (has_metrics : Bool) (p : CompiledPipeline) (attempts : ℕ) (r : Round)
    (exit : PipelineLoopExit) {n : ℕ}
    → (exited scale has_metrics p attempts r exit).next ≡ some n
    → (message : Text) × (exit ≡ recoverable message)
exited-recoverable scale has_metrics p attempts r cancelled h = cc
exited-recoverable scale has_metrics p attempts r end_of_stream h = cc
exited-recoverable scale has_metrics p attempts r (recoverable message) h = (message, refl)
exited-recoverable scale has_metrics p attempts r (fatal message) h = cc

built_turn-recoverable :
    (scale : Scale) (has_metrics : Bool) (p : CompiledPipeline) (attempts : ℕ) (r : Round)
    (built : Result Text (Unit {0})) {n : ℕ}
    → (built_turn scale has_metrics p attempts r built).next ≡ some n
    → (message : Text) × (r.exit ≡ recoverable message)
built_turn-recoverable scale has_metrics p attempts r (err message) h = cc
built_turn-recoverable scale has_metrics p attempts r (ok tt) h =
    exited-recoverable scale has_metrics p attempts r r.exit h

-- Only a recoverable exit is followed by another turn.
pub turn-recoverable :
    (scale : Scale) (has_metrics : Bool) (p : CompiledPipeline) (attempts : ℕ) (r : Round) {n : ℕ}
    → (turn scale has_metrics p attempts r).next ≡ some n
    → (message : Text) × (r.exit ≡ recoverable message)
unfolding turn
turn-recoverable scale has_metrics p attempts r h = elim (Bool-cases r.is_cancelled) [
  | inl now ↦ let e = rw now at h in cc
  | inr later ↦ built_turn-recoverable scale has_metrics p attempts r r.built (rw later at h)
]
