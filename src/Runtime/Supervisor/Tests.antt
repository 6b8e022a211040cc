-- ===== src/Runtime/Supervisor/Tests.antt =====
-- Runs of the supervisor.
use caml.Base.{
  ◌*◌, ◌/◌, ◌^◌, ◌≡◌, refl, some, none, ltb, if◌then◌else◌, true, false, List, [], ◌∷◌, arith, ok,
  tally,
}
use caml.Compiler.Types.{CompiledPipeline, sentinel}
use caml.Compiler.Resolve.{class_policy}
use caml.Compiler.Types.{RecoveryClass}
use caml.Runtime.Supervisor.Restarts.{IsFailing, is_sleep, supervise_pipeline_task_gives_up}
use caml.Runtime.Supervisor.Statuses.{InOrder, supervise_pipeline_task-InOrder}
use caml.Runtime.Supervisor.{
  Scale, spawning, recoverable, Round, supervise_pipeline_task, supervise_from, turn,
  attempts_before, restart, backoff,
}
use caml.Text.{codes}
use caml.Units.{from_secs}

-- A pipeline that reads a local camera.
abbrev camera : CompiledPipeline
camera = record sentinel { recovery = class_policy RecoveryClass.device }

abbrev lost : Round
lost = record {
  is_cancelled = false;
  built = ok tt;
  exit = recoverable (codes "device lost");
  elapsed = from_secs 1;
  cancelled_asleep = false;
}

abbrev losses : List Round
losses = lost ∷ lost ∷ lost ∷ lost ∷ []

lost-IsFailing : IsFailing camera lost
lost-IsFailing = record {
  not_cancelled = refl;
  builds = refl;
  message = codes "device lost";
  exits = refl;
  too_short = omega arith;
  not_woken = refl;
}

-- Arithmetic that is exact always, and one that rounds a duration down to whole microseconds and panics
-- above a day.
abbrev exactly : Scale
exactly time m k = some (time * m ^ k)

abbrev roughly : Scale
roughly time m k =
    let scaled = time / 1_000 * m ^ k * 1_000 in
    if ltb scaled (from_secs 86_400) then some scaled else none

supervise_pipeline_task-InOrder_example :
    InOrder spawning (supervise_pipeline_task roughly true camera losses)
supervise_pipeline_task-InOrder_example = supervise_pipeline_task-InOrder roughly true camera losses

supervise_pipeline_task_gives_up_example :
    ((supervise_pipeline_task exactly true camera losses).ended ≡ true)
    × (tally is_sleep (supervise_pipeline_task exactly true camera losses).effects ≡ 3)
supervise_pipeline_task_gives_up_example =
    supervise_pipeline_task_gives_up exactly true camera (λ k lt. (_, refl)) losses
      (lost-IsFailing, (lost-IsFailing, (lost-IsFailing, (lost-IsFailing, tt)))) (omega arith)

-- A policy whose backoff overflows: the task dies recovering, without a last status.
abbrev overflowing : CompiledPipeline
overflowing = record camera {
  recovery = record camera.recovery { initial_backoff = from_secs 100_000 };
}

dies :
    ((supervise_pipeline_task roughly true overflowing losses).panicked ≡ true)
    × ((supervise_pipeline_task roughly true overflowing losses).ended ≡ false)
unfolding supervise_pipeline_task supervise_from turn attempts_before restart backoff
dies = (refl, refl)
