-- ===== src/Runtime/Supervisor/Backoff.antt =====
-- How long the supervisor waits before a restart of a compiled pipeline.

use caml.Base.{ℕ, ◌*◌, ◌^◌, ◌≤◌, ◌<◌, ◌≡◌, Bool, false, some, All}
use caml.Compiler.Resolve.{class_policy}
use caml.Compiler.Types.{RecoveryClass, RecoveryPolicy, CompiledPipeline}
use caml.Runtime.Supervisor.{Scale, sleeps, Effect, Turn, Supervision}
use caml.Text.{Text}
use caml.Units.{Duration, from_millis}

-- What an f32 does: some quarters of a second, and their double, redoubled, stay exact as long as the
-- quarters fit its 24 bits.
abbrev pub IsExactOnQuarters : Scale → Type 0
IsExactOnQuarters scale =
    (quarters k : ℕ)
    → quarters * 2 ^ k < 2 ^ 24
    → scale (quarters * from_millis 250) 2 k ≡ some (quarters * from_millis 250 * 2 ^ k)

-- The sleep is the first backoff, doubled fewer times than there are restarts, within the largest.
abbrev pub IsDoubled : RecoveryPolicy → Duration → Type 0
IsDoubled policy time =
    (k : ℕ) × (k < policy.max_restarts)
    × (time ≡ policy.initial_backoff * 2 ^ k)
    × (time ≤ policy.max_backoff)

abbrev pub IsPaced : RecoveryPolicy → Effect → Type 0
IsPaced policy (sleeps time) = IsDoubled policy time
IsPaced policy _ = Unit {0}

-- A turn sleeps as the policy says, and does not panic.
abbrev Calm : RecoveryPolicy → Turn → Type 0
Calm policy t = All (IsPaced policy) t.effects × (t.panicked ≡ false)

module _ (scale : Scale) (exact : IsExactOnQuarters scale) (has_metrics : Bool)
    (p : CompiledPipeline) (class : RecoveryClass)
    (compiled : p.recovery ≡ class_policy class) where
  abbrev pub KeepsPace : Supervision → Type 0
  KeepsPace v = All (IsPaced p.recovery) v.effects × (v.panicked ≡ false)
