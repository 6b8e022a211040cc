-- ===== src/Runtime/Supervisor/Restarts.antt =====
-- How often a failing pipeline is restarted.
use caml.Base.{
  ℕ, ◌+◌, ◌-◌, ◌≤◌, ◌<◌, ◌≡◌, refl, ap, not, inl, inr, Bool, true, false, Bool-cases, List, [], ◌∷◌,
  ◌++◌, Option, none, some, ltb, leb, arith, length, tally, All, ok,
}
use caml.Compiler.Types.{CompiledPipeline, RecoveryPolicy}
use caml.Runtime.Supervisor.{
  Scale, backoff, running, stalled, recovering, publishes, starts_backend, sleeps, Effect,
  recoverable, Round, metric, attempts_before, restart, turn, supervise_from,
  supervise_pipeline_task,
}
use caml.Text.{Text}
use caml.Units.{Duration}

-- A turn that fails before the attempts are forgotten, in a task that nobody cancels.
pub record IsFailing (p : CompiledPipeline) (r : Round) : Type 0 where
  pub not_cancelled : r.is_cancelled ≡ false
  pub builds : r.built ≡ ok tt
  pub message : Text
  pub exits : r.exit ≡ recoverable message
  pub too_short : r.elapsed < p.recovery.reset_after
  pub not_woken : r.cancelled_asleep ≡ false

abbrev pub is_sleep : Effect → ℕ
is_sleep (sleeps time) = 1
is_sleep _ = 0

tally-append :
    (before after : List Effect)
    → tally is_sleep (before ++ after) ≡ tally is_sleep before + tally is_sleep after
tally-append [] after = omega arith
tally-append (x ∷ before) after = omega (arith, tally-append before after)

-- No backoff that the policy allows panics.
abbrev pub NeverPanics : Scale → RecoveryPolicy → Type 0
NeverPanics scale policy =
    (k : ℕ)
    → k < policy.max_restarts
    → (time : Duration) × (scale policy.initial_backoff policy.backoff_multiplier k ≡ some time)

module _ (scale : Scale) (has_metrics : Bool) (p : CompiledPipeline)
    (calm : NeverPanics scale p.recovery) where
  restart_sleeps :
      (h : Bool) (path name m : Text) (stall recover : Option Text) (time : Duration)
      → tally is_sleep (
          publishes running none
          ∷ starts_backend path name
          ∷ publishes stalled stall
          ∷ publishes recovering recover
          ∷ (metric h m ++ sleeps time ∷ []))
        ≡ 1
  restart_sleeps true path name m stall recover time = refl
  restart_sleeps false path name m stall recover time = refl

  -- A failing turn counts one attempt and sleeps once, or fails if there were enough.
  failing_more :
      (r : Round) (a : ℕ)
      → IsFailing p r
      → a < p.recovery.max_restarts
      → ((turn scale has_metrics p a r).next ≡ some (a + 1))
        × (tally is_sleep (turn scale has_metrics p a r).effects ≡ 1)
  unfolding turn attempts_before restart backoff
  failing_more r a f lt =
      let short : leb p.recovery.reset_after r.elapsed ≡ false = ground (arith, f.too_short) in
      let more : ltb a p.recovery.max_restarts ≡ true = ground arith in
      let same : a + 1 - 1 ≡ a = omega arith in
      let scaled = (calm a lt).1 in
      rw (f.not_cancelled, f.builds, f.exits, short, more, f.not_woken, same, scaled)
        (refl, restart_sleeps has_metrics [] [] _ none none _)

  failing_last :
      (r : Round) (a : ℕ)
      → IsFailing p r
      → p.recovery.max_restarts ≤ a
      → ((turn scale has_metrics p a r).next ≡ none)
        × ((turn scale has_metrics p a r).panicked ≡ false)
        × (tally is_sleep (turn scale has_metrics p a r).effects ≡ 0)
  unfolding turn attempts_before restart
  failing_last r a f le =
      let short : leb p.recovery.reset_after r.elapsed ≡ false = ground (arith, f.too_short) in
      let enough : ltb a p.recovery.max_restarts ≡ false = ground arith in
      rw (f.not_cancelled, f.builds, f.exits, short, enough) (refl, refl, refl)

  supervise_from_gives_up :
      (rounds : List Round) (a : ℕ)
      → All (IsFailing p) rounds
      → a ≤ p.recovery.max_restarts
      → p.recovery.max_restarts < a + length rounds
      → ((supervise_from scale has_metrics p a rounds).ended ≡ true)
        × (a + tally is_sleep (supervise_from scale has_metrics p a rounds).effects
            ≡ p.recovery.max_restarts)
  unfolding supervise_from
  supervise_from_gives_up [] a all le lt = absurd (omega arith)
  supervise_from_gives_up (r ∷ rounds) a (f, all) le lt =
      elim (Bool-cases (ltb a p.recovery.max_restarts)) [
        | inl more ↦
            let (go_on, one) = failing_more r a f (ground arith) in
            let (ended, total) =
              supervise_from_gives_up rounds (a + 1) all (ground arith) (omega arith) in
            let t = turn scale has_metrics p a r in
            rw go_on (
              ended,
              omega (
                arith,
                tally-append t.effects (supervise_from scale has_metrics p (a + 1) rounds).effects,
                one,
                total,
              ),
            )
        | inr enough ↦
            let (no_more, no_panic, zero_sleeps) = failing_last r a f (ground arith) in
            let reached : a ≡ p.recovery.max_restarts = ground arith in
            rw no_more (ap not no_panic, omega (arith, zero_sleeps, reached))
      ]

  -- In a task that nobody cancels, and whose backoffs do not panic, a pipeline that fails in each of
  -- more than `max_restarts` turns, always before its attempts are forgotten, is restarted exactly
  -- `max_restarts` times, and then given up.
  pub supervise_pipeline_task_gives_up :
      (rounds : List Round)
      → All (IsFailing p) rounds
      → p.recovery.max_restarts < length rounds
      → ((supervise_pipeline_task scale has_metrics p rounds).ended ≡ true)
        × (tally is_sleep (supervise_pipeline_task scale has_metrics p rounds).effects
            ≡ p.recovery.max_restarts)
  unfolding supervise_pipeline_task
  supervise_pipeline_task_gives_up rounds all lt =
      let (ended, total) = supervise_from_gives_up rounds 0 all (omega arith) (omega arith) in
      (ended, omega (arith, total))
