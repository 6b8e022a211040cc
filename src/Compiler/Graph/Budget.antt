-- ===== src/Compiler/Graph/Budget.antt =====
-- The resource plan: saturating sums are the true sums cut at the largest u64, and no graph goes
-- over its limit.
use mathlib.Core.List.{append_assoc, append-nil}
use caml.Base.{
  ℕ, ◌+◌, ◌*◌, ◌≤◌, ◌≡◌, refl, sym, ap, ◌∙◌, true, false, Bool, some, List, [], ◌∷◌, ◌++◌, map, ok,
  err, arith, ltb, min, if◌then◌else◌, Bool-cases, inl, inr,
}
use caml.Compiler.Graph.{
  limit_of, pool_bytes, pool_plan, Pools, plan_pools, backend_estimate, estimate_backends,
  plan_graph,
}
use caml.Compiler.Types.{
  CompileError, resource_limit_exceeded, high_memory_usage, CompiledPipeline, CompiledGraph,
}
use caml.Frontend.{SystemConfig}
use caml.Text.{u64_max}

-- The bytes of all pools and of all backends, with no bound.
abbrev pub pool_total : List CompiledPipeline → ℕ
pool_total [] = 0
pool_total (p ∷ ps) = p.runtime.buffer_size * p.runtime.buffer_count + pool_total ps

abbrev backend_total : List CompiledPipeline → ℕ
backend_total [] = 0
backend_total (p ∷ ps) = backend_estimate p + backend_total ps

abbrev pub limit : SystemConfig → ℕ
limit s = limit_of s.cma_allocation_limit s.media_memory_limit

plan_pools-total :
    (ps : List CompiledPipeline) (acc : Pools) (a : ℕ)
    → acc.estimated_pool_bytes ≡ min a u64_max
    → (plan_pools acc ps).estimated_pool_bytes ≡ min (a + pool_total ps) u64_max
unfolding plan_pools pool_bytes
plan_pools-total [] acc a h = omega arith
plan_pools-total (p ∷ ps) acc a h =
    plan_pools-total ps _ (a + p.runtime.buffer_size * p.runtime.buffer_count) (omega arith)
    ∙ omega arith

plan_pools-plans :
    (ps : List CompiledPipeline) (acc : Pools)
    → (plan_pools acc ps).buffer_pools ≡ acc.buffer_pools ++ map pool_plan ps
unfolding plan_pools
plan_pools-plans [] acc = sym (append-nil acc.buffer_pools)
plan_pools-plans (p ∷ ps) acc =
    plan_pools-plans ps _ ∙ append_assoc acc.buffer_pools (pool_plan p ∷ []) (map pool_plan ps)

estimate_backends-total :
    (ps : List CompiledPipeline) (total a : ℕ)
    → total ≡ min a u64_max
    → estimate_backends total ps ≡ min (a + backend_total ps) u64_max
unfolding estimate_backends
estimate_backends-total [] total a h = omega arith
estimate_backends-total (p ∷ ps) total a h =
    estimate_backends-total ps _ (a + backend_estimate p) (omega arith) ∙ omega arith

-- The plan that the source means: exact sums, cut at the largest u64.
abbrev pub planned : SystemConfig → List CompiledPipeline → CompiledGraph
planned s ps = record {
  system = record { hardware_target = s.hardware_target; cma_allocation_limit_bytes = limit s };
  pipelines = ps;
  resource_plan = record {
    configured_limit_bytes = limit s;
    estimated_pool_bytes = min (pool_total ps) u64_max;
    estimated_backend_bytes = some (min (backend_total ps) u64_max);
    buffer_pools = map pool_plan ps;
    warnings =
        if ltb (limit s) (min (pool_total ps + backend_total ps) u64_max)
        then high_memory_usage ∷ []
        else [];
  };
}

saturate_add : (a b : ℕ) → min (min a u64_max + min b u64_max) u64_max ≡ min (a + b) u64_max
saturate_add a b = omega arith

abbrev no_pools : Pools
no_pools = record { buffer_pools = []; estimated_pool_bytes = 0 }

pools_total :
    (ps : List CompiledPipeline)
    → (plan_pools no_pools ps).estimated_pool_bytes ≡ min (pool_total ps) u64_max
pools_total ps = plan_pools-total ps no_pools 0 (omega arith) ∙ omega arith

backends_total :
    (ps : List CompiledPipeline) → estimate_backends 0 ps ≡ min (backend_total ps) u64_max
backends_total ps = estimate_backends-total ps 0 0 (omega arith) ∙ omega arith

-- `plan_graph` gives the planned graph if the pools fit the limit, and the two numbers if not.
pub plan_graph_lem :
    (s : SystemConfig) (ps : List CompiledPipeline)
    → plan_graph s ps ≡ (
        if ltb (limit s) (min (pool_total ps) u64_max)
        then err (resource_limit_exceeded (limit s) (min (pool_total ps) u64_max))
        else ok (planned s ps))
unfolding plan_graph
plan_graph_lem s ps =
    rw
      (
        pools_total ps,
        plan_pools-plans ps no_pools,
        backends_total ps,
        saturate_add (pool_total ps) (backend_total ps),
      )
      (elim (Bool-cases (ltb (limit s) (min (pool_total ps) u64_max))) [
        | inl over ↦ rw over
        | inr within ↦ rw within
      ])

if_err-eq-ok :
    {A : Type 0} (b : Bool) (e : CompileError) (a : A) {g : A}
    → (if b then err e else ok a) ≡ ok g
    → (b ≡ false) × (g ≡ a)
if_err-eq-ok true e a h = cc
if_err-eq-ok false e a h = (refl, cc)

not_over : (a b : ℕ) → ltb a b ≡ false → b ≤ a
not_over a b h = ground arith

-- A graph that comes out is the planned one, and its pools fit the limit.
pub plan_graph-eq-ok :
    (s : SystemConfig) (ps : List CompiledPipeline) (g : CompiledGraph)
    → plan_graph s ps ≡ ok g
    → (g ≡ planned s ps) × (min (pool_total ps) u64_max ≤ limit s)
plan_graph-eq-ok s ps g h =
    let (within, same) =
      if_err-eq-ok (ltb (limit s) (min (pool_total ps) u64_max)) _ (planned s ps)
        (rw (plan_graph_lem s ps) at h) in
    (same, not_over (limit s) (min (pool_total ps) u64_max) within)

pub plan_graph-pipelines :
    (s : SystemConfig) (ps : List CompiledPipeline) (g : CompiledGraph)
    → plan_graph s ps ≡ ok g
    → ps ≡ g.pipelines
plan_graph-pipelines s ps g h =
    sym (ap (λ (x : CompiledGraph). x.pipelines) (plan_graph-eq-ok s ps g h).0)

-- If the pools fit the limit, the planned graph comes out.
pub plan_graph_fits :
    (s : SystemConfig) (ps : List CompiledPipeline)
    → min (pool_total ps) u64_max ≤ limit s
    → plan_graph s ps ≡ ok (planned s ps)
plan_graph_fits s ps h =
    let within : ltb (limit s) (min (pool_total ps) u64_max) ≡ false = ground arith in
    rw (plan_graph_lem s ps, within)
