-- ===== src/Compiler/Graph/Succeeds.antt =====
-- Exactly which manifests compile: the graph is determined, and every reason to fail is named.
use caml.Base.{
  ℕ, ◌+◌, ◌*◌, ◌≤◌, ◌≡◌, refl, sym, ap, ◌↔◌, true, Option, none, some, Result, List, [], ◌∷◌, ok,
  min, All, All-map_imp,
}
use caml.Compiler.Graph.Budget.{limit, pool_total, planned, plan_graph-eq-ok, plan_graph_fits}
use caml.Compiler.Graph.Ids.{compile_internal-cases}
use caml.Compiler.Graph.Loop.{node_ids, Unique, AllCompile, compile_pipelines_iff}
use caml.Compiler.Graph.{compile_internal, check_host, is_generic, compile_with_overlay_variables}
use caml.Compiler.Host.Meets.{FitsTarget, validate_host_target_iff}
use caml.Compiler.Host.{HostCapabilities}
use caml.Compiler.Overlay.Layers.{HasText, compile_overlay_profile-HasText}
use caml.Compiler.Overlay.{Variables, compile_overlay_profile}
use caml.Compiler.Pipeline.Shape.{validate_pipeline-IsCompilable, compile_pipeline-Keeps}
use caml.Compiler.Pipeline.{
  compile_pipeline, compiled_with, transpose, runtime_policy, map_option, compile_network_profile,
}
use caml.Compiler.Types.{RuntimePolicy, CompiledPipeline, CompiledGraph}
use caml.Frontend.Validate.Accepts.{validate-IsManifest}
use caml.Frontend.Validate.{validate}
use caml.Frontend.WellFormed.{IfSome, FitsStrategy}
use caml.Frontend.{HardwareTarget, generic_linux, PipelineNode, CamlManifest, UrlParser}
use caml.Text.{u64_max}

-- `g` is the graph of `m`: the host fits the target, the ids are distinct, each pipeline is valid
-- and compiles to its counterpart, the pools fit the limit, and the rest is the plan.
pub record IsGraphOf (m : CamlManifest) (caps : Option HostCapabilities) (vars : Variables)
    (g : CompiledGraph) : Type 0 where
  pub host_fits : IfSome (λ c. FitsTarget c m.system.hardware_target) caps
  pub distinct : Unique (node_ids m.pipelines)
  pub compiled : AllCompile m caps vars m.pipelines g.pipelines
  pub within_limit : min (pool_total g.pipelines) u64_max ≤ limit m.system
  pub is_planned : g ≡ planned m.system g.pipelines

check_host_iff :
    (m : CamlManifest) (caps : Option HostCapabilities)
    → (check_host m.system.hardware_target caps ≡ ok tt)
      ↔ IfSome (λ c. FitsTarget c m.system.hardware_target) caps
check_host_iff m none = ((λ h. tt), (λ h. refl))
check_host_iff m (some c) = validate_host_target_iff m.system.hardware_target c

-- `compile_internal` returns `g` exactly if `g` is the graph of the manifest.
pub compile_internal-IsGraphOf :
    (m : CamlManifest) (caps : Option HostCapabilities) (vars : Variables) (g : CompiledGraph)
    → (compile_internal m caps vars ≡ ok g) ↔ IsGraphOf m caps vars g
unfolding compile_internal
compile_internal-IsGraphOf m caps vars g = (
  λ h.
      let (host, unique, all, plan) = compile_internal-cases m caps vars g h in
      let (same, fits) = plan_graph-eq-ok m.system g.pipelines g plan in
      record {
        host_fits = (check_host_iff m caps).0 host;
        distinct = unique;
        compiled = all;
        within_limit = fits;
        is_planned = same;
      },
  λ i.
      rw
        (
          (check_host_iff m caps).1 i.host_fits,
          (compile_pipelines_iff m caps vars m.pipelines g.pipelines).1 (i.distinct, i.compiled),
          plan_graph_fits m.system g.pipelines i.within_limit,
        )
        (sym (ap ok i.is_planned)),
)

skips_probe : (t : HardwareTarget) → t ≡ generic_linux → is_generic t ≡ true
skips_probe t e = rw e

-- The bytes of the pools, read off the manifest.
abbrev node_runtime : PipelineNode → RuntimePolicy
node_runtime p = runtime_policy (map_option compile_network_profile p.network) p.strategy

abbrev pub node_total : List PipelineNode → ℕ
node_total [] = 0
node_total (p ∷ ps) = (node_runtime p).buffer_size * (node_runtime p).buffer_count + node_total ps

-- Each template in the pipeline's overlay has a meaning, where `pipeline_id` and `camera_id` are the
-- pipeline's id and every other name is the caller's.
abbrev pub HasOverlay : Variables → PipelineNode → Type 0
HasOverlay vars p = IfSome (λ overlay. All (HasText p.id vars) overlay.layers) p.overlay

transpose_each {ε ℓ κ} :
    {E : Type ε} {A : Type ℓ} {B : Type κ}
    → (f : A → Result E B) (o : Option A) → IfSome (λ a. (b : B) × (f a ≡ ok b)) o
    → (r : Option B) × (transpose f o ≡ ok r)
transpose_each f none h = (none, refl)
transpose_each f (some a) (b, e) = (some b, rw e refl)

IfSome-imp {ℓ κ μ} :
    {A : Type ℓ} {P : A → Type κ} {Q : A → Type μ}
    → ((a : A) → P a → Q a)
    → (o : Option A) → IfSome P o
    → IfSome Q o
IfSome-imp f none h = tt
IfSome-imp f (some a) h = f a h

compile_pipeline-HasOverlay :
    (vars : Variables) (p : PipelineNode)
    → HasOverlay vars p
    → (c : CompiledPipeline) × (compile_pipeline p vars ≡ ok c)
unfolding compile_pipeline
compile_pipeline-HasOverlay vars p h =
    let (overlay, e) =
      transpose_each (λ profile. compile_overlay_profile p.id profile vars) p.overlay
        (IfSome-imp (compile_overlay_profile-HasText p.id vars) p.overlay h) in
    (compiled_with p overlay, rw e refl)

module _ (m : CamlManifest) (vars : Variables)
    (generic : m.system.hardware_target ≡ generic_linux) where
  compile_nodes :
      (ps : List PipelineNode)
      → All (λ p. FitsStrategy p p.strategy) ps
      → All (HasOverlay vars) ps
      → (cs : List CompiledPipeline) × AllCompile m none vars ps cs
        × (pool_total cs ≡ node_total ps)
  compile_nodes [] fits overlays = ([], tt, refl)
  compile_nodes (p ∷ ps) fits overlays =
      let (cs, all, total) = compile_nodes ps fits.1 overlays.1 in
      let (c, e) = compile_pipeline-HasOverlay vars p overlays.0 in
      let valid =
        (validate_pipeline-IsCompilable m p none).1 (record {
          strategy_fits = fits.0;
          hardware_fits = rw generic tt;
          requirements_met = tt;
        }) in
      let runtime = (compile_pipeline-Keeps p vars c e).same_runtime in
      (c ∷ cs, (valid, e, all), rw (runtime, total))

  -- A manifest for generic Linux that the frontend accepts compiles, with no probe, if its ids are
  -- distinct, its overlay templates have a meaning, where `pipeline_id` and `camera_id` are the
  -- pipeline's id and other names the caller's, and its pools fit the limit.
  pub compile_total :
      (url_parse : UrlParser)
      → validate url_parse m ≡ ok tt
      → Unique (node_ids m.pipelines)
      → All (HasOverlay vars) m.pipelines
      → min (node_total m.pipelines) u64_max ≤ limit m.system
      → (g : CompiledGraph) × (compile_with_overlay_variables m vars ≡ ok g)
  unfolding compile_with_overlay_variables compile_internal
  compile_total url_parse accepted unique overlays fits =
      let nodes = ((validate-IsManifest url_parse m).0 accepted).nodes_fit in
      let (cs, all, total) =
        compile_nodes m.pipelines (All-map_imp _ _ m.pipelines (λ p n. n.strategy_fits) nodes)
          overlays in
      (
        planned m.system cs,
        rw (
          skips_probe m.system.hardware_target generic,
          (compile_pipelines_iff m none vars m.pipelines cs).1 (unique, all),
          plan_graph_fits m.system cs (rw total fits),
        ),
      )
