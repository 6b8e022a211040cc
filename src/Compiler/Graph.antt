-- ===== src/Compiler/Graph.antt =====
-- crates/caml-core/src/compiler.rs: `CamlCompiler`, from the manifest to the graph with its resource
-- plan. The set of seen ids is a list; a probe is the function behind the trait.
pub mod Loop
pub mod Ids
pub mod Budget
pub mod Capabilities
pub mod Succeeds
mod Tests
use caml.Base.{
  ℕ, ◌+◌, ◌*◌, ◌/◌, Bool, true, false, not, ◌||◌, List, [], ◌∷◌, ◌++◌, Option, none, some, ltb,
  if◌then◌else◌, min, Result, ok, err, ◌>>=◌, ◌>>◌, reject_if,
}
use caml.Compiler.Host.{HostCapabilities, CapabilityProbe, validate_host_target}
use caml.Compiler.Overlay.{Variables}
use caml.Compiler.Pipeline.{compile_pipeline, validate_pipeline}
use caml.Compiler.Types.{
  CompileError, invalid_configuration, duplicate_pipeline_id, resource_limit_exceeded,
  ResolvedInputBackend, ffmpeg_rtsp, v4l2_device, libcamera_device, auto_device, ResourceWarning,
  high_memory_usage, BufferPoolPlan, CompiledSystem, ResourcePlan, CompiledPipeline, CompiledGraph,
}
use caml.Frontend.{
  HardwareTarget, raspberry_pi4, raspberry_pi5, generic_linux, PipelineNode, SystemConfig,
  CamlManifest,
}
use caml.Text.{Text, codes, text_eq, u64_max}
use caml.Units.{ByteSize}

-- `u64::saturating_mul` and `saturating_add`.
abbrev pub saturating_mul : ℕ → ℕ → ℕ
saturating_mul a b = min (a * b) u64_max

abbrev pub saturating_add : ℕ → ℕ → ℕ
saturating_add a b = min (a + b) u64_max

-- Whether an id is in the set.
unfoldable pub member : Text → List Text → Bool
member id [] = false
member id (x ∷ ids) = text_eq x id || member id ids

-- The first loop of `compile_internal`, after the ids seen so far.
pub compile_pipelines :
    CamlManifest
    → Option HostCapabilities
    → Variables
    → List Text
    → List PipelineNode
    → Result CompileError (List CompiledPipeline)
compile_pipelines manifest capabilities vars seen [] = ok []
compile_pipelines manifest capabilities vars seen (p ∷ ps) = do
  reject_if (member p.id seen) (duplicate_pipeline_id p.id)
  validate_pipeline manifest p capabilities
  compiled ← compile_pipeline p vars
  rest ← compile_pipelines manifest capabilities vars (p.id ∷ seen) ps
  ok (compiled ∷ rest)

-- The limit in bytes.
abbrev pub limit_of : Option ByteSize → Option ByteSize → ℕ
limit_of (some limit) media = limit.as_bytes
limit_of none (some limit) = limit.as_bytes
limit_of none none = 0

-- The plan of one pool, and the loop over the pipelines with its running total.
unfoldable pub pool_bytes : CompiledPipeline → ℕ
pool_bytes p = saturating_mul p.runtime.buffer_size p.runtime.buffer_count

abbrev pub pool_plan : CompiledPipeline → BufferPoolPlan
pool_plan p = record {
  pipeline_id = p.id;
  buffer_size = p.runtime.buffer_size;
  buffer_count = p.runtime.buffer_count;
  estimated_bytes = pool_bytes p;
}

pub record Pools : Type 0 where
  pub buffer_pools : List BufferPoolPlan
  pub estimated_pool_bytes : ℕ

pub plan_pools : Pools → List CompiledPipeline → Pools
plan_pools acc [] = acc
plan_pools acc (p ∷ ps) =
    plan_pools
      (record {
        buffer_pools = acc.buffer_pools ++ pool_plan p ∷ [];
        estimated_pool_bytes = saturating_add acc.estimated_pool_bytes (pool_bytes p);
      })
      ps

-- What one pipeline's backend takes, and the loop over the pipelines.
abbrev pub backend_bytes : ResolvedInputBackend → ℕ → ℕ
backend_bytes ffmpeg_rtsp buffer_size = saturating_mul 128 buffer_size
backend_bytes auto_device buffer_size = 128 * 1200 + 8 * (1920 * 1080 * 3 / 2) + 32 * 256_000
backend_bytes v4l2_device buffer_size = 128 * 1200 + 8 * (1920 * 1080 * 3 / 2) + 32 * 256_000
backend_bytes libcamera_device buffer_size = 8 * (1920 * 1080 * 3 / 2) + 8 * (1920 * 1080 * 3 / 2)

unfoldable pub backend_estimate : CompiledPipeline → ℕ
backend_estimate p = backend_bytes p.resolved_backend p.runtime.buffer_size

pub estimate_backends : ℕ → List CompiledPipeline → ℕ
estimate_backends total [] = total
estimate_backends total (p ∷ ps) = estimate_backends (saturating_add total (backend_estimate p)) ps

abbrev pub memory_warnings : ℕ → ℕ → ℕ → List ResourceWarning
memory_warnings pool backend limit =
    if ltb limit (saturating_add pool backend) then high_memory_usage ∷ [] else []

-- `if let Some(capabilities) = capabilities` at the head of `compile_internal`.
abbrev pub check_host : HardwareTarget → Option HostCapabilities → Result CompileError (Unit {0})
check_host target none = ok tt
check_host target (some capabilities) = validate_host_target target capabilities

-- The end of `compile_internal`: the plan of the compiled pipelines.
pub plan_graph : SystemConfig → List CompiledPipeline → Result CompileError CompiledGraph
plan_graph system pipelines = do
  let limit = limit_of system.cma_allocation_limit system.media_memory_limit
  let pools = plan_pools (record { buffer_pools = []; estimated_pool_bytes = 0 }) pipelines
  reject_if (ltb limit pools.estimated_pool_bytes)
      (resource_limit_exceeded limit pools.estimated_pool_bytes)
  let backend = estimate_backends 0 pipelines
  ok (record {
    system = record {
      hardware_target = system.hardware_target;
      cma_allocation_limit_bytes = limit;
    };
    pipelines = pipelines;
    resource_plan = record {
      configured_limit_bytes = limit;
      estimated_pool_bytes = pools.estimated_pool_bytes;
      estimated_backend_bytes = some backend;
      buffer_pools = pools.buffer_pools;
      warnings = memory_warnings pools.estimated_pool_bytes backend limit;
    };
  })

-- `compile_internal`.
unfoldable pub compile_internal :
    CamlManifest → Option HostCapabilities → Variables → Result CompileError CompiledGraph
compile_internal manifest capabilities vars = do
  check_host manifest.system.hardware_target capabilities
  pipelines ← compile_pipelines manifest capabilities vars [] manifest.pipelines
  plan_graph manifest.system pipelines

-- `hardware_target != HardwareTarget::GenericLinux`.
abbrev pub is_generic : HardwareTarget → Bool
is_generic generic_linux = true
is_generic raspberry_pi4 = false
is_generic raspberry_pi5 = false

-- The entry points.
unfoldable pub compile_with_overlay_variables :
    CamlManifest → Variables → Result CompileError CompiledGraph
compile_with_overlay_variables manifest vars = do
  reject_if (not (is_generic manifest.system.hardware_target)) (
      invalid_configuration (
        codes
          "hardware-target compilation requires a capability probe. Use `compile_with_probe` or `compile_unchecked` if you want to skip guardrails."))
  compile_internal manifest none vars

unfoldable pub compile : CamlManifest → Result CompileError CompiledGraph
compile manifest = compile_with_overlay_variables manifest []

unfoldable pub compile_unchecked_with_overlay_variables :
    CamlManifest → Variables → Result CompileError CompiledGraph
compile_unchecked_with_overlay_variables manifest vars = compile_internal manifest none vars

unfoldable pub compile_unchecked : CamlManifest → Result CompileError CompiledGraph
compile_unchecked manifest = compile_unchecked_with_overlay_variables manifest []

unfoldable pub validate_and_compile : CamlManifest → Result CompileError CompiledGraph
validate_and_compile manifest = compile_unchecked_with_overlay_variables manifest []

unfoldable pub compile_with_probe_and_overlay_variables :
    CamlManifest → CapabilityProbe → Variables → Result CompileError CompiledGraph
compile_with_probe_and_overlay_variables manifest probe vars = do
  capabilities ← probe manifest.system.hardware_target
  compile_internal manifest (some capabilities) vars

unfoldable pub compile_with_probe :
    CamlManifest → CapabilityProbe → Result CompileError CompiledGraph
compile_with_probe manifest probe = compile_with_probe_and_overlay_variables manifest probe []
