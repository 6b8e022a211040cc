-- ===== src/Compiler/Pipeline/Shape.antt =====
-- What `validate_pipeline` asks of a pipeline, and what `compile_pipeline` keeps of it.
use caml.Base.{
  ◌≡◌, ◌≢◌, refl, ◌↔◌, ◌⊎◌, true, false, Option, none, some, ok, err, arith, All, ◌>>◌, >>=-eq-ok,
  Result,
}
use caml.Compiler.Host.Meets.{Meets, validate-All_iff}
use caml.Compiler.Host.{HostCapabilities}
use caml.Compiler.Overlay.{Variables}
use caml.Compiler.Pipeline.{
  validate_shape, validate_hardware, validate_requirements, validate_pipeline, compile_pipeline,
  transpose, map_option, compile_network_profile, runtime_policy,
}
use caml.Compiler.Resolve.{
  names_hardware, resolve_codec_path, capability_requirements_for, resolve_backend,
}
use caml.Compiler.Types.{CompileError, CompiledPipeline}
use caml.Frontend.WellFormed.{IfSome, FitsStrategy}
use caml.Frontend.{
  HardwareTarget, raspberry_pi4, raspberry_pi5, generic_linux, StreamStrategy, PipelineNode,
  CamlManifest,
}

-- The compiler's check of the strategy is the frontend's.
shape_cases :
    (p : PipelineNode) (s : StreamStrategy)
    → p.strategy ≡ s
    → (validate_shape p ≡ ok tt) ↔ FitsStrategy p p.strategy
unfolding validate_shape
shape_cases p StreamStrategy.passthrough e = ground arith
shape_cases p StreamStrategy.transcode e = ground arith
shape_cases p StreamStrategy.hardware_decode e = ground arith

validate_shape_iff : (p : PipelineNode) → (validate_shape p ≡ ok tt) ↔ FitsStrategy p p.strategy
validate_shape_iff p = shape_cases p p.strategy refl

-- What the hardware target asks: no hardware encoder on a Pi 5, and on either Pi the hardware that
-- is asked for, if a probe has looked.
abbrev pub FitsHardware : HardwareTarget → PipelineNode → Option HostCapabilities → Type 0
FitsHardware generic_linux p caps = Unit {0}
FitsHardware raspberry_pi4 p caps =
    IfSome
      (λ q. IfSome (λ c. (names_hardware q.encoder ≡ false) ⊎ (c.has_pi4_h264_encoder ≡ true)) caps)
      p.processing
FitsHardware raspberry_pi5 p caps =
    IfSome (λ q. names_hardware q.encoder ≡ false) p.processing
    × IfSome
        (λ c. (p.strategy ≢ StreamStrategy.hardware_decode) ⊎ (c.has_pi5_stateless_decoder ≡ true))
        caps

hardware_cases :
    (t : HardwareTarget) (p : PipelineNode) (s : StreamStrategy) (caps : Option HostCapabilities)
    → p.strategy ≡ s
    → (validate_hardware t p caps ≡ ok tt) ↔ FitsHardware t p caps
unfolding validate_hardware
hardware_cases generic_linux p StreamStrategy.passthrough caps e = ground arith
hardware_cases raspberry_pi4 p _ caps e = ground arith
hardware_cases raspberry_pi5 p _ caps e = ground arith
hardware_cases generic_linux p _ caps e = ground arith

validate_hardware_iff :
    (t : HardwareTarget) (p : PipelineNode) (caps : Option HostCapabilities)
    → (validate_hardware t p caps ≡ ok tt) ↔ FitsHardware t p caps
validate_hardware_iff t p caps = hardware_cases t p p.strategy caps refl

validate_requirements_iff :
    (p : PipelineNode) (caps : Option HostCapabilities)
    → (validate_requirements p caps ≡ ok tt)
      ↔ IfSome (λ c. All (Meets c) (capability_requirements_for p)) caps
unfolding validate_requirements
validate_requirements_iff p none = ground arith
validate_requirements_iff p (some c) = validate-All_iff (capability_requirements_for p) p.id c

-- `validate_pipeline` passes exactly the pipelines whose strategy fits, which the hardware target
-- allows, and whose requirements the host meets, if it was probed.
pub record IsCompilable (t : HardwareTarget) (caps : Option HostCapabilities) (p : PipelineNode)
    : Type 0 where
  pub strategy_fits : FitsStrategy p p.strategy
  pub hardware_fits : FitsHardware t p caps
  pub requirements_met : IfSome (λ c. All (Meets c) (capability_requirements_for p)) caps

seq_iff : (m k : Result CompileError (Unit {0})) → ((m >> k) ≡ ok tt) ↔ ((m ≡ ok tt) × (k ≡ ok tt))
seq_iff (ok tt) k = ground arith
seq_iff (err e) k = ground arith

-- `validate_pipeline` accepts a pipeline exactly if it has what its strategy asks for, it fits the
-- hardware target, and a probed host meets each of its requirements.
pub validate_pipeline-IsCompilable :
    (m : CamlManifest) (p : PipelineNode) (caps : Option HostCapabilities)
    → (validate_pipeline m p caps ≡ ok tt) ↔ IsCompilable m.system.hardware_target caps p
unfolding validate_pipeline
validate_pipeline-IsCompilable m p caps = ground (
  arith,
  seq_iff (validate_shape p)
      (validate_hardware m.system.hardware_target p caps >> validate_requirements p caps),
  seq_iff (validate_hardware m.system.hardware_target p caps) (validate_requirements p caps),
  validate_shape_iff p,
  validate_hardware_iff m.system.hardware_target p caps,
  validate_requirements_iff p caps,
)

-- A compiled pipeline has the id, the requirements, the codec path and the pool of its node.
pub record Keeps (p : PipelineNode) (c : CompiledPipeline) : Type 0 where
  pub same_id : c.id ≡ p.id
  pub same_requirements : c.capability_requirements ≡ capability_requirements_for p
  pub same_codec : c.codec_path ≡ resolve_codec_path p
  pub same_backend : c.resolved_backend ≡ resolve_backend p
  pub same_runtime :
      c.runtime ≡ runtime_policy (map_option compile_network_profile p.network) p.strategy

pub compile_pipeline-Keeps :
    (p : PipelineNode) (vars : Variables) (c : CompiledPipeline)
    → compile_pipeline p vars ≡ ok c
    → Keeps p c
unfolding compile_pipeline
compile_pipeline-Keeps p vars c h =
    let (overlay, _, e) = >>=-eq-ok (transpose _ p.overlay) _ h in
    record {
      same_id = cc;
      same_requirements = cc;
      same_codec = cc;
      same_backend = cc;
      same_runtime = cc;
    }
