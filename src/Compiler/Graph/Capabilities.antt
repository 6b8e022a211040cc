-- ===== src/Compiler/Graph/Capabilities.antt =====
-- What a compiled graph promises about the host.
use caml.Base.{◌≡◌, ◌≢◌, sym, ◌∙◌, false, Option, some, ok, arith, All}
use caml.Compiler.Graph.Ids.{compile_internal-cases}
use caml.Compiler.Graph.Loop.{AllCompile-All}
use caml.Compiler.Graph.{compile_internal}
use caml.Compiler.Host.Meets.{Meets, FitsTarget, validate_host_target_iff}
use caml.Compiler.Host.{HostCapabilities}
use caml.Compiler.Overlay.{Variables}
use caml.Compiler.Pipeline.Shape.{
  FitsHardware, validate_pipeline-IsCompilable, compile_pipeline-Keeps,
}
use caml.Compiler.Resolve.{resolve_codec_path, strategy_path, names_hardware}
use caml.Compiler.Types.{CodecPath, CompiledPipeline, CompiledGraph}
use caml.Frontend.{raspberry_pi5, StreamStrategy, PipelineNode, ProcessingProfile, CamlManifest}
use caml.Frontend.WellFormed.{IfSome}

-- If a graph is compiled against a probed host: the host fits the target, and meets every requirement of every pipeline.
pub compile_internal-Meets :
    (m : CamlManifest) (c : HostCapabilities) (vars : Variables) (g : CompiledGraph)
    → compile_internal m (some c) vars ≡ ok g
    → FitsTarget c m.system.hardware_target
      × All (λ p. All (Meets c) p.capability_requirements) g.pipelines
compile_internal-Meets m c vars g h =
    let (host, _, all, _) = compile_internal-cases m (some c) vars g h in
    (
      (validate_host_target_iff m.system.hardware_target c).0 host,
      AllCompile-All m (some c) vars (λ p. All (Meets c) p.capability_requirements)
          (λ p q valid compiled.
            rw (compile_pipeline-Keeps p vars q compiled).same_requirements
              ((validate_pipeline-IsCompilable m p (some c)).0 valid).requirements_met)
          m.pipelines g.pipelines all,
    )

not_hardware :
    (s : StreamStrategy) (q : Option ProcessingProfile)
    → IfSome (λ q. names_hardware q.encoder ≡ false) q
    → strategy_path s q ≢ CodecPath.hardware_transcode
not_hardware s q h e = ground arith

pi5_node :
    (p : PipelineNode) (q : CompiledPipeline) (caps : Option HostCapabilities)
    → q.codec_path ≡ resolve_codec_path p
    → FitsHardware raspberry_pi5 p caps
    → q.codec_path ≢ CodecPath.hardware_transcode
unfolding resolve_codec_path
pi5_node p q caps e fits bad = not_hardware p.strategy p.processing fits.0 (sym e ∙ bad)

-- In a graph compiled for a Raspberry Pi 5, probed or not, no pipeline transcodes in hardware.
pub compile_internal-pi5_encoder :
    (m : CamlManifest) (caps : Option HostCapabilities) (vars : Variables) (g : CompiledGraph)
    → m.system.hardware_target ≡ raspberry_pi5
    → compile_internal m caps vars ≡ ok g
    → All (λ p. p.codec_path ≢ CodecPath.hardware_transcode) g.pipelines
compile_internal-pi5_encoder m caps vars g t h =
    let (_, _, all, _) = compile_internal-cases m caps vars g h in
    AllCompile-All m caps vars (λ p. p.codec_path ≢ CodecPath.hardware_transcode)
      (λ p q valid compiled.
        let fits = ((validate_pipeline-IsCompilable m p caps).0 valid).hardware_fits in
        pi5_node p q caps (compile_pipeline-Keeps p vars q compiled).same_codec (rw t at fits))
      m.pipelines g.pipelines all
