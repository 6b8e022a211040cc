-- ===== src/Compiler/Pipeline.antt =====
-- crates/caml-core/src/compiler.rs: the compilation of one pipeline, and the checks before it.
pub mod Shape
mod Tests
use caml.Base.{
  ℕ, Bool, true, false, not, ◌&&◌, [], ◌++◌, Option, none, some, is_some, is_none, is_some_and,
  unwrap_or, Result, ok, err, ◌>>=◌, ◌>>◌, reject_if, try_each,
}
use caml.Compiler.Host.{HostCapabilities, pipeline_message, validate_for}
use caml.Compiler.Overlay.{Variables, compile_overlay_profile}
use caml.Compiler.Resolve.{
  resolve_backend, resolve_execution_mode, names_hardware, resolve_codec_path,
  capability_requirements_for, recovery_policy_for,
}
use caml.Compiler.Types.{
  CompileError, hardware_mismatch, invalid_configuration, unsupported_capability,
  CompiledNetworkProfile, CompiledProcessingProfile, RuntimePolicy, CompiledPipeline,
  CompiledOverlayProfile,
}
use caml.Frontend.{
  HardwareTarget, StreamStrategy, NetworkProfile, ProcessingProfile, PipelineNode, CamlManifest,
}
use caml.Text.{Text, codes}
use caml.Units.{from_secs}

-- `compile_network_profile` and `compile_processing_profile`.
abbrev pub compile_network_profile : NetworkProfile → CompiledNetworkProfile
compile_network_profile n = record {
  transport = n.transport;
  packet_size_limit = n.packet_size_limit;
  stall_timeout = n.stall_timeout;
}

abbrev pub compile_processing_profile : ProcessingProfile → CompiledProcessingProfile
compile_processing_profile p = record {
  codec = p.codec;
  encoder = p.encoder;
  preset = p.preset;
  tune = p.tune;
  frame_rate = p.frame_rate;
  bitrate_bps = p.bitrate.as_bits_per_second;
  rotation = p.rotation;
}

-- `Option::map`.
abbrev pub map_option {ℓ κ} : {A : Type ℓ} {B : Type κ} → (A → B) → Option A → Option B
map_option f none = none
map_option f (some a) = some (f a)

-- `option.map(f).transpose()?`.
abbrev pub transpose {ε ℓ κ} :
    {E : Type ε} {A : Type ℓ} {B : Type κ} → (A → Result E B) → Option A → Result E (Option B)
transpose f none = ok none
transpose f (some a) = f a >>= λ b. ok (some b)

-- The number of buffers of `compile_pipeline`.
abbrev pub buffer_count_for : StreamStrategy → ℕ
buffer_count_for StreamStrategy.passthrough = 100
buffer_count_for StreamStrategy.transcode = 64
buffer_count_for StreamStrategy.hardware_decode = 32

-- The `RuntimePolicy` of `compile_pipeline`, with the defaults of the constants.
unfoldable pub runtime_policy : Option CompiledNetworkProfile → StreamStrategy → RuntimePolicy
runtime_policy network strategy = record {
  buffer_size = unwrap_or (map_option (λ profile. profile.packet_size_limit) network) 2_048;
  watchdog_timeout =
      unwrap_or (map_option (λ profile. profile.stall_timeout) network) (from_secs 10);
  buffer_count = buffer_count_for strategy;
}

-- `compile_pipeline`, and what it builds once the overlay is compiled.
abbrev pub compiled_with : PipelineNode → Option CompiledOverlayProfile → CompiledPipeline
compiled_with p overlay =
    let network = map_option compile_network_profile p.network in
    record {
      id = p.id;
      input = record { kind = p.input_type; source = p.input };
      strategy = p.strategy;
      network = network;
      processing = map_option compile_processing_profile p.processing;
      overlay = overlay;
      runtime = runtime_policy network p.strategy;
      resolved_backend = resolve_backend p;
      execution_mode = resolve_execution_mode p.strategy;
      codec_path = resolve_codec_path p;
      recovery = recovery_policy_for p;
      capability_requirements = capability_requirements_for p;
      outputs = p.outputs;
    }

unfoldable pub compile_pipeline : PipelineNode → Variables → Result CompileError CompiledPipeline
compile_pipeline p overlay_variables = do
  overlay ← transpose (λ profile. compile_overlay_profile p.id profile overlay_variables) p.overlay
  ok (compiled_with p overlay)

-- `strategy` and `hardware_target` compared with one value.
abbrev pub is_passthrough : StreamStrategy → Bool
is_passthrough StreamStrategy.passthrough = true
is_passthrough _ = false

abbrev pub is_transcode : StreamStrategy → Bool
is_transcode StreamStrategy.transcode = true
is_transcode _ = false

abbrev pub is_hardware_decode : StreamStrategy → Bool
is_hardware_decode StreamStrategy.hardware_decode = true
is_hardware_decode _ = false

abbrev pub is_pi4 : HardwareTarget → Bool
is_pi4 HardwareTarget.raspberry_pi4 = true
is_pi4 _ = false

abbrev pub is_pi5 : HardwareTarget → Bool
is_pi5 HardwareTarget.raspberry_pi5 = true
is_pi5 _ = false

-- The five checks of `validate_pipeline` on the strategy.
unfoldable pub validate_shape : PipelineNode → Result CompileError (Unit {0})
validate_shape p = do
  reject_if (is_passthrough p.strategy && is_some p.processing) (
      invalid_configuration
        (pipeline_message p.id "' defines processing but is marked as passthrough"))
  reject_if (is_passthrough p.strategy && is_none p.network) (
      invalid_configuration
        (pipeline_message p.id "' uses passthrough and requires a network profile"))
  reject_if (is_passthrough p.strategy && is_some p.overlay) (
      invalid_configuration (
        pipeline_message p.id
          "' defines overlay but overlays require transcode or hardware_decode"))
  reject_if (is_transcode p.strategy && is_none p.processing) (
      invalid_configuration
        (pipeline_message p.id "' uses transcode and requires a processing profile"))
  reject_if (is_hardware_decode p.strategy && is_none p.processing) (
      invalid_configuration
        (pipeline_message p.id "' uses hardware_decode and requires a processing profile"))

-- The three checks of `validate_pipeline` on the hardware target.
abbrev pub pi5_encoder_message : Text → Text → Text
pi5_encoder_message id encoder =
    codes "pipeline '"
    ++ (id
        ++ (codes "' cannot use '"
            ++ (encoder ++ codes "' on Raspberry Pi 5; use software encoding instead")))

unfoldable pub validate_hardware :
    HardwareTarget → PipelineNode → Option HostCapabilities → Result CompileError (Unit {0})
validate_hardware target p capabilities = do
  reject_if
      (is_pi5 target && is_some_and p.processing λ processing. names_hardware processing.encoder)
      (hardware_mismatch (
        pi5_encoder_message p.id
          (unwrap_or (map_option (λ processing. processing.encoder) p.processing) [])))
  reject_if
      (is_pi4 target
        && (is_some_and p.processing (λ processing. names_hardware processing.encoder)
            && is_some_and capabilities λ caps. not caps.has_pi4_h264_encoder))
      (unsupported_capability (
        pipeline_message p.id
          "' requested Raspberry Pi 4 hardware encoding but no Pi 4 H.264 encoder was detected"))
  reject_if
      (is_hardware_decode p.strategy
        && (is_pi5 target && is_some_and capabilities λ caps. not caps.has_pi5_stateless_decoder))
      (unsupported_capability (
        pipeline_message p.id
          "' requested Raspberry Pi 5 hardware decode but no stateless decoder was detected"))

-- `if let Some(capabilities) = capabilities` with its loop.
unfoldable pub validate_requirements :
    PipelineNode → Option HostCapabilities → Result CompileError (Unit {0})
validate_requirements p none = ok tt
validate_requirements p (some capabilities) =
    try_each (λ requirement. validate_for requirement p.id capabilities)
      (capability_requirements_for p)

-- `validate_pipeline`.
unfoldable pub validate_pipeline :
    CamlManifest → PipelineNode → Option HostCapabilities → Result CompileError (Unit {0})
validate_pipeline manifest p capabilities = do
  validate_shape p
  validate_hardware manifest.system.hardware_target p capabilities
  validate_requirements p capabilities
