-- ===== src/Compiler/Graph/Tests.antt =====
-- Graphs of two small manifests.
use caml.Base.{
  ◌≡◌, ◌≢◌, ◌≤◌, refl, ◌↔◌, true, All, min, ltb, if◌then◌else◌, false, [], ◌∷◌, none, some, ok, err,
  arith,
}
use caml.Compiler.Graph.Budget.{plan_graph_lem, planned, pool_total, limit}
use caml.Compiler.Graph.Capabilities.{compile_internal-Meets, compile_internal-pi5_encoder}
use caml.Compiler.Graph.Loop.{node_ids, compiled_ids, Unique}
use caml.Compiler.Host.Meets.{Meets, FitsTarget}
use caml.Compiler.Graph.Ids.{compile_internal-ids}
use caml.Compiler.Graph.Succeeds.{
  IsGraphOf, compile_internal-IsGraphOf, compile_total, node_total, HasOverlay,
}
use caml.Compiler.Graph.{
  compile_internal, compile_pipelines, member, plan_graph, plan_pools, pool_bytes,
  compile_with_overlay_variables,
}
use caml.Compiler.Resolve.{
  capability_requirements_for, names_hardware, is_text_layer, is_watermark_layer,
}
use caml.Compiler.Host.{validate_host_target, validate_for, HostCapabilities, no_capabilities, pi5}
use caml.Compiler.Overlay.Layers.{scope}
use caml.Compiler.Overlay.Template.{Expands, expand_overlay_template-Expands}
use caml.Compiler.Overlay.{
  get, insert, compile_overlay_profile, expand_overlay_template, expand_from, expand_char,
  substitute, compile_overlay_layer, overlay_variables_for_pipeline, Variables,
}
use caml.Compiler.Pipeline.{
  compile_pipeline, runtime_policy, validate_pipeline, validate_shape, validate_hardware,
  validate_requirements,
}
use caml.Compiler.Types.{CodecPath, CompiledGraph, duplicate_pipeline_id, resource_limit_exceeded}
use caml.Frontend.Validate.Samples.{knows_front, front, porch, house, house_is_valid}
use caml.Frontend.{generic_linux, raspberry_pi5}
use caml.Text.Equality.{text_eq_iff}
use caml.Text.{codes, text_eq, trim, to_ascii_lowercase, u64_max}

abbrev vars : Variables
vars = (codes "site", codes "home") ∷ []

abbrev pi5_host : HostCapabilities
pi5_host = record no_capabilities {
  ffmpeg_available = true;
  v4l2_available = true;
  rtp_packetization_available = true;
  pi_model = some pi5;
  has_drawtext_filter = true;
}

house_compiles : (g : CompiledGraph) × (compile_internal (house generic_linux) none vars ≡ ok g)
unfolding compile_internal compile_pipelines member validate_pipeline validate_shape
    validate_hardware validate_requirements compile_pipeline text_eq codes compile_overlay_profile
    expand_overlay_template expand_from expand_char substitute compile_overlay_layer
    overlay_variables_for_pipeline trim validate_host_target validate_for plan_graph plan_pools
    pool_bytes runtime_policy capability_requirements_for names_hardware get insert
    to_ascii_lowercase is_text_layer is_watermark_layer
house_compiles = (_, refl)

pi5_compiles :
    (g : CompiledGraph) × (compile_internal (house raspberry_pi5) (some pi5_host) vars ≡ ok g)
unfolding compile_internal compile_pipelines member validate_pipeline validate_shape
    validate_hardware validate_requirements compile_pipeline text_eq codes compile_overlay_profile
    expand_overlay_template expand_from expand_char substitute compile_overlay_layer
    overlay_variables_for_pipeline trim validate_host_target validate_for plan_graph plan_pools
    pool_bytes runtime_policy capability_requirements_for names_hardware get insert
    to_ascii_lowercase is_text_layer is_watermark_layer
pi5_compiles = (_, refl)

-- The second camera of the same name is refused.
twice :
    compile_internal (record (house generic_linux) { pipelines = front ∷ front ∷ [] }) none vars
    ≡ err (duplicate_pipeline_id (codes "front"))
unfolding compile_internal compile_pipelines member validate_pipeline validate_shape
    validate_hardware validate_requirements compile_pipeline text_eq codes
twice = refl

-- Pools that do not fit a limit of 250,000 bytes.
too_small :
    compile_internal
      (record (house generic_linux) {
        system = record {
          hardware_target = generic_linux;
          cma_allocation_limit = some (record { as_bytes = 250_000 });
          media_memory_limit = none;
        };
      })
      none
      vars
    ≡ err (resource_limit_exceeded 250_000 251_072)
unfolding compile_internal compile_pipelines member validate_pipeline validate_shape
    validate_hardware validate_requirements compile_pipeline text_eq codes compile_overlay_profile
    expand_overlay_template expand_from expand_char substitute compile_overlay_layer
    overlay_variables_for_pipeline trim validate_host_target validate_for plan_graph plan_pools
    pool_bytes runtime_policy capability_requirements_for names_hardware get insert
    to_ascii_lowercase is_text_layer is_watermark_layer
too_small = refl

compile_internal-IsGraphOf_example :
    (compile_internal (house raspberry_pi5) (some pi5_host) vars ≡ ok pi5_compiles.0)
    ↔ IsGraphOf (house raspberry_pi5) (some pi5_host) vars pi5_compiles.0
compile_internal-IsGraphOf_example =
    compile_internal-IsGraphOf (house raspberry_pi5) (some pi5_host) vars pi5_compiles.0

-- The label of the porch, with the id of its camera and the caller's site.
label_means :
    Expands (scope (codes "porch") vars) (codes "{ camera_id }: {site}") (codes "porch: home")
unfolding codes trim get text_eq expand_overlay_template expand_from expand_char substitute
label_means =
    (expand_overlay_template-Expands (codes "porch") (scope (codes "porch") vars)
        (codes "{ camera_id }: {site}") (codes "porch: home")).0
      refl

overlays_mean : HasOverlay vars front × (HasOverlay vars porch × Unit {0})
overlays_mean = (tt, (((codes "porch: home", label_means), tt), tt))

ids_differ : Unique (node_ids (house generic_linux).pipelines)
unfolding codes text_eq
ids_differ = (
  (λ e. let same : false ≡ true = (text_eq_iff (codes "porch") (codes "front")).1 e in cc same, tt),
  (tt, tt),
)

pools_fit :
    min (node_total (house generic_linux).pipelines) u64_max ≤ limit (house generic_linux).system
unfolding runtime_policy
pools_fit = omega arith

compile_total_example :
    (g : CompiledGraph) × (compile_with_overlay_variables (house generic_linux) vars ≡ ok g)
compile_total_example =
    compile_total (house generic_linux) vars refl knows_front house_is_valid ids_differ
      overlays_mean pools_fit

compile_internal-Meets_example :
    FitsTarget pi5_host raspberry_pi5
    × All (λ p. All (Meets pi5_host) p.capability_requirements) pi5_compiles.0.pipelines
compile_internal-Meets_example =
    compile_internal-Meets (house raspberry_pi5) pi5_host vars pi5_compiles.0 pi5_compiles.1

compile_internal-pi5_encoder_example :
    All (λ p. p.codec_path ≢ CodecPath.hardware_transcode) pi5_compiles.0.pipelines
compile_internal-pi5_encoder_example =
    compile_internal-pi5_encoder (house raspberry_pi5) (some pi5_host) vars pi5_compiles.0 refl
      pi5_compiles.1

compile_internal-ids_example :
    (compiled_ids house_compiles.0.pipelines ≡ node_ids (house generic_linux).pipelines)
    × Unique (compiled_ids house_compiles.0.pipelines)
compile_internal-ids_example =
    compile_internal-ids (house generic_linux) none vars house_compiles.0 house_compiles.1

plan_graph_lem_example : plan_graph (house generic_linux).system house_compiles.0.pipelines ≡ (
    if ltb
      (limit (house generic_linux).system)
      (min (pool_total house_compiles.0.pipelines) u64_max)
    then err (
        resource_limit_exceeded
          (limit (house generic_linux).system)
          (min (pool_total house_compiles.0.pipelines) u64_max))
    else ok (planned (house generic_linux).system house_compiles.0.pipelines))
plan_graph_lem_example = plan_graph_lem (house generic_linux).system house_compiles.0.pipelines
