-- ===== src/Compiler/Pipeline/Tests.antt =====
-- One pipeline and its checks.
use caml.Base.{◌≡◌, ◌↔◌, refl, none, some, ok, err}
use caml.Compiler.Host.{pipeline_message}
use caml.Compiler.Pipeline.Shape.{IsCompilable, validate_pipeline-IsCompilable}
use caml.Compiler.Pipeline.{validate_shape, validate_pipeline}
use caml.Compiler.Types.{invalid_configuration}
use caml.Frontend.Validate.Samples.{front, x264, house}
use caml.Frontend.{raspberry_pi5}

no_processing :
    validate_pipeline (house raspberry_pi5) (record front { processing = some x264 }) none
    ≡ err (
        invalid_configuration
          (pipeline_message front.id "' defines processing but is marked as passthrough"))
unfolding validate_pipeline validate_shape
no_processing = refl

validate_pipeline-IsCompilable_example :
    (validate_pipeline (house raspberry_pi5) front none ≡ ok tt)
    ↔ IsCompilable raspberry_pi5 none front
validate_pipeline-IsCompilable_example =
    validate_pipeline-IsCompilable (house raspberry_pi5) front none
