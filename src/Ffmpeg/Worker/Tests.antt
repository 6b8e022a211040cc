-- ===== src/Ffmpeg/Worker/Tests.antt =====
-- A camera that is transcoded in software, on a host that has what its overlay needs.
use caml.Base.Int.{negsuc}
use caml.Base.{◌≡◌, refl, ◌↔◌, true, false, [], ◌∷◌, some, none, ok}
use caml.Compiler.Types.{
  CompiledPipeline, CompiledProcessingProfile, CompiledOverlayProfile, CompiledOverlayLayer,
  ResolvedInputBackend, CodecPath, sentinel,
}
use caml.Ffmpeg.Worker.Accepts.{worker_spec_for_pipeline-IsServable}
use caml.Ffmpeg.Worker.Servable.{IsServable}
use caml.Ffmpeg.Worker.Succeeds.{Succeeds}
use caml.Ffmpeg.Checks.{
  Assets, about, best_video_stream, normalize_rotation, rotation_of, validate_overlay_runtime,
  validate_watermark_asset,
}
use caml.Ffmpeg.Worker.{
  software, device, transcode, worker_spec_for_pipeline, adapter, frame_duration_from_processing,
  input_spec_of, mode_of, transcode_backend_for_pipeline, transcode_mode, validate_encoder,
  validate_transcode_support,
}
use caml.Frontend.{InputType, StreamStrategy, OverlayPosition}
use caml.Text.{codes, text_eq, trim, to_ascii_lowercase}

abbrev assets : Assets
assets = record {
  init_ffmpeg = true;
  exists = λ path. false;
  metadata = λ path. ok (text_eq path (codes "logo.png"));
  best_video = λ path. ok true;
}

abbrev h264 : CompiledProcessingProfile
h264 = record {
  codec = codes " H264";
  encoder = codes "Software ";
  preset = codes "ultrafast";
  tune = codes "zerolatency";
  frame_rate = 30;
  bitrate_bps = 512_000;
  rotation = some (negsuc 89);
}

abbrev logo : CompiledOverlayProfile
logo = record {
  layers =
      CompiledOverlayLayer.watermark (record {
        image_path = codes "logo.png";
        position = OverlayPosition.top_left;
        max_width_px = none;
        opacity = 255;
        margin = 8;
      })
      ∷ [];
}

abbrev camera : CompiledPipeline
camera = record sentinel {
  id = codes "cam";
  input = record { kind = InputType.device; source = codes "/dev/video0" };
  resolved_backend = ResolvedInputBackend.v4l2_device;
  strategy = StreamStrategy.transcode;
  codec_path = CodecPath.software_transcode;
  processing = some h264;
  overlay = some logo;
}

camera_spec :
    (worker_spec_for_pipeline assets camera)
    ≡ ok (record {
      pipeline_id = codes "cam";
      input = codes "/dev/video0";
      input_spec = device ResolvedInputBackend.v4l2_device (some 30);
      mode = transcode h264 (some logo) software 33_333_333;
    })
unfolding sentinel worker_spec_for_pipeline about adapter best_video_stream
    frame_duration_from_processing input_spec_of mode_of normalize_rotation rotation_of
    transcode_backend_for_pipeline transcode_mode validate_encoder validate_overlay_runtime
    validate_transcode_support validate_watermark_asset codes text_eq trim to_ascii_lowercase
camera_spec = refl

worker_spec_for_pipeline-IsServable_example :
    Succeeds (worker_spec_for_pipeline assets camera) ↔ IsServable assets camera
worker_spec_for_pipeline-IsServable_example = worker_spec_for_pipeline-IsServable assets camera
