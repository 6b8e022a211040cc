-- ===== src/Frontend/Validate/Samples.antt =====
-- Manifests to run the code on: a relayed network camera and a local camera with an overlay.
use caml.Base.{[], ◌∷◌, ◌≡◌, refl, none, some, if◌then◌else◌, ok, err}
use caml.Frontend.{
  HardwareTarget, generic_linux, InputType, StreamStrategy, tcp, ProcessingProfile, OverlayPosition,
  OverlayLayer, PipelineNode, CamlManifest, UrlParser,
}
use caml.Text.{codes, text_eq, starts_with, contains}
use caml.Frontend.Validate.{
  validate, validate_pipeline_node, validate_strategy, validate_overlay, validate_input,
  validate_rtsp_input, validate_url, validate_overlay_profile, validate_overlay_layer,
  validate_text_overlay_style, validate_device_input, looks_like_path,
}
use caml.Units.{from_secs}

-- A parser that knows one address.
abbrev pub knows_front : UrlParser
knows_front t =
    if text_eq t (codes "rtsp://cam/1")
    then ok (record { scheme = codes "rtsp"; host_str = some (codes "cam") })
    else err (codes "relative URL without a base")

abbrev pub front : PipelineNode
front = record {
  id = codes "front";
  input = codes "rtsp://cam/1";
  input_type = InputType.rtsp;
  strategy = StreamStrategy.passthrough;
  backend = none;
  network =
      some (record { transport = tcp; packet_size_limit = 1_200; stall_timeout = from_secs 5 });
  capture = none;
  processing = none;
  overlay = none;
  outputs = [];
}

abbrev pub x264 : ProcessingProfile
x264 = record {
  codec = codes "h264";
  encoder = codes "libx264";
  preset = codes "ultrafast";
  tune = codes "zerolatency";
  frame_rate = 30;
  bitrate = record { as_bits_per_second = 2_000_000 };
  rotation = none;
}

abbrev label : OverlayLayer
label = OverlayLayer.text (codes "{ camera_id }: {site}") OverlayPosition.top_left (record {
  font_size = some 24;
  font_color = none;
  background_color = none;
  background_alpha = some 100;
  padding = none;
  margin = none;
})

abbrev pub porch : PipelineNode
porch = record {
  id = codes "porch";
  input = codes "/dev/video0";
  input_type = InputType.device;
  strategy = StreamStrategy.transcode;
  backend = none;
  network = none;
  capture = none;
  processing = some x264;
  overlay = some (record { layers = label ∷ [] });
  outputs = [];
}

abbrev pub house : HardwareTarget → CamlManifest
house target = record {
  version = some 1;
  system = record {
    hardware_target = target;
    cma_allocation_limit = none;
    media_memory_limit = some (record { as_bytes = 64_000_000 });
  };
  pipelines = front ∷ porch ∷ [];
}

pub house_is_valid : validate knows_front (house generic_linux) ≡ ok tt
unfolding validate validate_pipeline_node validate_strategy validate_overlay validate_input
    validate_rtsp_input validate_url text_eq codes validate_overlay_profile validate_overlay_layer
    validate_text_overlay_style validate_device_input looks_like_path starts_with contains
house_is_valid = refl
