-- ===== src/Webrtc/Factory/Tests.antt =====
-- The factory: the theorems at examples.
use caml.Base.{ℕ, ◌≤◌, ◌≡◌, refl, ◌↔◌, false, List, [], ◌∷◌, none, some, length, ok}
use caml.Compiler.Types.{CompiledPipeline, sentinel}
use caml.Frontend.{WebrtcRtp, webrtc_rtp}
use caml.Frontend
use caml.Runtime.Media.{drop_oldest, end_of_stream}
use caml.Text.{Text, codes}
use caml.Webrtc.Factory.{build_sink}
use caml.Webrtc.Factory.Built.{wanted_limit, build_sink-IsBuilt, build_sink-Fits}
use caml.Webrtc.Factory.Wanted.{IsBuilt}
use caml.Webrtc.Packetize.{WebRtcSenderConfig}
use caml.Webrtc.Sink.{WebRtcSink}
use caml.Webrtc.Sink.Machine.{Action, consume, producer_goes, start, run}

abbrev settings : WebrtcRtp
settings = record {
  codec = none;
  payload_type = none;
  mtu = some 1400;
  ssrc = some (codes "77");
  clock_rate = none;
  queue_limit = some 3;
  drop_policy = Frontend.DropPolicy.drop_oldest;
}

abbrev camera : CompiledPipeline
camera = record sentinel { outputs = webrtc_rtp settings ∷ [] }

abbrev no_hash : Text → ℕ
no_hash text = 0

abbrev camera_sink : WebRtcSink
camera_sink = record { pipeline_id = camera.id; queue_limit = 3; drop_policy = drop_oldest }

abbrev camera_config : WebRtcSenderConfig
camera_config = record {
  pipeline_id = camera.id;
  packet_size_limit = 1400;
  default_frame_duration = none;
  codec = codes "h264";
  payload_type = 102;
  ssrc = 77;
  clock_rate = 90_000;
}

builds_camera : build_sink no_hash camera ≡ ok (camera_sink, camera_config)
unfolding build_sink sentinel codes
builds_camera = refl

build_sink-IsBuilt_example :
    (build_sink no_hash camera ≡ ok (camera_sink, camera_config))
    ↔ IsBuilt no_hash camera camera_sink camera_config
build_sink-IsBuilt_example = build_sink-IsBuilt no_hash camera camera_sink camera_config

abbrev some_actions : List Action
some_actions = consume end_of_stream ∷ producer_goes ∷ []

build_sink-Fits_example :
    length (run camera_sink false some_actions start).shared.queue ≤ wanted_limit camera
build_sink-Fits_example =
    build_sink-Fits no_hash camera camera_sink camera_config false some_actions builds_camera
