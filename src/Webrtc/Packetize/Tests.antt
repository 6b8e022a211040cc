-- ===== src/Webrtc/Packetize/Tests.antt =====
-- `process_packet`: runs, and the theorem at an example.
use caml.Base.{ℕ, ◌*◌, ◌≡◌, refl, true, List, [], ◌∷◌, ◌++◌, none, some, Result, ok}
use caml.Runtime.Media.{EncodedPacket, owned, RuntimeError}
use caml.Runtime.Pool.{BufferPool}
use caml.Text.{Text, codes}
use caml.Webrtc.Packetize.{WebRtcSenderConfig, duration_to_rtp_samples_with_rate, process_packet}
use caml.Webrtc.Packetize.Samples.{IsTicks, duration_to_rtp_samples_with_rate-IsTicks}

-- A packetizer that gives each byte a packet, and a writer that keeps what it wrote.
abbrev byte_packets : List ℕ → ℕ → List ℕ → Result Text (List ℕ) × List ℕ
byte_packets bytes samples written = (ok bytes, written)

abbrev keeps_packet : ℕ → List ℕ → Result RuntimeError (Unit {0}) × List ℕ
keeps_packet packet written = (ok tt, written ++ packet ∷ [])

abbrev front_config : WebRtcSenderConfig
front_config = record {
  pipeline_id = codes "front";
  packet_size_limit = 1200;
  default_frame_duration = none;
  codec = codes "H264";
  payload_type = 102;
  ssrc = 7;
  clock_rate = 90_000;
}

abbrev two_bytes : EncodedPacket
two_bytes = record {
  codec = codes "h264";
  timestamp = none;
  duration = none;
  is_keyframe = true;
  storage = owned (5 ∷ 6 ∷ []);
}

abbrev no_pool : BufferPool
no_pool = record {
  slots = [];
  free_indices = [];
  allocated_count = 0;
  high_watermark = 0;
  buffer_size = 1;
}

writes_all :
    process_packet byte_packets keeps_packet front_config true no_pool two_bytes []
    ≡ some record { result = ok tt; state = 5 ∷ 6 ∷ []; copied = some 2 }
unfolding process_packet codes
writes_all = refl

frame_of_33_ms : duration_to_rtp_samples_with_rate 33_000_000 90_000 ≡ 2970
unfolding duration_to_rtp_samples_with_rate
frame_of_33_ms = refl

duration_to_rtp_samples_with_rate-IsTicks_example :
    IsTicks (33_000_000 * 90_000) (duration_to_rtp_samples_with_rate 33_000_000 90_000)
duration_to_rtp_samples_with_rate-IsTicks_example =
    duration_to_rtp_samples_with_rate-IsTicks 33_000_000 90_000
