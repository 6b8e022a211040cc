-- ===== src/Frontend.antt =====
-- crates/caml-core/src/frontend.rs, the manifest's types, and the `ManifestError` of error.rs.
-- Texts stand for `String`, numbers for the unsigned integers (u8, u32, u64, usize), whose ranges
-- serde has checked. The errors of the file system and of the YAML parser are their messages.
-- `validate` and the reading of a manifest are in Frontend/Validate.
pub mod Validate
pub mod WellFormed
use caml.Base.Int.{ℤ}
use caml.Base.{ℕ, List, Option, Result}
use caml.Text.{Text}
use caml.Units.{ByteSize, Bitrate, Duration}

pub data HardwareTarget : Type 0 where
  raspberry_pi4 raspberry_pi5 generic_linux : HardwareTarget

pub data InputType : Type 0 where
  rtsp device : InputType

pub data StreamStrategy : Type 0 where
  passthrough transcode hardware_decode : StreamStrategy

pub data Transport : Type 0 where
  tcp udp : Transport

pub data InputBackend : Type 0 where
  auto ffmpeg v4l2 libcamera : InputBackend

pub record NetworkProfile : Type 0 where
  pub transport : Transport
  pub packet_size_limit : ℕ
  pub stall_timeout : Duration

pub data DropPolicy : Type 0 where
  block drop_oldest drop_newest : DropPolicy

pub record WebrtcRtp : Type 0 where
  pub codec : Option Text
  pub payload_type : Option ℕ
  pub mtu : Option ℕ
  pub ssrc : Option Text
  pub clock_rate : Option ℕ
  pub queue_limit : Option ℕ
  pub drop_policy : DropPolicy

pub data OutputProfile : Type 0 where
  webrtc_rtp : WebrtcRtp → OutputProfile
  recording : (queue_limit : Option ℕ) → (drop_policy : DropPolicy) → OutputProfile

pub record CaptureProfile : Type 0 where
  pub width : ℕ
  pub height : ℕ
  pub pixel_format : Text
  pub frame_rate : ℕ

pub record ProcessingProfile : Type 0 where
  pub codec : Text
  pub encoder : Text
  pub preset : Text
  pub tune : Text
  pub frame_rate : ℕ
  pub bitrate : Bitrate
  pub rotation : Option ℤ

pub data OverlayPosition : Type 0 where
  top_left top_right bottom_left bottom_right : OverlayPosition

pub data TimestampSource : Type 0 where
  wall_clock : TimestampSource

pub data OverlayTimezone : Type 0 where
  local utc : OverlayTimezone

pub record TextOverlayStyle : Type 0 where
  pub font_size : Option ℕ
  pub font_color : Option Text
  pub background_color : Option Text
  pub background_alpha : Option ℕ
  pub padding : Option ℕ
  pub margin : Option ℕ

pub data OverlayLayer : Type 0 where
  timestamp :
      (position : OverlayPosition)
      → (source : TimestampSource) → (timezone : OverlayTimezone) → (format : Option Text)
      → (style : TextOverlayStyle) → OverlayLayer
  text : (text : Text) → (position : OverlayPosition) → (style : TextOverlayStyle) → OverlayLayer
  watermark :
      (image_path : Text)
      → (position : OverlayPosition) → (max_width_px opacity margin : Option ℕ) → OverlayLayer

pub record OverlayProfile : Type 0 where
  pub layers : List OverlayLayer

pub record PipelineNode : Type 0 where
  pub id : Text
  pub input : Text
  pub input_type : InputType
  pub strategy : StreamStrategy
  pub backend : Option InputBackend
  pub network : Option NetworkProfile
  pub capture : Option CaptureProfile
  pub processing : Option ProcessingProfile
  pub overlay : Option OverlayProfile
  pub outputs : List OutputProfile

pub record SystemConfig : Type 0 where
  pub hardware_target : HardwareTarget
  pub cma_allocation_limit : Option ByteSize
  pub media_memory_limit : Option ByteSize

pub record CamlManifest : Type 0 where
  pub version : Option ℕ
  pub system : SystemConfig
  pub pipelines : List PipelineNode

pub data ManifestError : Type 0 where
  io yaml validation : Text → ManifestError

-- What the program reads of a `url::Url`.
pub record ParsedUrl : Type 0 where
  pub scheme : Text
  pub host_str : Option Text

-- The code behind the manifest that is not the repository's: `Url::parse`, with the message of its
-- error, and the deserialization of YAML, with its message.
abbrev pub UrlParser : Type 0
UrlParser = Text → Result Text ParsedUrl

abbrev pub YamlParser : Type 0
YamlParser = Text → Result Text CamlManifest
