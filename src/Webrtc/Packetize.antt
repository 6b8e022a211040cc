-- ===== src/Webrtc/Packetize.antt =====
-- crates/caml-webrtc/src/lib.rs: `process_packet`, which turns one encoded packet into RTP packets and
-- writes them. The packetizer of the crate rtp and the writer are functions on a state of type `S`.
pub mod Samples
mod Tests
use Prim.Native.String.{String}
use mathlib.Core.Option
use caml.Base.{
  ℕ, ◌+◌, ◌*◌, ◌/◌, ◌^◌, Bool, not, List, [], ◌∷◌, ◌++◌, Option, none, some, unwrap_or, length,
  if◌then◌else◌, min, max, Result, ok, err, ◌-◌,
}
use caml.Runtime.Media.{RuntimeError, EncodedPacket, storage_slice}
use caml.Runtime.Pool.{BufferPool}
use caml.Text.{Text, codes, text_eq, to_ascii_lowercase}
use caml.Units.{Duration, from_millis}

abbrev pub default_frame_duration : Duration
default_frame_duration = from_millis 33

abbrev pub u32_max : ℕ
u32_max = 4_294_967_295

abbrev pub u128_max : ℕ
u128_max = 2 ^ 128 - 1

-- `eq_ignore_ascii_case`.
unfoldable pub eq_ignore_ascii_case : Text → Text → Bool
unfolding text_eq to_ascii_lowercase
eq_ignore_ascii_case a b = text_eq (to_ascii_lowercase a) (to_ascii_lowercase b)

-- `TrackPacketWriter::write_packet`: `none` is the timeout of 500 ms.
unfoldable pub track_write_packet : Option (Result Text ℕ) → Result RuntimeError (Unit {0})
track_write_packet none =
    err (RuntimeError.sink (codes "WebRTC track write stalled due to backpressure timeout"))
track_write_packet (some (ok n)) = ok tt
track_write_packet (some (err error)) =
    err (RuntimeError.sink (codes "failed to write RTP packet: " ++ error))

-- `saturating_mul` on u128 and `clamp`.
unfoldable pub saturating_mul_u128 : ℕ → ℕ → ℕ
saturating_mul_u128 a b = min (a * b) u128_max

unfoldable pub clamp : ℕ → ℕ → ℕ → ℕ
clamp low high n = min (max n low) high

unfoldable pub duration_to_rtp_samples_with_rate : Duration → ℕ → ℕ
unfolding saturating_mul_u128 clamp
duration_to_rtp_samples_with_rate duration clock_rate =
    clamp 1 u32_max (saturating_mul_u128 duration clock_rate / 1_000_000_000)

pub record WebRtcSenderConfig : Type 0 where
  pub pipeline_id : Text
  pub packet_size_limit : ℕ
  pub default_frame_duration : Option Duration
  pub codec : Text
  pub payload_type : ℕ
  pub ssrc : ℕ
  pub clock_rate : ℕ

-- The frame duration: the packet's, or that of the settings, or 33 ms.
abbrev pub or_else {ℓ} : {A : Type ℓ} → Option A → Option A → Option A
or_else none other = other
or_else (some a) other = some a

unfoldable pub frame_duration : WebRtcSenderConfig → EncodedPacket → Duration
frame_duration config packet =
    unwrap_or (or_else packet.duration config.default_frame_duration) default_frame_duration

-- The codec that the message on another codec names.
abbrev pub only_codec : WebRtcSenderConfig → Text
only_codec config =
    if eq_ignore_ascii_case config.codec (codes "h264") then codes "H.264" else config.codec

-- What came out, the state behind it, and the bytes of the event `WebRtcPacketizerCopy`, recorded
-- where there is an exporter.
pub record Processed (S : Type 0) : Type 0 where
  pub result : Result RuntimeError (Unit {0})
  pub state : S
  pub copied : Option ℕ

-- The `?` on a write.
abbrev pub write_rest {ℓ} :
    {S : Type ℓ}
    → Result RuntimeError (Unit {0}) × S
    → (S → Result RuntimeError (Unit {0}) × S)
    → Result RuntimeError (Unit {0}) × S
write_rest (ok tt, s) next = next s
write_rest (err error, s) next = (err error, s)

module _ {S P : Type 0} (packetize : List ℕ → ℕ → S → Result Text (List P) × S)
    (write_packet : P → S → Result RuntimeError (Unit {0}) × S) where
  -- `for rtp_packet in packets { writer.write_packet(..).await?; }`.
  unfoldable pub write_all : List P → S → Result RuntimeError (Unit {0}) × S
  write_all [] s = (ok tt, s)
  write_all (p ∷ packets) s = write_rest (write_packet p s) (λ s'. write_all packets s')

  unfoldable pub send_packets :
      WebRtcSenderConfig → Result Text (List P) × S → Result RuntimeError (Unit {0}) × S
  unfolding write_all
  send_packets config (err error, s) = (
    err (
        RuntimeError.sink (
          codes "pipeline '"
          ++ (config.pipeline_id
              ++ (codes "' failed to packetize H.264 RTP payloads: " ++ error)))),
    s,
  )
  send_packets config (ok packets, s) = write_all packets s

  -- What follows the check of the codec, on the bytes of the packet.
  unfoldable pub send_bytes : WebRtcSenderConfig → Bool → EncodedPacket → List ℕ → S → Processed S
  unfolding frame_duration duration_to_rtp_samples_with_rate send_packets
  send_bytes config metrics packet bytes s =
      let samples =
        duration_to_rtp_samples_with_rate (frame_duration config packet) config.clock_rate in
      let r = send_packets config (packetize bytes samples s) in
      record { result = r.0; state = r.1; copied = if metrics then some (length bytes) else none }

  -- `process_packet`, where `none` is a read through a stale handle.
  unfoldable pub process_packet :
      WebRtcSenderConfig → Bool → BufferPool → EncodedPacket → S → Option (Processed S)
  unfolding eq_ignore_ascii_case storage_slice send_bytes
  process_packet config metrics pool packet s =
      if not (eq_ignore_ascii_case packet.codec config.codec)
      then some record {
        result = err (
            RuntimeError.sink (
              codes "pipeline '"
              ++ (config.pipeline_id
                  ++ (codes "' emitted codec '"
                      ++ (packet.codec
                          ++ (codes "' but the current WebRTC sink only packetizes "
                              ++ only_codec config))))));
        state = s;
        copied = none;
      }
      else Option.map (λ bytes. send_bytes config metrics packet bytes s)
          (storage_slice pool packet.storage)
