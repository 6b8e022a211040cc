-- ===== src/Runtime/Media.antt =====
-- crates/caml-core/src/runtime.rs: what moves through a pipeline, and the recording sink; with the
-- RuntimeError of error.rs. A slice that is borrowed or mapped is its bytes; a pooled one is read from
-- the pool, where `none` is a read through a stale handle. The field `data` is called `storage`.
mod Tests
use Prim.Native.String.{String}
use caml.Base.{
  ℕ, Bool, true, false, ◌==◌, List, [], ◌∷◌, ◌++◌, Option, none, some, length, Result, ok,
}
use mathlib.Core.Option
use caml.Runtime.Pool.{BufferPool, PooledBuffer, as_slice, pooled_len}
use caml.Text.{Text, codes}
use caml.Units.{Duration}

pub data RuntimeError : Type 0 where
  adapter recoverable source transform sink pipeline join : Text → RuntimeError

unfoldable pub is_recoverable : RuntimeError → Bool
is_recoverable (RuntimeError.recoverable message) = true
is_recoverable _ = false

-- `to_string`.
unfoldable pub error_text : RuntimeError → Text
error_text (RuntimeError.adapter message) = codes "adapter error: " ++ message
error_text (RuntimeError.recoverable message) = codes "recoverable runtime error: " ++ message
error_text (RuntimeError.source message) = codes "source error: " ++ message
error_text (RuntimeError.transform message) = codes "transform error: " ++ message
error_text (RuntimeError.sink message) = codes "sink error: " ++ message
error_text (RuntimeError.pipeline message) = codes "pipeline error: " ++ message
error_text (RuntimeError.join message) = codes "task join error: " ++ message

pub data MediaStorage : Type 0 where
  pooled : PooledBuffer → MediaStorage
  owned borrowed_slice mapped_frame ffmpeg_packet : List ℕ → MediaStorage

-- `MediaStorage::as_slice`, `len` and `is_empty`.
unfoldable pub storage_slice : BufferPool → MediaStorage → Option (List ℕ)
unfolding as_slice
storage_slice pool (pooled buf) = as_slice buf pool
storage_slice pool (owned bytes) = some bytes
storage_slice pool (borrowed_slice bytes) = some bytes
storage_slice pool (mapped_frame bytes) = some bytes
storage_slice pool (ffmpeg_packet bytes) = some bytes

unfoldable pub storage_len : BufferPool → MediaStorage → Option ℕ
unfolding pooled_len
storage_len pool (pooled buf) = pooled_len buf pool
storage_len pool (owned bytes) = some (length bytes)
storage_len pool (borrowed_slice bytes) = some (length bytes)
storage_len pool (mapped_frame bytes) = some (length bytes)
storage_len pool (ffmpeg_packet bytes) = some (length bytes)

pub storage_is_empty : BufferPool → MediaStorage → Option Bool
unfolding storage_len
storage_is_empty pool storage = Option.map (λ n. n == 0) (storage_len pool storage)

pub record EncodedPacket : Type 0 where
  pub codec : Text
  pub timestamp : Option Duration
  pub duration : Option Duration
  pub is_keyframe : Bool
  pub storage : MediaStorage

pub record DecodedFrame : Type 0 where
  pub pixel_format : Text
  pub width : ℕ
  pub height : ℕ
  pub timestamp : Option Duration
  pub storage : MediaStorage

pub data MediaPayload : Type 0 where
  encoded_packet : EncodedPacket → MediaPayload
  decoded_frame : DecodedFrame → MediaPayload
  end_of_stream : MediaPayload

-- `MediaPayload::data`: the bytes of a packet or a frame.
unfoldable pub payload_bytes : BufferPool → MediaPayload → Option (List ℕ)
unfolding storage_slice
payload_bytes pool (encoded_packet packet) = storage_slice pool packet.storage
payload_bytes pool (decoded_frame frame) = storage_slice pool frame.storage
payload_bytes pool end_of_stream = none

pub record RecordedPacket : Type 0 where
  pub codec : Text
  pub bytes : ℕ
  pub is_keyframe : Bool
  pub timestamp : Option Duration

-- `RecordingSink::consume`: the packets of the sink afterwards; `none` for a stale handle.
abbrev pub record_packet :
    EncodedPacket → List RecordedPacket → Option ℕ → Option (List RecordedPacket)
record_packet packet packets none = none
record_packet packet packets (some n) = some (
    packets
    ++ record {
      codec = packet.codec;
      bytes = n;
      is_keyframe = packet.is_keyframe;
      timestamp = packet.timestamp;
    }
      ∷ [])

unfoldable pub recording_consume :
    BufferPool → MediaPayload → List RecordedPacket → Option (List RecordedPacket)
unfolding storage_len
recording_consume pool (encoded_packet packet) packets =
    record_packet packet packets (storage_len pool packet.storage)
recording_consume pool (decoded_frame frame) packets = some packets
recording_consume pool end_of_stream packets = some packets

-- The `DropPolicy` of the runtime.
pub data DropPolicy : Type 0 where
  block drop_oldest drop_newest : DropPolicy
