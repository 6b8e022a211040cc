-- ===== src/Runtime/Media/Tests.antt =====
-- The recording sink: a run.
use caml.Base.{◌≡◌, refl, true, [], ◌∷◌, none, some}
use caml.Runtime.Media.{encoded_packet, end_of_stream, mapped_frame, recording_consume}
use caml.Runtime.Pool.{BufferPool}
use caml.Text.{codes}

module _ (pool : BufferPool) where
  records_length :
      recording_consume pool
        (encoded_packet record {
          codec = codes "h264";
          timestamp = some 5;
          duration = none;
          is_keyframe = true;
          storage = mapped_frame (1 ∷ 2 ∷ 3 ∷ []);
        })
        []
      ≡ some
          (record { codec = codes "h264"; bytes = 3; is_keyframe = true; timestamp = some 5 } ∷ [])
  unfolding recording_consume
  records_length = refl

  ignores_the_end : recording_consume pool end_of_stream [] ≡ some []
  unfolding recording_consume
  ignores_the_end = refl
