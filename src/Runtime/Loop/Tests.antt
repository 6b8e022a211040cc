-- ===== src/Runtime/Loop/Tests.antt =====
-- The loop of a pipeline: runs with the recording sink, and the theorems at examples.
use caml.Base.{
  ◌*◌, ◌^◌, ◌≡◌, refl, true, false, List, [], ◌∷◌, ◌++◌, Option, none, some, Result, ok, err,
}
use caml.Compiler.Types.{CompiledPipeline, sentinel}
use caml.Runtime.Loop.{Tick, answers, PipelineStages, run_pipeline_loop}
use caml.Runtime.Loop.Explained.{run_pipeline_loop-Explains}
use caml.Runtime.Loop.Explanation.{Explains, Delivers}
use caml.Runtime.Loop.Supervised.{MayRestart, turn-MayRestart}
use caml.Runtime.Media.{
  RuntimeError, MediaPayload, encoded_packet, end_of_stream, owned, RecordedPacket,
  recording_consume,
}
use caml.Runtime.Pool.{BufferPool}
use caml.Runtime.Supervisor.{PipelineLoopExit, Round, Scale, turn}
use caml.Text.{codes}

-- What the source still has to say, and what the sink has recorded.
record Feed : Type 0 where
  left : List (Result RuntimeError MediaPayload)
  recorded : List RecordedPacket

abbrev no_pool : BufferPool
no_pool = record {
  slots = [];
  free_indices = [];
  allocated_count = 0;
  high_watermark = 0;
  buffer_size = 1;
}

abbrev says :
    List (Result RuntimeError MediaPayload) → Feed → Result RuntimeError MediaPayload × Feed
says [] feed = (ok end_of_stream, feed)
says (r ∷ left) feed = (r, record feed { left = left })

abbrev records : Feed → Option (List RecordedPacket) → Result RuntimeError (Unit {0}) × Feed
records feed none = (err (RuntimeError.sink (codes "stale")), feed)
records feed (some packets) = (ok tt, record feed { recorded = packets })

abbrev stages : PipelineStages Feed
stages = record {
  next = λ feed. says feed.left feed;
  transforms = (λ payload feed. (ok payload, feed)) ∷ [];
  consume = λ payload feed. records feed (recording_consume no_pool payload feed.recorded);
  pool = λ feed. no_pool;
}

abbrev frame : MediaPayload
frame = encoded_packet record {
  codec = codes "h264";
  timestamp = none;
  duration = none;
  is_keyframe = true;
  storage = owned (1 ∷ 2 ∷ []);
}

abbrev hiccup : RuntimeError
hiccup = RuntimeError.recoverable (codes "hiccup")

abbrev opening : Feed
opening = record { left = ok frame ∷ err hiccup ∷ []; recorded = [] }

records_the_frame :
    (run_pipeline_loop stages false (codes "1s") (answers ∷ answers ∷ []) opening).state.recorded
    ≡ record { codec = codes "h264"; bytes = 2; is_keyframe = true; timestamp = none } ∷ []
unfolding run_pipeline_loop recording_consume
records_the_frame = refl

abbrev hiccup_exit : PipelineLoopExit
hiccup_exit = PipelineLoopExit.recoverable (codes "recoverable runtime error: " ++ codes "hiccup")

exits :
    (run_pipeline_loop stages false (codes "1s") (answers ∷ answers ∷ []) opening).exit
    ≡ some hiccup_exit
unfolding run_pipeline_loop recording_consume
exits = refl

abbrev hiccup_round : Round
hiccup_round = record {
  is_cancelled = false;
  built = ok tt;
  exit = hiccup_exit;
  elapsed = 1;
  cancelled_asleep = false;
}

abbrev retrying : CompiledPipeline
retrying = record sentinel {
  recovery = record sentinel.recovery { max_restarts = 3; reset_after = 5 };
}

run_pipeline_loop-Explains_example :
    let run = run_pipeline_loop stages false (codes "1s") (answers ∷ answers ∷ []) opening in
    Explains stages (codes "1s") (answers ∷ answers ∷ []) opening run.exit run.state
run_pipeline_loop-Explains_example =
    run_pipeline_loop-Explains stages (codes "1s") false (answers ∷ answers ∷ []) opening

abbrev doubles : Scale
doubles time m k = some (time * m ^ k)

tries_again : (turn doubles false retrying 0 hiccup_round).next ≡ some 1
unfolding turn sentinel
tries_again = refl

turn-MayRestart_example :
    (before : List Tick) × (tick : Tick) × (after : List Tick) × (m : Feed) × (answers ∷ answers
        ∷ []
      ≡ before ++ tick ∷ after)
    × Delivers stages before opening m
    × MayRestart stages tick m
turn-MayRestart_example =
    turn-MayRestart stages (codes "1s") false (answers ∷ answers ∷ []) opening doubles retrying 0
      hiccup_round exits tries_again
