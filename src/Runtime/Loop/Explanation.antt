-- ===== src/Runtime/Loop/Explanation.antt =====
-- How the loop of a pipeline ends, and what it has done before, said without the functions that the loop
-- calls: by the answers of the stages.
use caml.Base.{◌≡◌, ◌⊎◌, List, [], ◌∷◌, ◌++◌, Option, none, some, Result, ok, err}
use caml.Runtime.Loop.{Tick, cancels, times_out, answers, PipelineStages, no_media}
use caml.Runtime.Media.{
  RuntimeError, error_text, MediaPayload, encoded_packet, decoded_frame, end_of_stream,
}
use caml.Runtime.Supervisor.{PipelineLoopExit}
use caml.Text.{Text}

-- A payload that goes on to the transforms.
abbrev pub IsMedia : MediaPayload → Type 0
IsMedia (encoded_packet packet) = Unit {0}
IsMedia (decoded_frame frame) = Unit {0}
IsMedia end_of_stream = ⊥

-- The exit for an error: only `Recoverable` is recoverable, and the exit has the error's text.
abbrev pub ExitsWith : RuntimeError → PipelineLoopExit → Type 0
ExitsWith (RuntimeError.recoverable message) exit =
    exit ≡ PipelineLoopExit.recoverable (error_text (RuntimeError.recoverable message))
ExitsWith error exit = exit ≡ PipelineLoopExit.fatal (error_text error)

abbrev pub Transform : Type 0 → Type 0
Transform S = MediaPayload → S → Result RuntimeError MediaPayload × S

module _ {S : Type 0} where
  -- Each transform in turn takes what the one before it made, without an error: `payload` becomes
  -- `out`, and the state goes from `s` to `t`.
  abbrev pub Passes : List (Transform S) → MediaPayload → S → MediaPayload → S → Type 0
  Passes [] payload s out t = (payload ≡ out) × (s ≡ t)
  Passes (transform ∷ transforms) payload s out t =
      (made : MediaPayload) × (m : S) × (transform payload s ≡ (ok made, m))
      × Passes transforms made m out t

module _ {S : Type 0} (stages : PipelineStages S) where
  -- The payload goes through all transforms, and the sink takes what comes out.
  abbrev pub Reaches : MediaPayload → S → S → Type 0
  Reaches payload s t =
      (out : MediaPayload) × (m : S) × Passes stages.transforms payload s out m
      × (stages.consume out m ≡ (ok tt, t))

  -- A transform fails on what those before it made; or all of them pass, and the sink fails.
  abbrev pub FailsIn : MediaPayload → S → RuntimeError → S → Type 0
  FailsIn payload s error t =
      ((before : List (Transform S)) × (transform : Transform S) × (after : List (Transform S))
        × (made : MediaPayload) × (m : S) × (stages.transforms ≡ before ++ transform ∷ after)
        × Passes before payload s made m
        × (transform made m ≡ (err error, t)))
      ⊎ ((out : MediaPayload) × (m : S) × Passes stages.transforms payload s out m
          × (stages.consume out m ≡ (err error, t)))

  -- In each of these ticks the source gives a payload that reaches the sink; the state goes from `s` to
  -- `t`.
  abbrev pub Delivers : List Tick → S → S → Type 0
  Delivers [] s t = s ≡ t
  Delivers (cancels ∷ ticks) s t = ⊥
  Delivers (times_out ∷ ticks) s t = ⊥
  Delivers (answers ∷ ticks) s t =
      (payload : MediaPayload) × (m : S) × (u : S) × (stages.next s ≡ (ok payload, m))
      × IsMedia payload
      × Reaches payload m u
      × Delivers ticks u t

  -- In state `s` a stage answers with an error, in state `t`: the source, or one on the way of its
  -- payload.
  abbrev pub Errs : S → RuntimeError → S → Type 0
  Errs s error t =
      (stages.next s ≡ (err error, t))
      ⊎ ((payload : MediaPayload) × (m : S) × (stages.next s ≡ (ok payload, m))
          × IsMedia payload
          × FailsIn payload m error t)

  module _ (shown_timeout : Text) where
    -- The tick ends the loop with this exit, and in state `t`: it is cancelled, or silent too long, or
    -- the stream is over, or a stage fails.
    abbrev pub Ends : Tick → S → PipelineLoopExit → S → Type 0
    Ends cancels s exit t = (exit ≡ PipelineLoopExit.cancelled) × (s ≡ t)
    Ends times_out s exit t =
        (exit ≡ PipelineLoopExit.recoverable (no_media shown_timeout)) × (s ≡ t)
    Ends answers s exit t =
        ((stages.next s ≡ (ok end_of_stream, t)) × (exit ≡ PipelineLoopExit.end_of_stream))
        ⊎ ((error : RuntimeError) × Errs s error t × ExitsWith error exit)

    abbrev pub Explains : List Tick → S → Option PipelineLoopExit → S → Type 0
    Explains ticks s none t = Delivers ticks s t
    Explains ticks s (some exit) t =
        (before : List Tick) × (tick : Tick) × (after : List Tick) × (m : S) × (ticks
          ≡ before ++ tick ∷ after)
        × Delivers before s m
        × Ends tick m exit t
