-- ===== src/Webrtc/Sink/Attempts.antt =====
-- The three branches of `enqueue_section`.
use caml.Base.{
  ◌≤◌, ◌<◌, ◌≡◌, refl, ◌∙◌, ◌⊎◌, inl, inr, Bool, true, false, Bool-cases, ◌++◌, length, ltb,
  if◌then◌else◌, arith, ok, err,
}
use caml.Runtime.Media.{EncodedPacket, RuntimeError}
use caml.Text.{Text, codes}
use caml.Webrtc.Sink.{
  WebRtcSharedState, WebRtcSink, returns, push_back, enqueue_full, enqueue_section,
}

if_true {ℓ} : {A : Type ℓ} {b : Bool} (x y : A) → b ≡ true → (if b then x else y) ≡ x
if_true x y h = rw h refl

if_false {ℓ} : {A : Type ℓ} {b : Bool} (x y : A) → b ≡ false → (if b then x else y) ≡ y
if_false x y h = rw h refl

abbrev pub closed_message : WebRtcSink → Text
closed_message sink =
    codes "pipeline '" ++ (sink.pipeline_id ++ codes "' cannot enqueue after WebRTC sink is closed")

pub enqueue_section-cases :
    (sink : WebRtcSink) (packet : EncodedPacket) (shared : WebRtcSharedState)
    → ((shared.closed ≡ true)
        × (enqueue_section sink packet shared ≡ record {
          attempt = returns (err (RuntimeError.sink (closed_message sink)));
          shared = shared;
          dropped = false;
        }))
      ⊎ ((shared.closed ≡ false)
            × (length shared.queue < sink.queue_limit)
            × (enqueue_section sink packet shared ≡ record {
              attempt = returns (ok tt);
              shared = push_back packet shared;
              dropped = false;
            })
          ⊎ ((shared.closed ≡ false)
              × (sink.queue_limit ≤ length shared.queue)
              × (enqueue_section sink packet shared ≡ enqueue_full sink.drop_policy packet shared)))
unfolding enqueue_section
enqueue_section-cases sink packet shared = elim (Bool-cases shared.closed) [
  | inl shut ↦ inl (shut, if_true _ _ shut)
  | inr open_still ↦ elim (Bool-cases (ltb (length shared.queue) sink.queue_limit)) [
    | inl room ↦ inr (inl (open_still, ground arith, if_false _ _ open_still ∙ if_true _ _ room))
    | inr full ↦ inr (inr (open_still, ground arith, if_false _ _ open_still ∙ if_false _ _ full))
  ]
]
