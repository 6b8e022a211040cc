-- ===== src/Webrtc/Factory/Wanted.antt =====
-- What the outputs of a pipeline ask of a sink, said without the functions of the factory.
use caml.Base.{
  ℕ, ◌/◌, ◌≤◌, ◌<◌, ◌≡◌, ◌≢◌, ◌⊎◌, refl, ap, List, [], ◌∷◌, ◌++◌, Option, none, some, All,
}
use caml.Compiler.Types.{CompiledPipeline, CompiledNetworkProfile, CompiledProcessingProfile}
use caml.Frontend.{OutputProfile, WebrtcRtp, webrtc_rtp, recording}
use caml.Frontend
use caml.Runtime.Media.{DropPolicy, block, drop_oldest, drop_newest}
use caml.Text.{Text, codes}
use caml.Units.{Duration}
use caml.Webrtc.Factory.{find_webrtc, parse_u32}
use caml.Webrtc.Packetize.{WebRtcSenderConfig}
use caml.Webrtc.Sink.{WebRtcSink}

abbrev pub IsRecording : OutputProfile → Type 0
IsRecording (webrtc_rtp profile) = ⊥
IsRecording (recording queue_limit drop_policy) = Unit {0}

-- The first WebRTC output of the list, or that there is none.
abbrev pub IsFirst : List OutputProfile → Option WebrtcRtp → Type 0
IsFirst outputs none = All IsRecording outputs
IsFirst outputs (some profile) =
    (before : List OutputProfile) × (after : List OutputProfile) × (outputs
      ≡ before ++ webrtc_rtp profile ∷ after)
    × All IsRecording before

-- The value that the output asks for, or else this one.
abbrev pub Given {ℓ} : {A : Type ℓ} → Option A → A → A → Type ℓ
Given none default x = x ≡ default
Given (some y) default x = x ≡ y

abbrev pub Asks {ℓ} : {A : Type ℓ} → (WebrtcRtp → Option A) → Option WebrtcRtp → A → A → Type ℓ
Asks field none default x = x ≡ default
Asks field (some profile) default x = Given (field profile) default x

-- The greatest packet of the network, or 1200.
abbrev pub IsNetworkLimit : Option CompiledNetworkProfile → ℕ → Type 0
IsNetworkLimit none limit = limit ≡ 1_200
IsNetworkLimit (some network) limit = limit ≡ network.packet_size_limit

-- The time of a frame at the rate of the processing, if there is one and its rate is not 0.
abbrev pub IsFrameTime : Option CompiledProcessingProfile → Option Duration → Type 0
IsFrameTime none time = time ≡ none
IsFrameTime (some profile) time =
    ((profile.frame_rate ≡ 0) × (time ≡ none))
    ⊎ ((0 < profile.frame_rate) × (time ≡ some (1_000_000_000 / profile.frame_rate)))

abbrev pub SamePolicy : Frontend.DropPolicy → DropPolicy → Type 0
SamePolicy Frontend.DropPolicy.block policy = policy ≡ block
SamePolicy Frontend.DropPolicy.drop_oldest policy = policy ≡ drop_oldest
SamePolicy Frontend.DropPolicy.drop_newest policy = policy ≡ drop_newest

abbrev pub AsksPolicy : Option WebrtcRtp → DropPolicy → Type 0
AsksPolicy none policy = policy ≡ block
AsksPolicy (some profile) policy = SamePolicy profile.drop_policy policy

module _ (stable_ssrc : Text → ℕ) (id : Text) where
  -- The source: the hash of the pipeline's id, for "stable" or nothing; a number of 32 bits; or the hash
  -- of any other text.
  abbrev pub IsSource : Option Text → ℕ → Type 0
  IsSource none ssrc = ssrc ≡ stable_ssrc id
  IsSource (some text) ssrc =
      ((text ≡ codes "stable") × (ssrc ≡ stable_ssrc id))
      ⊎ ((text ≢ codes "stable")
          × ((parse_u32 text ≡ some ssrc) ⊎ ((parse_u32 text ≡ none) × (ssrc ≡ stable_ssrc text))))

  abbrev pub AsksSource : Option WebrtcRtp → ℕ → Type 0
  AsksSource none ssrc = ssrc ≡ stable_ssrc id
  AsksSource (some profile) ssrc = IsSource profile.ssrc ssrc

-- The sink and the settings of its sender are what the output asks for, or the defaults; the queue has
-- room, and a packet has room behind the header of RTP.
pub record HasSettings (stable_ssrc : Text → ℕ) (pipeline : CompiledPipeline)
    (asked : Option WebrtcRtp) (sink : WebRtcSink) (config : WebRtcSenderConfig) : Type 0 where
  pub sink_id : sink.pipeline_id ≡ pipeline.id
  pub queue_limit : Asks (λ w. w.queue_limit) asked 10 sink.queue_limit
  pub has_room : 1 ≤ sink.queue_limit
  pub drop_policy : AsksPolicy asked sink.drop_policy
  pub config_id : config.pipeline_id ≡ pipeline.id
  pub network_limit : ℕ
  pub is_network_limit : IsNetworkLimit pipeline.network network_limit
  pub packet_size_limit : Asks (λ w. w.mtu) asked network_limit config.packet_size_limit
  pub is_large : 12 < config.packet_size_limit
  pub frame_time : IsFrameTime pipeline.processing config.default_frame_duration
  pub codec : Asks (λ w. w.codec) asked (codes "h264") config.codec
  pub payload_type : Asks (λ w. w.payload_type) asked 102 config.payload_type
  pub ssrc : AsksSource stable_ssrc pipeline.id asked config.ssrc
  pub clock_rate : Asks (λ w. w.clock_rate) asked 90_000 config.clock_rate

abbrev pub IsBuilt : (Text → ℕ) → CompiledPipeline → WebRtcSink → WebRtcSenderConfig → Type 0
IsBuilt stable_ssrc pipeline sink config =
    (asked : Option WebrtcRtp) × IsFirst pipeline.outputs asked
    × HasSettings stable_ssrc pipeline asked sink config

pub find_webrtc-IsFirst : (outputs : List OutputProfile) → IsFirst outputs (find_webrtc outputs)
unfolding find_webrtc
find_webrtc-IsFirst [] = tt
find_webrtc-IsFirst (webrtc_rtp profile ∷ outputs) = ([], outputs, refl, tt)
find_webrtc-IsFirst (recording queue_limit drop_policy ∷ outputs) =
    behind (find_webrtc outputs) (find_webrtc-IsFirst outputs)
  where
    behind :
        (asked : Option WebrtcRtp)
        → IsFirst outputs asked
        → IsFirst (recording queue_limit drop_policy ∷ outputs) asked
    behind none all = (tt, all)
    behind (some profile) (before, after, split, all) = (
      recording queue_limit drop_policy ∷ before,
      after,
      ap (◌∷◌ (recording queue_limit drop_policy)) split,
      (tt, all),
    )

passes_over :
    (before after : List OutputProfile) (profile : WebrtcRtp)
    → All IsRecording before
    → find_webrtc (before ++ webrtc_rtp profile ∷ after) ≡ some profile
unfolding find_webrtc
passes_over [] after profile all = refl
passes_over (recording q d ∷ before) after profile all = passes_over before after profile all.1
passes_over (webrtc_rtp p ∷ before) after profile all = absurd all.0

finds_none : (outputs : List OutputProfile) → All IsRecording outputs → find_webrtc outputs ≡ none
unfolding find_webrtc
finds_none [] all = refl
finds_none (recording q d ∷ outputs) all = finds_none outputs all.1
finds_none (webrtc_rtp p ∷ outputs) all = absurd all.0

pub IsFirst-find_webrtc :
    (outputs : List OutputProfile) (asked : Option WebrtcRtp)
    → IsFirst outputs asked
    → find_webrtc outputs ≡ asked
IsFirst-find_webrtc outputs none all = finds_none outputs all
IsFirst-find_webrtc outputs (some profile) (before, after, split, all) =
    rw split (passes_over before after profile all)
