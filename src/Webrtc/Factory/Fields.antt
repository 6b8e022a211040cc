-- ===== src/Webrtc/Factory/Fields.antt =====
-- The functions of the factory give what the outputs ask for, field by field.
use mathlib.Core.Option
use caml.Base.{
  ℕ, ◌≡◌, ◌⊎◌, refl, sym, ap, ◌∙◌, ◌↔◌, inl, inr, Option, none, some, unwrap_or, ◌==◌, arith,
  Bool-cases,
}
use caml.Compiler.Types.{CompiledPipeline, CompiledNetworkProfile, CompiledProcessingProfile}
use caml.Frontend.{WebrtcRtp}
use caml.Frontend
use caml.Runtime.Media.{DropPolicy}
use caml.Text.Equality.{text_eq_iff}
use caml.Text.{Text, codes}
use caml.Units.{Duration}
use caml.Webrtc.Factory.Wanted.{
  Given, Asks, IsNetworkLimit, IsFrameTime, SamePolicy, AsksPolicy, IsSource, AsksSource,
}
use caml.Webrtc.Factory.{
  default_packet_size_limit, settings_of, final_mtu, profile_frame_duration,
  frontend_to_runtime_drop_policy, ssrc_of, parse_u32,
}

Given-iff {ℓ} :
    {A : Type ℓ} → (o : Option A) (default x : A) → Given o default x ↔ (x ≡ unwrap_or o default)
Given-iff none default x = (λ h. h, λ h. h)
Given-iff (some y) default x = (λ h. h, λ h. h)

pub Asks-iff {ℓ} :
    {A : Type ℓ}
    → (field : WebrtcRtp → Option A) (asked : Option WebrtcRtp) (default x : A)
    → field (settings_of none) ≡ none
    → Asks field asked default x ↔ (x ≡ unwrap_or (field (settings_of asked)) default)
Asks-iff field none default x e =
    (λ h. h ∙ ap (λ o. unwrap_or o default) (sym e), λ h. h ∙ ap (λ o. unwrap_or o default) e)
Asks-iff field (some profile) default x e = Given-iff (field profile) default x

-- The limit of the network, and what the code makes of it.
abbrev pub network_limit_of : Option CompiledNetworkProfile → ℕ
network_limit_of network =
    unwrap_or (Option.map (λ profile. profile.packet_size_limit) network) default_packet_size_limit

pub IsNetworkLimit-iff :
    (network : Option CompiledNetworkProfile) (limit : ℕ)
    → IsNetworkLimit network limit ↔ (limit ≡ network_limit_of network)
IsNetworkLimit-iff none limit = (λ h. h, λ h. h)
IsNetworkLimit-iff (some profile) limit = (λ h. h, λ h. h)

pub final_mtu-eq :
    (pipeline : CompiledPipeline) (mtu : Option ℕ)
    → final_mtu pipeline mtu ≡ unwrap_or mtu (network_limit_of pipeline.network)
unfolding final_mtu
final_mtu-eq pipeline none = refl
final_mtu-eq pipeline (some mtu) = refl

pub IsFrameTime-iff :
    (processing : Option CompiledProcessingProfile) (time : Option Duration)
    → IsFrameTime processing time ↔ (time ≡ profile_frame_duration processing)
IsFrameTime-iff none time = (λ h. h, λ h. h)
IsFrameTime-iff (some profile) time = elim (Bool-cases (profile.frame_rate == 0)) [
  | inl is_zero ↦ rw is_zero (ground arith)
  | inr positive ↦ rw positive (ground arith)
]

SamePolicy-iff :
    (asked : Frontend.DropPolicy) (policy : DropPolicy)
    → SamePolicy asked policy ↔ (policy ≡ frontend_to_runtime_drop_policy asked)
unfolding frontend_to_runtime_drop_policy
SamePolicy-iff Frontend.DropPolicy.block policy = (λ h. h, λ h. h)
SamePolicy-iff Frontend.DropPolicy.drop_oldest policy = (λ h. h, λ h. h)
SamePolicy-iff Frontend.DropPolicy.drop_newest policy = (λ h. h, λ h. h)

pub AsksPolicy-iff :
    (asked : Option WebrtcRtp) (policy : DropPolicy)
    → AsksPolicy asked policy
      ↔ (policy ≡ frontend_to_runtime_drop_policy (settings_of asked).drop_policy)
unfolding frontend_to_runtime_drop_policy
AsksPolicy-iff none policy = (λ h. h, λ h. h)
AsksPolicy-iff (some profile) policy = SamePolicy-iff profile.drop_policy policy

module _ (stable_ssrc : Text → ℕ) (id : Text) where
  number_iff :
      (text : Text) (parsed : Option ℕ) (ssrc : ℕ)
      → ((parsed ≡ some ssrc) ⊎ ((parsed ≡ none) × (ssrc ≡ stable_ssrc text)))
        ↔ (ssrc ≡ unwrap_or parsed (stable_ssrc text))
  number_iff text none ssrc = ground arith
  number_iff text (some n) ssrc = ground arith

  IsSource-iff :
      (choice : Option Text) (ssrc : ℕ)
      → IsSource stable_ssrc id choice ssrc ↔ (ssrc ≡ ssrc_of stable_ssrc id choice)
  unfolding ssrc_of
  IsSource-iff none ssrc = (λ h. h, λ h. h)
  IsSource-iff (some text) ssrc =
      ground (arith, text_eq_iff text (codes "stable"), number_iff text (parse_u32 text) ssrc)

  pub AsksSource-iff :
      (asked : Option WebrtcRtp) (ssrc : ℕ)
      → AsksSource stable_ssrc id asked ssrc
        ↔ (ssrc ≡ ssrc_of stable_ssrc id (settings_of asked).ssrc)
  unfolding ssrc_of
  AsksSource-iff none ssrc = (λ h. h, λ h. h)
  AsksSource-iff (some profile) ssrc = IsSource-iff profile.ssrc ssrc
