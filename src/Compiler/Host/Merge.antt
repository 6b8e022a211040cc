-- ===== src/Compiler/Host/Merge.antt =====
-- `merge` is the join of two probe results in the order of what they report.
use caml.Base.{
  ◌≡◌, refl, Bool, true, false, ◌||◌, Option, none, some, ok, err, arith, ◌∙◌, >>=-eq-ok,
}
use caml.Compiler.Host.{PiModel, HostCapabilities, merge, merge_model, no_capabilities}
use caml.Compiler.Types.{CompileError}

abbrev Implies : Bool → Bool → Type 0
Implies a b = a ≡ true → b ≡ true

-- A model that is reported is the model of the other report.
abbrev SameModel : Option PiModel → Option PiModel → Type 0
SameModel none m = Unit {0}
SameModel (some p) m = m ≡ some p

-- `b` reports all that `a` reports.
pub record Le (a b : HostCapabilities) : Type 0 where
  pub le_ffmpeg : Implies a.ffmpeg_available b.ffmpeg_available
  pub le_v4l2 : Implies a.v4l2_available b.v4l2_available
  pub le_libcamera : Implies a.libcamera_available b.libcamera_available
  pub le_rtp : Implies a.rtp_packetization_available b.rtp_packetization_available
  pub le_model : SameModel a.pi_model b.pi_model
  pub le_pi4 : Implies a.has_pi4_h264_encoder b.has_pi4_h264_encoder
  pub le_pi5 : Implies a.has_pi5_stateless_decoder b.has_pi5_stateless_decoder
  pub le_drawtext : Implies a.has_drawtext_filter b.has_drawtext_filter
  pub le_overlay : Implies a.has_overlay_filter b.has_overlay_filter
  pub le_scale : Implies a.has_scale_filter b.has_scale_filter
  pub le_mixer : Implies a.has_color_channel_mixer_filter b.has_color_channel_mixer_filter

or_left : (a b : Bool) → Implies a (a || b)
or_left a b h = ground arith

or_right : (a b : Bool) → Implies b (a || b)
or_right a b h = ground arith

or_least : (a b c : Bool) → Implies a c → Implies b c → Implies (a || b) c
or_least true b c f g h = f refl
or_least false b c f g h = g h

model_left : (a b c : Option PiModel) → merge_model a b ≡ ok c → SameModel a c
model_left a b c h = ground arith

model_right : (a b c : Option PiModel) → merge_model a b ≡ ok c → SameModel b c
model_right a b c h = ground arith

model_least :
    (a b c d : Option PiModel)
    → merge_model a b ≡ ok c
    → SameModel a d
    → SameModel b d
    → SameModel c d
model_least a b c d h f g = ground arith

model_clash :
    (a b d : Option PiModel) (e : CompileError)
    → merge_model a b ≡ err e
    → SameModel a d
    → ¬ SameModel b d
model_clash a b d e h f g = ground arith

-- `c` is the least report that holds both.
pub record IsJoin (a b c : HostCapabilities) : Type 0 where
  pub above_left : Le a c
  pub above_right : Le b c
  pub least : (d : HostCapabilities) → Le a d → Le b d → Le c d

abbrev joined : HostCapabilities → HostCapabilities → Option PiModel → HostCapabilities
joined a b m = record {
  ffmpeg_available = a.ffmpeg_available || b.ffmpeg_available;
  v4l2_available = a.v4l2_available || b.v4l2_available;
  libcamera_available = a.libcamera_available || b.libcamera_available;
  rtp_packetization_available = a.rtp_packetization_available || b.rtp_packetization_available;
  pi_model = m;
  has_pi4_h264_encoder = a.has_pi4_h264_encoder || b.has_pi4_h264_encoder;
  has_pi5_stateless_decoder = a.has_pi5_stateless_decoder || b.has_pi5_stateless_decoder;
  has_drawtext_filter = a.has_drawtext_filter || b.has_drawtext_filter;
  has_overlay_filter = a.has_overlay_filter || b.has_overlay_filter;
  has_scale_filter = a.has_scale_filter || b.has_scale_filter;
  has_color_channel_mixer_filter =
      a.has_color_channel_mixer_filter || b.has_color_channel_mixer_filter;
}

joined-left :
    (a b : HostCapabilities) (m : Option PiModel) → SameModel a.pi_model m → Le a (joined a b m)
joined-left a b m h = record {
  le_ffmpeg = or_left _ _;
  le_v4l2 = or_left _ _;
  le_libcamera = or_left _ _;
  le_rtp = or_left _ _;
  le_model = h;
  le_pi4 = or_left _ _;
  le_pi5 = or_left _ _;
  le_drawtext = or_left _ _;
  le_overlay = or_left _ _;
  le_scale = or_left _ _;
  le_mixer = or_left _ _;
}

joined-right :
    (a b : HostCapabilities) (m : Option PiModel) → SameModel b.pi_model m → Le b (joined a b m)
joined-right a b m h = record {
  le_ffmpeg = or_right _ _;
  le_v4l2 = or_right _ _;
  le_libcamera = or_right _ _;
  le_rtp = or_right _ _;
  le_model = h;
  le_pi4 = or_right _ _;
  le_pi5 = or_right _ _;
  le_drawtext = or_right _ _;
  le_overlay = or_right _ _;
  le_scale = or_right _ _;
  le_mixer = or_right _ _;
}

joined-least :
    (a b : HostCapabilities) (m : Option PiModel) (d : HostCapabilities)
    → SameModel m d.pi_model
    → Le a d
    → Le b d
    → Le (joined a b m) d
joined-least a b m d h f g = record {
  le_ffmpeg = or_least _ _ _ f.le_ffmpeg g.le_ffmpeg;
  le_v4l2 = or_least _ _ _ f.le_v4l2 g.le_v4l2;
  le_libcamera = or_least _ _ _ f.le_libcamera g.le_libcamera;
  le_rtp = or_least _ _ _ f.le_rtp g.le_rtp;
  le_model = h;
  le_pi4 = or_least _ _ _ f.le_pi4 g.le_pi4;
  le_pi5 = or_least _ _ _ f.le_pi5 g.le_pi5;
  le_drawtext = or_least _ _ _ f.le_drawtext g.le_drawtext;
  le_overlay = or_least _ _ _ f.le_overlay g.le_overlay;
  le_scale = or_least _ _ _ f.le_scale g.le_scale;
  le_mixer = or_least _ _ _ f.le_mixer g.le_mixer;
}

-- What `merge` returns is the least report that holds both.
pub merge-IsJoin : (a b c : HostCapabilities) → merge a b ≡ ok c → IsJoin a b c
unfolding merge
merge-IsJoin a b c h =
    let (m, hm, e) = >>=-eq-ok (merge_model a.pi_model b.pi_model) _ h in
    let same : c ≡ joined a b m = cc in
    rw same (record {
      above_left = joined-left a b m (model_left _ _ m hm);
      above_right = joined-right a b m (model_right _ b.pi_model m hm);
      least =
          λ d f g. joined-least a b m d (model_least _ b.pi_model m _ hm f.le_model g.le_model) f g;
    })

-- `merge` fails only if nothing holds both.
pub merge_clash :
    (a b : HostCapabilities) {e : CompileError}
    → merge a b ≡ err e
    → (d : HostCapabilities) → Le a d
    → ¬ Le b d
unfolding merge
merge_clash a b {e} h d f g =
    model_clash a.pi_model b.pi_model d.pi_model e (ground arith) f.le_model g.le_model

-- The report of nothing is below every other.
Le-no_capabilities : (d : HostCapabilities) → Le no_capabilities d
Le-no_capabilities d = record {
  le_ffmpeg = λ h. cc;
  le_v4l2 = λ h. cc;
  le_libcamera = λ h. cc;
  le_rtp = λ h. cc;
  le_model = tt;
  le_pi4 = λ h. cc;
  le_pi5 = λ h. cc;
  le_drawtext = λ h. cc;
  le_overlay = λ h. cc;
  le_scale = λ h. cc;
  le_mixer = λ h. cc;
}

pub Le-refl : (a : HostCapabilities) → Le a a
Le-refl a = record {
  le_ffmpeg = λ h. h;
  le_v4l2 = λ h. h;
  le_libcamera = λ h. h;
  le_rtp = λ h. h;
  le_model = model_refl a.pi_model;
  le_pi4 = λ h. h;
  le_pi5 = λ h. h;
  le_drawtext = λ h. h;
  le_overlay = λ h. h;
  le_scale = λ h. h;
  le_mixer = λ h. h;
}
  where
    model_refl : (m : Option PiModel) → SameModel m m
    model_refl none = tt
    model_refl (some p) = refl

bool_antisym : (a b : Bool) → Implies a b → Implies b a → a ≡ b
bool_antisym true b f g = ground (arith, f refl)
bool_antisym false true f g = g refl
bool_antisym false false f g = refl

-- Reports that hold one another are the same.
pub Le-antisym : (a b : HostCapabilities) → Le a b → Le b a → a ≡ b
Le-antisym a b f g = ground (
  arith,
  bool_antisym _ _ f.le_ffmpeg g.le_ffmpeg,
  bool_antisym _ _ f.le_v4l2 g.le_v4l2,
  bool_antisym _ _ f.le_libcamera g.le_libcamera,
  bool_antisym _ _ f.le_rtp g.le_rtp,
  bool_antisym _ _ f.le_pi4 g.le_pi4,
  bool_antisym _ _ f.le_pi5 g.le_pi5,
  bool_antisym _ _ f.le_drawtext g.le_drawtext,
  bool_antisym _ _ f.le_overlay g.le_overlay,
  bool_antisym _ _ f.le_scale g.le_scale,
  bool_antisym _ _ f.le_mixer g.le_mixer,
  model_antisym a.pi_model b.pi_model f.le_model g.le_model,
)
  where
    model_antisym : (m n : Option PiModel) → SameModel m n → SameModel n m → m ≡ n
    model_antisym none none h k = refl
    model_antisym none (some q) h k = k
    model_antisym (some p) n h k = ground arith

pub Le-trans : (a b c : HostCapabilities) → Le a b → Le b c → Le a c
Le-trans a b c f g = record {
  le_ffmpeg = λ h. g.le_ffmpeg (f.le_ffmpeg h);
  le_v4l2 = λ h. g.le_v4l2 (f.le_v4l2 h);
  le_libcamera = λ h. g.le_libcamera (f.le_libcamera h);
  le_rtp = λ h. g.le_rtp (f.le_rtp h);
  le_model = model_trans a.pi_model b.pi_model c.pi_model f.le_model g.le_model;
  le_pi4 = λ h. g.le_pi4 (f.le_pi4 h);
  le_pi5 = λ h. g.le_pi5 (f.le_pi5 h);
  le_drawtext = λ h. g.le_drawtext (f.le_drawtext h);
  le_overlay = λ h. g.le_overlay (f.le_overlay h);
  le_scale = λ h. g.le_scale (f.le_scale h);
  le_mixer = λ h. g.le_mixer (f.le_mixer h);
}
  where
    model_trans : (l m n : Option PiModel) → SameModel l m → SameModel m n → SameModel l n
    model_trans none m n h k = tt
    model_trans (some p) none n h k = cc
    model_trans (some p) (some q) n h k = k ∙ h
