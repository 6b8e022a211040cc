-- ===== src/Linux/Probe.antt =====
-- crates/caml-linux-media/src/lib.rs: `LinuxCapabilityProbe`, over the files of a host. What std::fs and
-- std::path answer is the record `Files`; an entry of a directory may be unreadable.
pub mod Names
pub mod Report
mod Tests
use Prim.Native.String.{String}
use mathlib.Core.Option
use caml.Base.{
  ℕ, ◌+◌, Bool, true, false, not, ◌&&◌, ◌||◌, ◌==◌, List, [], ◌∷◌, ◌++◌, Option, none, some,
  is_some, is_empty, any, if◌then◌else◌, Result, ok,
}
use caml.Compiler.Host.{PiModel, pi4, pi5, HostCapabilities, no_capabilities, CapabilityProbe}
use caml.Compiler.Types.{CompileError}
use caml.Frontend.{HardwareTarget, raspberry_pi4, raspberry_pi5, generic_linux}
use caml.Text.{Text, codes, trim, to_ascii_lowercase, contains}

pub record Files : Type 0 where
  pub join : Text → Text → Text
  pub read_to_string : Text → Option Text
  pub read_dir : Text → Option (List (Option Text))
  pub exists : Text → Bool

-- `trim_start_matches`, `trim_end_matches` and `trim_matches`, for a character.
unfoldable pub trim_start_matches : ℕ → Text → Text
trim_start_matches c [] = []
trim_start_matches c (d ∷ s) = if d == c then trim_start_matches c s else d ∷ s

abbrev pub keep_unless : ℕ → ℕ → Text → Text
keep_unless c d [] = if d == c then [] else d ∷ []
keep_unless c d (e ∷ s) = d ∷ e ∷ s

unfoldable pub trim_end_matches : ℕ → Text → Text
trim_end_matches c [] = []
trim_end_matches c (d ∷ s) = keep_unless c d (trim_end_matches c s)

unfoldable pub trim_matches : ℕ → Text → Text
unfolding trim_start_matches trim_end_matches
trim_matches c s = trim_end_matches c (trim_start_matches c s)

-- What is read of a file: its text without padding, unless nothing is left.
abbrev pub unless_empty : Text → Option Text
unless_empty text = if is_empty text then none else some text

abbrev pub cleaned : Option Text → Option Text
cleaned none = none
cleaned (some text) = unless_empty (trim (trim_matches 0 text))

-- `filter_map`.
abbrev pub keep_some {ℓ} : {A : Type ℓ} → Option A → List A → List A
keep_some none xs = xs
keep_some (some x) xs = x ∷ xs

unfoldable pub filter_map {ℓ κ} : {A : Type ℓ} {B : Type κ} → (A → Option B) → List A → List B
filter_map f [] = []
filter_map f (x ∷ xs) = keep_some (f x) (filter_map f xs)

-- `any_name_matches`.
unfoldable pub all_tokens : Text → List String → Bool
unfolding contains
all_tokens name [] = true
all_tokens name (token ∷ tokens) = contains name (codes token) && all_tokens name tokens

unfoldable pub any_name_matches : List Text → List String → Bool
unfolding all_tokens to_ascii_lowercase
any_name_matches names tokens = any (λ name. all_tokens (to_ascii_lowercase name) tokens) names

-- Equality of models, where there is one, and of targets.
abbrev pub is_model : Option PiModel → PiModel → Bool
is_model (some pi4) pi4 = true
is_model (some pi5) pi5 = true
is_model _ _ = false

abbrev pub is_pi5_target : HardwareTarget → Bool
is_pi5_target raspberry_pi5 = true
is_pi5_target _ = false

unfoldable pub detect_pi4_h264_encoder : Option PiModel → List Text → List Text → Bool
unfolding any_name_matches
detect_pi4_h264_encoder model v4l2_names media_names =
    if not (is_model model pi4)
    then false
    else any_name_matches v4l2_names ("bcm2835" ∷ "codec" ∷ "encode" ∷ [])
      || (any_name_matches media_names ("bcm2835" ∷ "codec" ∷ "encode" ∷ [])
          || any_name_matches v4l2_names ("h264" ∷ "enc" ∷ []))

unfoldable pub detect_pi5_stateless_decoder :
    HardwareTarget → Option PiModel → List Text → List Text → Bool → Bool
unfolding any_name_matches
detect_pi5_stateless_decoder hardware_target model v4l2_names media_names has_media_nodes =
    if not (is_pi5_target hardware_target) && not (is_model model pi5)
    then false
    else any_name_matches v4l2_names ("rpivid" ∷ [])
      || (any_name_matches v4l2_names ("stateless" ∷ "decoder" ∷ [])
          || (any_name_matches media_names ("rpivid" ∷ [])
              || (any_name_matches media_names ("pisp" ∷ [])
                  || is_model model pi5 && has_media_nodes)))

-- `LinuxProbeInspector`, on the files below `root`.
module _ (files : Files) (root : Text) where
  unfoldable pub resolve : Text → Text
  unfolding trim_start_matches
  resolve relative = files.join root (trim_start_matches b'/' relative)

  unfoldable pub read_string : Text → Option Text
  unfolding resolve trim_matches trim
  read_string relative = cleaned (files.read_to_string (resolve relative))

  unfoldable pub read_child_string : String → Text → Option Text
  unfolding trim_matches trim
  read_child_string child parent = cleaned (files.read_to_string (files.join parent (codes child)))

  abbrev pub readable : Option (List (Option Text)) → List Text
  readable none = []
  readable (some entries) = filter_map (λ entry. entry) entries

  unfoldable pub read_dir_entries : Text → List Text
  unfolding resolve filter_map
  read_dir_entries relative = readable (files.read_dir (resolve relative))

  -- What a model file says.
  abbrev pub model_in : Text → Option PiModel
  model_in normalized =
      if contains normalized (codes "raspberry pi 5")
      then some pi5
      else if contains normalized (codes "raspberry pi 4")
      then some pi4
      else none

  abbrev pub model_of : Option Text → Option PiModel
  model_of none = none
  model_of (some model) = model_in (to_ascii_lowercase model)

  -- `for location in locations`: the first file that names a model decides.
  abbrev pub or_model : Option PiModel → Option PiModel → Option PiModel
  or_model none other = other
  or_model (some model) other = some model

  unfoldable pub detect_in : List String → Option PiModel
  unfolding read_string to_ascii_lowercase contains
  detect_in [] = none
  detect_in (location ∷ locations) =
      or_model (model_of (read_string (codes location))) (detect_in locations)

  unfoldable pub detect_pi_model : Option PiModel
  unfolding detect_in
  detect_pi_model =
      detect_in ("/proc/device-tree/model" ∷ "/sys/firmware/devicetree/base/model" ∷ [])

  unfoldable pub video4linux_names : List Text
  unfolding read_dir_entries filter_map read_child_string
  video4linux_names =
      filter_map (read_child_string "name") (read_dir_entries (codes "/sys/class/video4linux"))

  unfoldable pub media_models : List Text
  unfolding read_dir_entries filter_map read_child_string
  media_models =
      filter_map (read_child_string "model") (read_dir_entries (codes "/sys/class/media"))

  unfoldable pub has_v4l2 : Bool
  unfolding resolve read_dir_entries
  has_v4l2 =
      files.exists (resolve (codes "/dev/video0"))
      || not (is_empty (read_dir_entries (codes "/sys/class/video4linux")))

  unfoldable pub has_media_nodes : Bool
  unfolding resolve read_dir_entries
  has_media_nodes =
      files.exists (resolve (codes "/dev/media0"))
      || not (is_empty (read_dir_entries (codes "/sys/class/media")))

  unfoldable pub has_libcamera : Bool
  unfolding resolve
  has_libcamera =
      files.exists (resolve (codes "/usr/bin/libcamera-hello"))
      || (files.exists (resolve (codes "/usr/bin/libcamera-still"))
          || files.exists (resolve (codes "/usr/bin/libcamera-vid")))

  -- `LinuxCapabilityProbe::capabilities`.
  unfoldable pub linux_report : HardwareTarget → HostCapabilities
  unfolding detect_pi_model video4linux_names media_models has_v4l2 has_media_nodes has_libcamera
      detect_pi4_h264_encoder detect_pi5_stateless_decoder
  linux_report hardware_target = record no_capabilities {
    v4l2_available = has_v4l2;
    libcamera_available = has_libcamera;
    pi_model = detect_pi_model;
    has_pi4_h264_encoder = detect_pi4_h264_encoder detect_pi_model video4linux_names media_models;
    has_pi5_stateless_decoder =
        detect_pi5_stateless_decoder hardware_target detect_pi_model video4linux_names media_models
          has_media_nodes;
  }

  unfoldable pub linux_probe : CapabilityProbe
  unfolding linux_report
  linux_probe hardware_target = ok (linux_report hardware_target)
