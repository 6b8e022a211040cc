-- ===== src/Linux/Probe/Tests.antt =====
-- The hosts of the source's own tests, as files.
use caml.Base.{◌≡◌, refl, ◌↔◌, ◌⊎◌, true, false, [], ◌∷◌, ◌++◌, none, some, if◌then◌else◌}
use caml.Compiler.Host.{pi4, pi5}
use caml.Frontend.{raspberry_pi4, raspberry_pi5}
use caml.Linux.Probe.Report.{HasPi4Encoder, HasPi5Decoder, linux_report-devices}
use caml.Linux.Probe.{
  Files, linux_report, trim_start_matches, trim_end_matches, trim_matches, filter_map, all_tokens,
  any_name_matches, detect_pi4_h264_encoder, detect_pi5_stateless_decoder, resolve, read_string,
  read_child_string, read_dir_entries, detect_in, detect_pi_model, video4linux_names, media_models,
  has_v4l2, has_media_nodes, has_libcamera,
}
use caml.Text.{codes, trim, to_ascii_lowercase, contains, text_eq}

-- A Pi 4 with its encoder, and an entry that cannot be read.
abbrev pi4_host : Files
pi4_host = record {
  join = λ parent child. parent ++ codes "/" ++ child;
  read_to_string = λ path.
      if text_eq path (codes "/r/proc/device-tree/model")
      then some (codes "Raspberry Pi 4 Model B Rev 1.5" ++ 0 ∷ [])
      else if text_eq path (codes "video11/name")
      then some (codes "BCM2835-codec-encode")
      else none;
  read_dir = λ path.
      if text_eq path (codes "/r/sys/class/video4linux")
      then some (none ∷ some (codes "video11") ∷ [])
      else none;
  exists = λ path. text_eq path (codes "/r/dev/video0");
}

-- A Pi 5 known by its decoder's media node only.
abbrev pi5_host : Files
pi5_host = record {
  join = λ parent child. parent ++ codes "/" ++ child;
  read_to_string = λ path.
      if text_eq path (codes "media0/model") then some (codes "rpivid-v4l2-request") else none;
  read_dir = λ path.
      if text_eq path (codes "/r/sys/class/media") then some (some (codes "media0") ∷ []) else none;
  exists = λ path. text_eq path (codes "/r/usr/bin/libcamera-vid");
}

pi4_report :
    ((linux_report pi4_host (codes "/r") raspberry_pi4).pi_model ≡ some pi4)
    × ((linux_report pi4_host (codes "/r") raspberry_pi4).v4l2_available ≡ true)
    × ((linux_report pi4_host (codes "/r") raspberry_pi4).has_pi4_h264_encoder ≡ true)
    × ((linux_report pi4_host (codes "/r") raspberry_pi4).has_pi5_stateless_decoder ≡ false)
unfolding linux_report trim_start_matches trim_end_matches trim_matches filter_map all_tokens
    any_name_matches detect_pi4_h264_encoder detect_pi5_stateless_decoder resolve read_string
    read_child_string read_dir_entries detect_in detect_pi_model video4linux_names media_models
    has_v4l2 has_media_nodes has_libcamera codes trim to_ascii_lowercase contains text_eq
pi4_report = (refl, refl, refl, refl)

pi5_report :
    ((linux_report pi5_host (codes "/r") raspberry_pi5).pi_model ≡ none)
    × ((linux_report pi5_host (codes "/r") raspberry_pi5).libcamera_available ≡ true)
    × ((linux_report pi5_host (codes "/r") raspberry_pi5).has_pi4_h264_encoder ≡ false)
    × ((linux_report pi5_host (codes "/r") raspberry_pi5).has_pi5_stateless_decoder ≡ true)
unfolding linux_report trim_start_matches trim_end_matches trim_matches filter_map all_tokens
    any_name_matches detect_pi4_h264_encoder detect_pi5_stateless_decoder resolve read_string
    read_child_string read_dir_entries detect_in detect_pi_model video4linux_names media_models
    has_v4l2 has_media_nodes has_libcamera codes trim to_ascii_lowercase contains text_eq
pi5_report = (refl, refl, refl, refl)

linux_report-devices_example :
    (((linux_report pi4_host (codes "/r") raspberry_pi4).has_pi4_h264_encoder ≡ true) ↔ (
      ((linux_report pi4_host (codes "/r") raspberry_pi4).pi_model ≡ some pi4)
      × HasPi4Encoder pi4_host (codes "/r")))
    × (((linux_report pi4_host (codes "/r") raspberry_pi4).has_pi5_stateless_decoder ≡ true) ↔ (
        ((raspberry_pi4 ≡ raspberry_pi5)
          ⊎ ((linux_report pi4_host (codes "/r") raspberry_pi4).pi_model ≡ some pi5))
        × HasPi5Decoder pi4_host
            (codes "/r")
            (linux_report pi4_host (codes "/r") raspberry_pi4).pi_model))
linux_report-devices_example = linux_report-devices pi4_host (codes "/r") raspberry_pi4
