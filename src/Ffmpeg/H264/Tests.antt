-- ===== src/Ffmpeg/H264/Tests.antt =====
-- H.264 parameter sets and payloads: runs, and the theorems at examples.
use caml.Base.{◌≤◌, ◌≡◌, refl, ◌↔◌, true, false, [], ◌∷◌, ◌++◌, some, Result, ok, err, arith}
use caml.Text.{Text, codes}
use caml.Ffmpeg.H264.{
  Bytes, H264Config, parse_avcc_extradata, extract_h264_config, avcc_to_annex_b,
  annex_b_parameter_sets, normalize_h264_payload,
}
use caml.Ffmpeg.H264.Avcc.{IsAvcc}
use caml.Ffmpeg.H264.Avcc.Loop.{avcc_to_annex_b-IsAvcc}
use caml.Ffmpeg.H264.Extradata.{ConfigurationRecord, encode, delimited, parse_avcc_extradata-encode}
use caml.Ffmpeg.H264.ParameterSets.{has_unit}
use caml.Ffmpeg.H264.ParameterSets.Flags.{annex_b_parameter_sets-has_unit}
use caml.Ffmpeg.H264.Normalize.{
  normalize_h264_payload-has_unit, normalize_h264_payload-ReturnsAnnexB, ReturnsAnnexB,
}

-- A sequence set of three bytes, a picture set of two.
abbrev stream : ConfigurationRecord
stream = record {
  version = 1;
  profile = 66;
  compatibility = 0;
  level = 30;
  size_byte = 253;
  sps_byte = 225;
  sps = (103 ∷ 66 ∷ 30 ∷ []) ∷ [];
  pps = (104 ∷ 206 ∷ []) ∷ [];
  rest = 7 ∷ [];
}

abbrev stream_config : H264Config
stream_config = record {
  nalu_length_size = 2;
  parameter_sets_annexb = 0 ∷ 0 ∷ 0 ∷ 1 ∷ 103 ∷ 66 ∷ 30 ∷ 0 ∷ 0 ∷ 0 ∷ 1 ∷ 104 ∷ 206 ∷ [];
}

-- An access unit of two units and an empty one between them.
abbrev keyframe : Bytes
keyframe = 0 ∷ 2 ∷ 101 ∷ 136 ∷ 0 ∷ 0 ∷ 0 ∷ 1 ∷ 6 ∷ []

abbrev keyframe_annex_b : Bytes
keyframe_annex_b = 0 ∷ 0 ∷ 0 ∷ 1 ∷ 101 ∷ 136 ∷ 0 ∷ 0 ∷ 0 ∷ 1 ∷ 6 ∷ []

extracts : extract_h264_config (some (encode stream)) ≡ ok (some stream_config)
unfolding extract_h264_config
extracts = refl

converts : avcc_to_annex_b keyframe 2 ≡ some (ok keyframe_annex_b)
unfolding avcc_to_annex_b
converts = refl

rejects_truncated :
    avcc_to_annex_b (0 ∷ 3 ∷ 101 ∷ []) 2
    ≡ some (err (codes "AVCC payload contained a truncated NALU"))
unfolding avcc_to_annex_b
rejects_truncated = refl

looks_for_sets :
    annex_b_parameter_sets (keyframe_annex_b ++ (0 ∷ 0 ∷ 1 ∷ 104 ∷ [])) ≡ some (false, true)
unfolding annex_b_parameter_sets
looks_for_sets = refl

prefixes :
    normalize_h264_payload keyframe true (some stream_config)
    ≡ some (ok (stream_config.parameter_sets_annexb ++ keyframe_annex_b))
unfolding normalize_h264_payload
prefixes = refl

avcc_to_annex_b-IsAvcc_example :
    (avcc_to_annex_b keyframe 2 ≡ some (ok keyframe_annex_b))
    ↔ ((1 ≤ 2) × (2 ≤ 4) × IsAvcc 2 keyframe keyframe_annex_b)
avcc_to_annex_b-IsAvcc_example = avcc_to_annex_b-IsAvcc keyframe 2 keyframe_annex_b (omega arith)

parse_avcc_extradata-encode_example :
    parse_avcc_extradata (encode stream) ≡ ok (2, delimited stream.sps ++ delimited stream.pps)
parse_avcc_extradata-encode_example = parse_avcc_extradata-encode stream refl (omega arith)

annex_b_parameter_sets-has_unit_example :
    annex_b_parameter_sets keyframe_annex_b
    ≡ some (has_unit 7 keyframe_annex_b, has_unit 8 keyframe_annex_b)
annex_b_parameter_sets-has_unit_example = annex_b_parameter_sets-has_unit keyframe_annex_b

normalize_h264_payload-has_unit_example :
    (has_unit 7 (stream_config.parameter_sets_annexb ++ keyframe_annex_b) ≡ true)
    × (has_unit 8 (stream_config.parameter_sets_annexb ++ keyframe_annex_b) ≡ true)
normalize_h264_payload-has_unit_example =
    normalize_h264_payload-has_unit keyframe stream_config refl refl prefixes

normalize_h264_payload-ReturnsAnnexB_example :
    (r : Result Text Bytes) × (normalize_h264_payload keyframe true (some stream_config) ≡ some r)
    × ReturnsAnnexB r
normalize_h264_payload-ReturnsAnnexB_example =
    normalize_h264_payload-ReturnsAnnexB (some (encode stream)) stream_config keyframe true extracts
      refl
