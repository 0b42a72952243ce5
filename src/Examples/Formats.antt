-- ===== src/Examples/Formats.antt =====
-- Runs of src/rtmp/flv.rs, src/codec/h264.rs and src/codec/aac.rs.
use relaybay.Base.{
  ◌≤◌, ◌<◌, length, ◌≡◌, ◌↔◌, ◌⊎◌, to_be, refl, [], ◌∷◌, Bytes, arith, negsuc, true,
}
use relaybay.Rtmp.Flv
use relaybay.Rtmp.Flv.{
  VideoTag, AudioTag, picture, read_video, write_video, read_audio, write_audio,
}
use relaybay.Rtmp.Flv.RoundTrip.{read_video-write_video}
use relaybay.Rtmp.Flv.Panic.{IsCutHeader, read_video-eq-panic_iff}
use relaybay.Codec.Aac.{parse}
use relaybay.Codec.Aac.Parsing.{Ensures, IsStated, parse-IsStated}
use relaybay.Codec.H264
use relaybay.Codec.H264.{
  Nal, IsNal, new, from_header, sps, idr, to_length_prefixed, split_length_prefixed,
  starts_with_start_code, put_length_prefixed, aud,
}
use relaybay.Codec.H264.Framing.{starts_with_start_code-to_length_prefixed}
use relaybay.Codec.H264.Prefixed.{split_length_prefixed-to_length_prefixed}

-- A picture shown a sixtieth of a second before it is decoded, as some encoders say.
abbrev early : VideoTag
early = picture true (negsuc 16) (0 ∷ 0 ∷ 0 ∷ 1 ∷ 0x65 ∷ [])

read_video-write_video_example :
    (bytes : Bytes) × (write_video early ≡ Flv.ok bytes) × (read_video bytes ≡ Flv.ok early)
read_video-write_video_example = read_video-write_video early (omega arith, omega arith)

read_video-eq-panic_iff_example :
    (read_video (0x17 ∷ 0 ∷ []) ≡ Flv.panic) ↔ IsCutHeader (0x17 ∷ 0 ∷ [])
read_video-eq-panic_iff_example = read_video-eq-panic_iff (0x17 ∷ 0 ∷ [])

abbrev parameters : Nal
parameters = record { kind = sps; contents = 0x67 ∷ 0x42 ∷ 0 ∷ 30 ∷ [] }

abbrev keyframe : Nal
keyframe = record { kind = idr; contents = 0x65 ∷ 0x88 ∷ [] }

parameters-IsNal : IsNal parameters
unfolding new from_header
parameters-IsNal = refl

keyframe-IsNal : IsNal keyframe
unfolding new from_header
keyframe-IsNal = refl

split_length_prefixed-to_length_prefixed_example :
    (bytes : Bytes) × (to_length_prefixed (parameters ∷ keyframe ∷ []) 4 ≡ H264.ok bytes)
    × (split_length_prefixed bytes 4 ≡ H264.ok (parameters ∷ keyframe ∷ []))
split_length_prefixed-to_length_prefixed_example =
    split_length_prefixed-to_length_prefixed (parameters ∷ keyframe ∷ []) 4
      (parameters-IsNal, (keyframe-IsNal, tt)) (omega arith, omega arith)
      (omega arith, (omega arith, tt))

-- Two channels at 44100.
parse-IsStated_example : Ensures (IsStated (0x12 ∷ 0x10 ∷ [])) (parse (0x12 ∷ 0x10 ∷ []))
parse-IsStated_example = parse-IsStated (0x12 ∷ 0x10 ∷ [])

-- A unit that is its header byte alone.
abbrev bare : Nal
bare = record { kind = aud; contents = 9 ∷ [] }

bare_written : to_length_prefixed (bare ∷ []) 4 ≡ H264.ok (0 ∷ 0 ∷ 0 ∷ 1 ∷ 9 ∷ [])
unfolding to_length_prefixed put_length_prefixed to_be
bare_written = refl

starts_with_start_code-to_length_prefixed_example :
    (starts_with_start_code (0 ∷ 0 ∷ 0 ∷ 1 ∷ 9 ∷ []) ≡ true)
    ↔ ((length bare.contents ≡ 1) ⊎ ((256 ≤ length bare.contents) × (length bare.contents < 512)))
starts_with_start_code-to_length_prefixed_example =
    starts_with_start_code-to_length_prefixed bare [] (0 ∷ 0 ∷ 0 ∷ 1 ∷ 9 ∷ []) bare_written
