-- ===== src/Unit.antt =====
-- src/unit.rs: one coded picture or one frame of sound, as a path carries it.
use relaybay.Base.{ℕ, ◌+◌, Bool, true, false, eqb, List, [], ◌∷◌, Bytes, length}
use relaybay.Codec.H264
use relaybay.Codec.H264.{Nal}

pub data VideoPayload : Type 0 where
  h264 : List Nal → VideoPayload

pub data AudioPayload : Type 0 where
  aac : Bytes → AudioPayload

unfoldable pub nalus_length : List Nal → ℕ
nalus_length [] = 0
nalus_length (n ∷ nalus) = length n.contents + nalus_length nalus

unfoldable pub video_payload_keyframe : VideoPayload → Bool
video_payload_keyframe (h264 nalus) = H264.is_keyframe nalus

unfoldable pub video_payload_length : VideoPayload → ℕ
video_payload_length (h264 nalus) = nalus_length nalus

unfoldable pub audio_payload_length : AudioPayload → ℕ
audio_payload_length (aac frame) = length frame

-- A track is its index, a `Duration` its nanoseconds.
pub record VideoUnit : Type 0 where
  pub track : ℕ
  pub payload : VideoPayload
  pub pts : ℕ
  pub dts : ℕ
  pub keyframe : Bool

unfoldable pub new : ℕ → VideoPayload → ℕ → ℕ → VideoUnit
new track payload pts dts = record {
  track = track;
  payload = payload;
  pts = pts;
  dts = dts;
  keyframe = video_payload_keyframe payload;
}

pub record AudioUnit : Type 0 where
  pub track : ℕ
  pub payload : AudioPayload
  pub pts : ℕ

-- `Unit` of the source.
pub data MediaUnit : Type 0 where
  video : VideoUnit → MediaUnit
  audio : AudioUnit → MediaUnit

unfoldable pub unit_track : MediaUnit → ℕ
unit_track (video u) = u.track
unit_track (audio u) = u.track

unfoldable pub unit_pts : MediaUnit → ℕ
unit_pts (video u) = u.pts
unit_pts (audio u) = u.pts

unfoldable pub is_keyframe : MediaUnit → Bool
is_keyframe (video u) = u.keyframe
is_keyframe (audio u) = true

unfoldable pub opens_a_stream : MediaUnit → Bool
opens_a_stream (video u) = u.keyframe
opens_a_stream (audio u) = false

-- `Unit::len`: the coded bytes.
unfoldable pub unit_length : MediaUnit → ℕ
unit_length (video u) = video_payload_length u.payload
unit_length (audio u) = audio_payload_length u.payload

unfoldable pub is_empty : MediaUnit → Bool
is_empty u = eqb (unit_length u) 0
