-- ===== src/Rtmp/Flv/RoundTrip.antt =====
-- Tags of src/rtmp/flv.rs written and read back.
use relaybay.Base.{ℕ, ◌-◌, ◌/◌, ◌%◌, ◌<◌, ◌≤◌, ◌≡◌, refl, ap, ◌∙◌, suc, true, false}
use relaybay.Base.{[], ◌∷◌, ◌++◌, Bytes, length, arith}
use relaybay.Base.{from_be, to_be, ℤ, pos, negsuc, Bool-cases, inl, inr, lt→ltb, le→leb, Bool}
use relaybay.Base.{pos_part, neg_part}
use relaybay.Rtmp.Flv
use relaybay.Rtmp.Flv.{
  Outcome, ok, err, VideoTag, AudioTag, picture, sequence_header, frame, si24, put_si24, byte,
  slice_from, get_range, composition_time, read_packet, read_coded, read_audio_packet, read_video,
  read_audio, write_video, write_audio,
}

-- The times that three bytes hold: from -2 ^ 23 up to 2 ^ 23 - 1.
abbrev pub IsTime : ℤ → Type 0
IsTime t = (pos_part t < 0x80_0000) × (neg_part t ≤ 0x80_0000)

abbrev pub HasTime : VideoTag → Type 0
HasTime (picture keyframe time coded) = IsTime time
HasTime _ = Unit {0}

-- The number whose three bytes are written.
abbrev twos_complement : ℤ → ℕ
twos_complement (pos n) = n
twos_complement (negsuc n) = 0x100_0000 - suc n

abbrev time_bytes : ℤ → Bytes
time_bytes t = let v = twos_complement t in (v / 256 / 256 % 256) ∷ (v / 256 % 256) ∷ (v % 256) ∷ []

put_si24-time_bytes : (t : ℤ) → IsTime t → put_si24 t ≡ ok (time_bytes t)
unfolding put_si24 to_be
put_si24-time_bytes (pos n) h = rw (lt→ltb n 0x80_0000 h.0)
put_si24-time_bytes (negsuc n) h = rw (lt→ltb n 0x80_0000 h.1)

-- The three bytes of a time read back.
si24-time_bytes : (t : ℤ) → IsTime t → si24 (time_bytes t) ≡ t
unfolding si24 from_be
si24-time_bytes (pos n) h = ground arith
si24-time_bytes (negsuc n) h = ground arith

slice_from_5 : (a b c d e : ℕ) (rest : Bytes) → slice_from 5 (a ∷ b ∷ c ∷ d ∷ e ∷ rest) ≡ ok rest
unfolding slice_from
slice_from_5 a b c d e rest = rw (le→leb 5 (length (a ∷ b ∷ c ∷ d ∷ e ∷ rest)) (omega arith))

composition_time_lem :
    (a b : ℕ) (t : ℤ) (coded : Bytes)
    → IsTime t
    → composition_time (a ∷ b ∷ (time_bytes t ++ coded)) ≡ ok t
unfolding composition_time get_range
composition_time_lem a b t coded h =
    rw (le→leb 5 (length (a ∷ b ∷ (time_bytes t ++ coded))) (omega arith), composition_time)
      (ap ok (si24-time_bytes t h))

read_picture :
    (first : ℕ) (keyframe : Bool) (t : ℤ) (coded : Bytes)
    → IsTime t
    → read_packet (first ∷ 1 ∷ (time_bytes t ++ coded)) keyframe 1 ≡ ok (picture keyframe t coded)
unfolding read_packet
read_picture first keyframe t coded h =
    rw (composition_time_lem first 1 t coded h, slice_from_5 first 1 _ _ _ coded)

-- A video tag whose time fits is written, and reads back as itself.
pub read_video-write_video :
    (tag : VideoTag)
    → HasTime tag
    → (bytes : Bytes) × (write_video tag ≡ ok bytes) × (read_video bytes ≡ ok tag)
unfolding write_video read_video read_coded byte read_packet slice_from
read_video-write_video (sequence_header config) h =
    let zeros = time_bytes (pos 0) in
    (
      0x17 ∷ 0 ∷ (zeros ++ config),
      rw (put_si24-time_bytes (pos 0) (omega arith)),
      rw (slice_from_5 0x17 0 0 0 0 config),
    )
read_video-write_video (picture keyframe t coded) h = elim (Bool-cases keyframe) [
  | inl key ↦ (
    0x17 ∷ 1 ∷ (time_bytes t ++ coded),
    rw (put_si24-time_bytes t h, key),
    read_picture 0x17 true t coded h ∙ rw key,
  )
  | inr inter ↦ (
    0x27 ∷ 1 ∷ (time_bytes t ++ coded),
    rw (put_si24-time_bytes t h, inter),
    read_picture 0x27 false t coded h ∙ rw inter,
  )
]
read_video-write_video Flv.end h =
    (0x17 ∷ 2 ∷ time_bytes (pos 0), rw (put_si24-time_bytes (pos 0) (omega arith)), refl)

-- An audio tag reads back as itself.
pub read_audio-write_audio : (tag : AudioTag) → read_audio (write_audio tag) ≡ ok tag
unfolding write_audio read_audio byte read_audio_packet slice_from
read_audio-write_audio (AudioTag.sequence_header config) = ground arith
read_audio-write_audio (frame coded) = ground arith
