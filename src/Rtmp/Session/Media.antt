-- ===== src/Rtmp/Session/Media.antt =====
-- Media messages in src/rtmp/session.rs: `Session::video` and `Session::audio`.
use relaybay.Base.{ℕ, if◌then◌else◌, Option, none, some, ℤ}
use relaybay.Base.{List, [], ◌∷◌, ◌++◌, Bytes}
use relaybay.Base.Outcome
use relaybay.Base.Outcome.{Outcome, ok, err, panic, spent}
use relaybay.Codec.H264
use relaybay.Codec.H264.{Nal}
use relaybay.Codec.H264.Config
use relaybay.Codec.H264.Config.{AvcConfig, ConfigError}
use relaybay.Codec.Aac
use relaybay.Rtmp.Flv
use relaybay.Rtmp.Flv.{VideoTag, AudioTag, read_video, read_audio}
use relaybay.Rtmp.Session.Settle.{state_video, state_audio, settle}
use relaybay.Rtmp.Session.Timeline.{at, offset}
use relaybay.Rtmp.Session.Types.{
  Action, SessionError, Session, Published, not_publishing, parameters_changed, is_publishing,
}
use relaybay.Unit
use relaybay.Unit.{VideoPayload, AudioPayload, MediaUnit}

-- `?` on the results of the readers.
abbrev pub of_flv {ℓ} : {R : Type ℓ} → Flv.Outcome R → Outcome SessionError R
of_flv (Flv.ok r) = ok r
of_flv (Flv.err why) = err (SessionError.flv why)
of_flv Flv.panic = panic

abbrev pub of_h264 {ℓ} : {R : Type ℓ} → H264.Outcome R → Outcome SessionError R
of_h264 (H264.ok r) = ok r
of_h264 (H264.err why) = err (SessionError.h264 why)
of_h264 H264.spent = spent

abbrev pub of_config {ℓ} : {R : Type ℓ} → Outcome ConfigError R → Outcome SessionError R
of_config (ok r) = ok r
of_config (err why) = err (SessionError.h264_config why)
of_config panic = panic
of_config spent = spent

abbrev pub of_aac {ℓ} : {R : Type ℓ} → Aac.Outcome R → Outcome SessionError R
of_aac (Aac.ok r) = ok r
of_aac (Aac.err why) = err (SessionError.aac why)
of_aac Aac.panic = panic

-- A picture of a settled stream.
unfoldable pub picture_unit :
    Session
    → List Action
    → Published
    → ℕ
    → ℤ
    → Bytes
    → Option (ℕ × ℕ)
    → Outcome SessionError (List Action × Session)
picture_unit s actions published timestamp composition_time contents none =
    err (parameters_changed "video")
picture_unit s actions published timestamp composition_time contents (some (track, width)) =
    let (dts, timeline) = at s.timeline timestamp in
    Outcome.◌>>=◌ (of_h264 (H264.split_length_prefixed contents width)) (λ nalus.
      let made = Unit.new track (VideoPayload.h264 nalus) (offset dts composition_time) dts in
      ok (
        actions ++ Action.unit (MediaUnit.video made) ∷ [],
        record s { published = some published; timeline = timeline },
      ))

unfoldable pub video_tag : Session → ℕ → VideoTag → Outcome SessionError (List Action × Session)
video_tag s timestamp (VideoTag.sequence_header config) =
    Outcome.◌>>=◌ (of_config (Config.parse config)) (λ stated. state_video s stated)
video_tag s timestamp (VideoTag.picture keyframe composition_time contents) =
    Outcome.◌>>=◌ (settle s) (λ (actions, published).
      picture_unit s actions published timestamp composition_time contents published.video)
video_tag s timestamp VideoTag.end = ok ([], s)

unfoldable pub video : Session → ℕ → Bytes → Outcome SessionError (List Action × Session)
video s timestamp payload =
    if is_publishing s.state
    then Outcome.◌>>=◌ (of_flv (read_video payload)) (λ tag. video_tag s timestamp tag)
    else err (not_publishing "video")

-- A frame of sound of a settled stream.
unfoldable pub frame_unit :
    Session
    → List Action
    → Published
    → ℕ
    → Bytes
    → Option ℕ
    → Outcome SessionError (List Action × Session)
frame_unit s actions published timestamp contents none = err (parameters_changed "audio")
frame_unit s actions published timestamp contents (some track) =
    let (pts, timeline) = at s.timeline timestamp in
    ok (
      actions
          ++ Action.unit (
              MediaUnit.audio
                (record { track = track; payload = AudioPayload.aac contents; pts = pts }))
            ∷ [],
      record s { published = some published; timeline = timeline },
    )

unfoldable pub audio_tag : Session → ℕ → AudioTag → Outcome SessionError (List Action × Session)
audio_tag s timestamp (AudioTag.sequence_header config) =
    Outcome.◌>>=◌ (of_aac (Aac.parse config)) (λ stated. state_audio s stated)
audio_tag s timestamp (AudioTag.frame contents) =
    Outcome.◌>>=◌ (settle s)
      (λ (actions, published). frame_unit s actions published timestamp contents published.audio)

unfoldable pub audio : Session → ℕ → Bytes → Outcome SessionError (List Action × Session)
audio s timestamp payload =
    if is_publishing s.state
    then Outcome.◌>>=◌ (of_flv (read_audio payload)) (λ tag. audio_tag s timestamp tag)
    else err (not_publishing "audio")
