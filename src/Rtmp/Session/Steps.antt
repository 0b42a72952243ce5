-- ===== src/Rtmp/Session/Steps.antt =====
-- A media message to src/rtmp/session.rs leaves a session valid, and is answered in the right order.
use relaybay.Base.{ℕ, ◌≢◌, refl, Option, none, some}
use relaybay.Base.{List, [], ◌∷◌, Bytes, arith, ℤ}
use relaybay.Base.Outcome.{Ensures, returns, fails, Ensures->>=}
use relaybay.Codec.Aac
use relaybay.Codec.Aac.Parsing
use relaybay.Codec.H264.Config
use relaybay.Codec.H264.Usable.{IsUsable, parse-IsUsable}
use relaybay.Rtmp.Flv
use relaybay.Rtmp.Flv.{VideoTag, AudioTag, read_video, read_audio}
use relaybay.Rtmp.Session.Media.{of_flv, of_aac, picture_unit, video_tag, frame_unit, audio_tag}
use relaybay.Rtmp.Session.Protocol.{nothing, OptAll, HasWidth, announced, IsValid}
use relaybay.Rtmp.Session.Running.{IsStep}
use relaybay.Rtmp.Session.Settle.{state_video, state_audio, settle}
use relaybay.Rtmp.Session.Types.{Action, Session, Published}
use relaybay.Rtmp.Session.Safety.{
  IsSettling, settle_with-IsSettling, state_slot-IsStep, of_config-Ensures, delivered,
  of_h264-Ensures,
}

state_video-IsStep :
    (s : Session) (config : Config.AvcConfig)
    → IsValid s
    → IsUsable config
    → Ensures (IsStep s) (state_video s config)
unfolding state_video
state_video-IsStep s config v h =
    state_slot-IsStep s _ _ _ _ v
      (record { usable = h; settled = v.settled; counted = v.counted; owed = v.owed }) refl

state_audio-IsStep :
    (s : Session) (parameters : Aac.Parameters)
    → IsValid s
    → Ensures (IsStep s) (state_audio s parameters)
unfolding state_audio
state_audio-IsStep s parameters v =
    state_slot-IsStep s _ _ _ _ v
      (record { usable = v.usable; settled = v.settled; counted = v.counted; owed = v.owed }) refl

picture_unit-IsStep :
    (s : Session) (actions : List Action) (published : Published) (timestamp : ℕ) (composition : ℤ)
    (contents : Bytes) (track : Option (ℕ × ℕ))
    → IsValid s
    → IsSettling s.published (actions, published)
    → OptAll HasWidth track
    → Ensures (IsStep s) (picture_unit s actions published timestamp composition contents track)
unfolding picture_unit announced
picture_unit-IsStep s actions published timestamp composition contents none v (h, f) w = fails
picture_unit-IsStep s actions published timestamp composition contents (some (track, width)) v
      (h, f) w =
    Ensures->>= (of_h264-Ensures contents width w) (λ nalus t. returns (
      record { usable = v.usable; settled = h; counted = v.counted; owed = v.owed },
      delivered s actions _ f,
    ))

frame_unit-IsStep :
    (s : Session) (actions : List Action) (published : Published) (timestamp : ℕ) (contents : Bytes)
    (track : Option ℕ)
    → IsValid s
    → IsSettling s.published (actions, published)
    → Ensures (IsStep s) (frame_unit s actions published timestamp contents track)
unfolding frame_unit announced
frame_unit-IsStep s actions published timestamp contents none v (h, f) = fails
frame_unit-IsStep s actions published timestamp contents (some track) v (h, f) = returns (
  record { usable = v.usable; settled = h; counted = v.counted; owed = v.owed },
  delivered s actions _ f,
)

pub video_tag-IsStep :
    (s : Session) (timestamp : ℕ) (tag : VideoTag)
    → IsValid s
    → Ensures (IsStep s) (video_tag s timestamp tag)
unfolding video_tag settle
video_tag-IsStep s timestamp (VideoTag.sequence_header config) v =
    Ensures->>= (of_config-Ensures (parse-IsUsable config))
      (λ stated h. state_video-IsStep s stated v h)
video_tag-IsStep s timestamp (VideoTag.picture keyframe composition contents) v =
    Ensures->>= (settle_with-IsSettling s s.published v v.settled) (λ (actions, published) h.
      picture_unit-IsStep s actions published timestamp composition contents published.video v h
        h.0)
video_tag-IsStep s timestamp VideoTag.end v = returns (v, nothing)

of_aac-Ensures :
    (m : Aac.Outcome Aac.Parameters) (P : Aac.Parameters → Type 0)
    → Parsing.Ensures P m
    → Ensures P (of_aac m)
of_aac-Ensures (Aac.ok r) P h = returns h
of_aac-Ensures (Aac.err why) P h = fails
of_aac-Ensures Aac.panic P h = absurd h

pub audio_tag-IsStep :
    (s : Session) (timestamp : ℕ) (tag : AudioTag)
    → IsValid s
    → Ensures (IsStep s) (audio_tag s timestamp tag)
unfolding audio_tag settle
audio_tag-IsStep s timestamp (AudioTag.sequence_header config) v =
    Ensures->>=
      (of_aac-Ensures (Aac.parse config) (Parsing.IsStated config) (Parsing.parse-IsStated config))
      (λ stated h. state_audio-IsStep s stated v)
audio_tag-IsStep s timestamp (AudioTag.frame contents) v =
    Ensures->>= (settle_with-IsSettling s s.published v v.settled) (λ (actions, published) h.
      frame_unit-IsStep s actions published timestamp contents published.audio v h)

pub of_flv-Ensures :
    {T : Type 0} (m : Flv.Outcome T) → m ≢ Flv.panic → Ensures (λ tag. Unit {0}) (of_flv m)
of_flv-Ensures (Flv.ok tag) h = returns tt
of_flv-Ensures (Flv.err why) h = fails
of_flv-Ensures Flv.panic h = absurd (h refl)

pub read_audio-ne-panic : (bs : Bytes) → read_audio bs ≢ Flv.panic
unfolding read_audio Flv.byte Flv.read_audio_packet Flv.slice_from
read_audio-ne-panic [] h = cc
read_audio-ne-panic (first ∷ []) h = ground (arith, h)
read_audio-ne-panic (first ∷ kind ∷ rest) h = ground (arith, h)
