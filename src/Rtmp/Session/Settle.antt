-- ===== src/Rtmp/Session/Settle.antt =====
-- What src/rtmp/session.rs makes of sequence headers: `Session::state` and `Session::settle`.
use relaybay.Base.{ℕ, Bool, true, false, eqb, if◌then◌else◌, Option, none, some}
use relaybay.Base.{List, [], ◌∷◌, ◌++◌, is_empty, ◌&&◌, ◌||◌}
use relaybay.Base.Outcome
use relaybay.Base.Outcome.{Outcome, ok, err, panic, spent}
use relaybay.Codec.H264
use relaybay.Codec.H264.{Nal, NalType}
use relaybay.Codec.H264.Config.{AvcConfig}
use relaybay.Codec.Aac
use relaybay.Rtmp.Amf0.Types.{same_bytes}
use relaybay.Rtmp.Session.Types.{
  Action, SessionError, Session, Published, no_parameters, parameters_changed,
}
use relaybay.Track
use relaybay.Track.{Codec, Description, DescriptionError}

-- The derived `PartialEq` of the parameters.
unfoldable pub same_type : NalType → NalType → Bool
same_type H264.slice H264.slice = true
same_type H264.idr H264.idr = true
same_type H264.sei H264.sei = true
same_type H264.sps H264.sps = true
same_type H264.pps H264.pps = true
same_type H264.aud H264.aud = true
same_type (H264.other a) (H264.other b) = eqb a b
same_type _ _ = false

unfoldable pub same_nals : List Nal → List Nal → Bool
same_nals [] [] = true
same_nals (m ∷ ms) (n ∷ ns) =
    same_type m.kind n.kind && same_bytes m.contents n.contents && same_nals ms ns
same_nals _ _ = false

unfoldable pub same_config : AvcConfig → AvcConfig → Bool
same_config a b =
    same_nals a.parameters.sps b.parameters.sps
    && same_nals a.parameters.pps b.parameters.pps
    && eqb a.nal_length_size b.nal_length_size

unfoldable pub same_parameters : Aac.Parameters → Aac.Parameters → Bool
same_parameters a b =
    same_bytes a.config b.config
    && eqb a.object_type b.object_type
    && eqb a.sample_rate b.sample_rate
    && eqb a.channels b.channels

abbrev pub is_some {ℓ} : {A : Type ℓ} → Option A → Bool
is_some none = false
is_some (some a) = true

abbrev pub held_same {ℓ} : {A : Type ℓ} → (A → A → Bool) → Option A → A → Bool
held_same same none stated = false
held_same same (some held) stated = same held stated

-- `Session::state`, for a slot that holds `held` and that `keep` fills.
unfoldable pub state_slot :
    Session → Bool → Bool → Session → SessionError → Outcome SessionError (List Action × Session)
state_slot s repeated taken filled changed =
    if repeated
    then ok ([], s)
    else if is_some s.published || taken
    then err changed
    else ok ([], filled)

unfoldable pub state_video : Session → AvcConfig → Outcome SessionError (List Action × Session)
state_video s config =
    state_slot s (held_same same_config s.pending.video config) (is_some s.pending.video)
      (record s { pending = record { video = some config; audio = s.pending.audio } })
      (parameters_changed "video")

unfoldable pub state_audio : Session → Aac.Parameters → Outcome SessionError (List Action × Session)
state_audio s parameters =
    state_slot s (held_same same_parameters s.pending.audio parameters) (is_some s.pending.audio)
      (record s { pending = record { video = s.pending.video; audio = some parameters } })
      (parameters_changed "audio")

-- The codecs of a description, video first.
unfoldable pub video_codecs : Option AvcConfig → List Codec
video_codecs none = []
video_codecs (some config) = Codec.h264 config.parameters ∷ []

unfoldable pub audio_codecs : Option Aac.Parameters → List Codec
audio_codecs none = []
audio_codecs (some parameters) = Codec.aac parameters ∷ []

-- `tracks.next().expect(..)`, for what is there, with the tracks that are left.
unfoldable pub take_track : List Track.Track → Outcome SessionError (ℕ × List Track.Track)
take_track [] = panic
take_track (t ∷ ts) = ok (t.id, ts)

unfoldable pub video_track :
    Option AvcConfig → List Track.Track → Outcome SessionError (Option (ℕ × ℕ) × List Track.Track)
video_track none ts = ok (none, ts)
video_track (some config) ts =
    Outcome.◌>>=◌ (take_track ts) (λ (id, rest). ok (some (id, config.nal_length_size), rest))

unfoldable pub audio_track :
    Option Aac.Parameters → List Track.Track → Outcome SessionError (Option ℕ)
audio_track none ts = ok none
audio_track (some parameters) ts = Outcome.◌>>=◌ (take_track ts) (λ (id, rest). ok (some id))

abbrev pub of_description : Outcome DescriptionError Description → Outcome SessionError Description
of_description (ok d) = ok d
of_description (err why) = err (SessionError.description why)
of_description panic = panic
of_description spent = spent

unfoldable pub settle_new : Session → Outcome SessionError (Published × Action)
settle_new s =
    let codecs = video_codecs s.pending.video ++ audio_codecs s.pending.audio in
    if is_empty codecs
    then err (no_parameters "media")
    else Outcome.◌>>=◌ (of_description (Track.new codecs)) (λ d.
      Outcome.◌>>=◌ (video_track s.pending.video d.tracks) (λ (video, rest).
        Outcome.◌>>=◌ (audio_track s.pending.audio rest)
          (λ audio. ok (record { video = video; audio = audio }, Action.publish s.path d))))

unfoldable pub settle_with :
    Session → Option Published → Outcome SessionError (List Action × Published)
settle_with s (some published) = ok ([], published)
settle_with s none =
    Outcome.◌>>=◌ (settle_new s) (λ (published, announced). ok (announced ∷ [], published))

-- `Session::settle`: the actions, and the published tracks, which are there from then on.
unfoldable pub settle : Session → Outcome SessionError (List Action × Published)
settle s = settle_with s s.published
