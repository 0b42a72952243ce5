-- ===== src/Rtmp/Session/Safety.antt =====
-- Messages to src/rtmp/session.rs are handled without a panic, but for the one that the tag reader has.
use relaybay.Base.{ℕ, ◌≤◌, ◌≡◌, ◌≢◌, refl, Bool, true, false, Option, none, some}
use relaybay.Base.{List, [], ◌∷◌, ◌++◌, Bytes, arith, ◌||◌}
use relaybay.Base.Outcome.{Outcome, Ensures, returns, fails, Ensures->>=, Ensures-if}
use relaybay.Codec.Aac
use relaybay.Codec.H264
use relaybay.Codec.H264.Config
use relaybay.Codec.H264.Prefixed.{split_length_prefixed-ne-spent}
use relaybay.Codec.H264.Usable.{IsUsable}
use relaybay.Rtmp.Session.Media.{of_h264, of_config}
use relaybay.Rtmp.Session.Protocol.{
  Follows, nothing, announces, delivers, OptAll, IsSettled, announced, IsValid,
}
use relaybay.Rtmp.Session.Running.{IsStep}
use relaybay.Rtmp.Session.Settle.{
  state_slot, is_some, video_codecs, audio_codecs, take_track, video_track, audio_track, settle_new,
  settle_with,
}
use relaybay.Rtmp.Session.Types.{Action, SessionError, Session, Published}
use relaybay.Track

-- What settling comes to: widths of one to four bytes, and actions behind which units may follow.
abbrev pub IsSettling : Option Published → List Action × Published → Type 0
IsSettling before (actions, published) =
    IsSettled published
    × ((todo : List Action) (b : Bool)
        → Follows true todo b
        → Follows (is_some before) (actions ++ todo) b)

abbrev IsAnnouncing : Published × Action → Type 0
IsAnnouncing (published, action) =
    IsSettled published
    × ((todo : List Action) (b : Bool) → Follows true todo b → Follows false (action ∷ todo) b)

settle_new-IsAnnouncing :
    (s : Session) (video : Option Config.AvcConfig) (audio : Option Aac.Parameters)
    → s.pending ≡ record { video = video; audio = audio }
    → OptAll IsUsable video
    → Ensures IsAnnouncing (settle_new s)
unfolding settle_new video_codecs audio_codecs take_track video_track audio_track Track.new
    Track.check_codecs Track.check_codec Track.number_tracks
settle_new-IsAnnouncing s none none e v = rw e fails
settle_new-IsAnnouncing s none (some parameters) e v = rw e (returns (tt, λ todo b f. announces f))
settle_new-IsAnnouncing s (some config) none e v =
    rw (e, v.some_sps, v.some_pps) (returns (v.width, λ todo b f. announces f))
settle_new-IsAnnouncing s (some config) (some parameters) e v =
    rw (e, v.some_sps, v.some_pps) (returns (v.width, λ todo b f. announces f))

pub settle_with-IsSettling :
    (s : Session) (published : Option Published)
    → IsValid s
    → OptAll IsSettled published
    → Ensures (IsSettling published) (settle_with s published)
unfolding settle_with
settle_with-IsSettling s (some published) v h = returns (h, λ todo b f. f)
settle_with-IsSettling s none v h =
    Ensures->>= (settle_new-IsAnnouncing s s.pending.video s.pending.audio refl v.usable)
      (λ (published, action) (fits, f). returns (fits, f))

pub state_slot-IsStep :
    (s filled : Session) (repeated taken : Bool) (changed : SessionError)
    → IsValid s
    → IsValid filled
    → is_some filled.published ≡ is_some s.published
    → Ensures (IsStep s) (state_slot s repeated taken filled changed)
unfolding state_slot announced
state_slot-IsStep s filled repeated taken changed v v' same =
    Ensures-if repeated (λ e. returns (v, nothing))
      (λ e.
        Ensures-if (is_some s.published || taken) (λ e'. fails)
          (λ e'. returns (v', rw same nothing)))

pub of_config-Ensures :
    {P : Config.AvcConfig → Type 0} {m : Outcome Config.ConfigError Config.AvcConfig}
    → Ensures P m
    → Ensures P (of_config m)
of_config-Ensures (returns h) = returns h
of_config-Ensures fails = fails

-- What comes behind an action that settles.
pub delivered :
    (s : Session) (actions : List Action) (u : _)
    → ((todo : List Action) (b : Bool)
        → Follows true todo b
        → Follows (announced s) (actions ++ todo) b)
    → Follows (announced s) (actions ++ Action.unit u ∷ []) true
delivered s actions u f = f (Action.unit u ∷ []) true (delivers nothing)

pub of_h264-Ensures :
    (contents : Bytes) (width : ℕ)
    → (1 ≤ width) × (width ≤ 4)
    → Ensures (λ nalus. Unit {0}) (of_h264 (H264.split_length_prefixed contents width))
of_h264-Ensures contents width h =
    of_split (H264.split_length_prefixed contents width)
      (split_length_prefixed-ne-spent contents width (omega (arith, h), omega (arith, h)))
  where
    of_split :
        (m : H264.Outcome (List H264.Nal))
        → m ≢ H264.spent
        → Ensures (λ nalus. Unit {0}) (of_h264 m)
    of_split (H264.ok nalus) ends = returns tt
    of_split (H264.err why) ends = fails
    of_split H264.spent ends = absurd (ends refl)
