-- ===== src/Rtsp/Sdp.antt =====
-- src/rtsp/sdp.rs: what `DESCRIBE` is answered with.
use relaybay.Base.{ℕ, Bool, true, false, leb, ltb, eqb, ◌&&◌, ◌||◌, if◌then◌else◌}
use relaybay.Base.{List, [], ◌∷◌, ◌++◌, Bytes, map, is_empty}
use relaybay.Base.Outcome.{Outcome, ok, err, spent, panic}
use relaybay.Codec.H264.{Nal}
use relaybay.Codec.H264.Config.{ConfigError, profile_level}
use relaybay.Codec.H264.Config as H264
use relaybay.Codec.Aac
use relaybay.Rtp.{video_type, audio_type}
use relaybay.Track.{Codec, Track, Description, h264, aac}
use relaybay.Text.{codes, decimal}
use relaybay.Rtsp.Base64.{base64, hex}
use relaybay.Rtsp.Message.{crlf}

-- The second byte of a control character that takes two.
unfoldable wide_control : ℕ → Bytes → Bool
wide_control b [] = false
wide_control b (c ∷ cs) = eqb b 194 && leb 128 c && leb c 159

-- Past the second byte of a control character.
unfoldable blank_controls : Bool → Bytes → Bytes
unfolding wide_control
blank_controls skip [] = []
blank_controls true (b ∷ bs) = blank_controls false bs
blank_controls false (b ∷ bs) =
    let wide = wide_control b bs in
    let rest = blank_controls wide bs in
    if wide || ltb b 32 || eqb b 127 then 32 ∷ rest else b ∷ rest

unfoldable pub sanitize : Bytes → Bytes
unfolding blank_controls
sanitize name = blank_controls false name

unfoldable pub join : List Bytes → Bytes
join [] = []
join (set ∷ []) = set
join (set ∷ sets) = set ++ (codes "," ++ join sets)

unfoldable profile_part : Outcome ConfigError Bytes → Bytes
unfolding hex
profile_part (ok profile) = codes "; profile-level-id=" ++ hex profile
profile_part (err why) = []
profile_part spent = []
profile_part panic = []

unfoldable sets_part : List Bytes → Bytes
unfolding join
sets_part sets = if is_empty sets then [] else codes "; sprop-parameter-sets=" ++ join sets

unfoldable pub encoded_sets : H264.Parameters → List Bytes
unfolding base64
encoded_sets parameters =
    map (λ (set : Nal). base64 set.contents) (parameters.sps ++ parameters.pps)

unfoldable video : H264.Parameters → Bytes
unfolding decimal profile_part sets_part encoded_sets profile_level
video parameters =
    codes "m=video 0 RTP/AVP "
    ++ decimal video_type
    ++ crlf
    ++ codes "a=rtpmap:"
    ++ decimal video_type
    ++ codes " H264/90000"
    ++ crlf
    ++ codes "a=fmtp:"
    ++ decimal video_type
    ++ codes " packetization-mode=1"
    ++ profile_part (profile_level parameters)
    ++ sets_part (encoded_sets parameters)
    ++ crlf

unfoldable audio : Aac.Parameters → Bytes
unfolding decimal hex
audio parameters =
    codes "m=audio 0 RTP/AVP "
    ++ decimal audio_type
    ++ crlf
    ++ codes "a=rtpmap:"
    ++ decimal audio_type
    ++ codes " mpeg4-generic/"
    ++ decimal parameters.sample_rate
    ++ codes "/"
    ++ decimal parameters.channels
    ++ crlf
    ++ codes "a=fmtp:"
    ++ decimal audio_type
    ++ codes
        " profile-level-id=1; mode=AAC-hbr; sizelength=13; indexlength=3; indexdeltalength=3; config="
    ++ hex parameters.config
    ++ crlf

unfoldable section : Codec → Bytes
unfolding video audio
section (h264 parameters) = video parameters
section (aac parameters) = audio parameters

unfoldable sections : List Track → Bytes
unfolding section decimal
sections [] = []
sections (track ∷ tracks) =
    section track.codec ++ codes "a=control:trackID=" ++ decimal track.id ++ crlf ++ sections tracks

unfoldable pub describe : Description → Bytes → Bytes
unfolding sections sanitize
describe description name =
    codes "v=0"
    ++ crlf
    ++ codes "o=- 0 0 IN IP4 0.0.0.0"
    ++ crlf
    ++ codes "s="
    ++ sanitize name
    ++ crlf
    ++ codes "c=IN IP4 0.0.0.0"
    ++ crlf
    ++ codes "t=0 0"
    ++ crlf
    ++ codes "a=control:*"
    ++ crlf
    ++ sections description.tracks
