-- ===== src/Examples/Sessions.antt =====
-- Runs of src/rtmp/session.rs, src/track.rs and the record of src/codec/h264.rs.
use relaybay.Base.{
  ◌+◌, ◌-◌, ◌*◌, ◌%◌, ◌^◌, ◌≡◌, refl, Bool, true, [], ◌∷◌, Option, List, Bytes, arith, map, All,
}
use relaybay.Base.Outcome.{ok, Ensures}
use relaybay.Codec.H264
use relaybay.Codec.H264.{Nal, new, from_header}
use relaybay.Codec.H264.Config
use relaybay.Codec.H264.Config.{AvcConfig, to_bytes, parse, profile_level}
use relaybay.Codec.H264.Recorded.{IsRecordable, parse-to_bytes}
use relaybay.Codec.H264.Usable.{IsUsable, parse-IsUsable}
use relaybay.Rtmp.Chunk.Types.{Message, MessageType}
use relaybay.Rtmp.Session.Handle.{handle_all, received}
use relaybay.Rtmp.Session.Protocol.{IsValid, Follows, announced}
use relaybay.Rtmp.Session.Run.{IsClean, handle_all-Follows, Counts, received-IsValid}
use relaybay.Rtmp.Session.Timeline.{at_each, fresh, at_each-Ascends}
use relaybay.Rtmp.Session.Names.{IsName, begins_with, ends_with}
use relaybay.Rtmp.Session.Types.{Action, Session, new_session}
use relaybay.Track.{Codec, IsComplete}

abbrev any_text : Bytes → Bool
any_text bs = true

abbrev said : MessageType → Bytes → Message
said kind payload = record { timestamp = 5; kind = kind; stream_id = 0; payload = payload }

-- `connect` to the application `live`, `publish` of `cam`, and a frame of sound behind its header.
abbrev to_connect : Bytes
to_connect =
    2 ∷ 0 ∷ 7 ∷ b'c' ∷ b'o' ∷ b'n' ∷ b'n' ∷ b'e' ∷ b'c' ∷ b't' ∷ 0 ∷ 0x3f ∷ 0xf0 ∷ 0 ∷ 0 ∷ 0 ∷ 0 ∷ 0
    ∷ 0 ∷ 3 ∷ 0 ∷ 3 ∷ b'a' ∷ b'p' ∷ b'p' ∷ 2 ∷ 0 ∷ 4 ∷ b'l' ∷ b'i' ∷ b'v' ∷ b'e' ∷ 0 ∷ 0 ∷ 9 ∷ []

abbrev to_publish : Bytes
to_publish =
    2 ∷ 0 ∷ 7 ∷ b'p' ∷ b'u' ∷ b'b' ∷ b'l' ∷ b'i' ∷ b's' ∷ b'h' ∷ 0 ∷ 0x40 ∷ 0x10 ∷ 0 ∷ 0 ∷ 0 ∷ 0 ∷ 0
    ∷ 0 ∷ 5 ∷ 2 ∷ 0 ∷ 3 ∷ b'c' ∷ b'a' ∷ b'm' ∷ []

abbrev connection : List Message
connection =
    said MessageType.amf0_command to_connect
    ∷ said MessageType.amf0_command to_publish
    ∷ said MessageType.audio (0xaf ∷ 0 ∷ 0x12 ∷ 0x10 ∷ [])
    ∷ said MessageType.audio (0xaf ∷ 1 ∷ 0x21 ∷ 0x10 ∷ [])
    ∷ []

connection-IsClean : All IsClean connection
connection-IsClean = (
  record { bytes = ground arith; whole = λ (e, c). cc },
  (
    record { bytes = ground arith; whole = λ (e, c). cc },
    (
      record { bytes = ground arith; whole = λ (e, c). cc },
      (record { bytes = ground arith; whole = λ (e, c). cc }, tt),
    ),
  ),
)

new_session-IsValid : IsValid new_session
new_session-IsValid = record {
  usable = tt;
  settled = tt;
  counted = omega arith;
  owed = omega arith;
}

handle_all-Follows_example :
    Ensures
      (λ (actions, s'). IsValid s' × Follows (announced new_session) actions (announced s'))
      (handle_all any_text new_session connection)
handle_all-Follows_example =
    handle_all-Follows any_text new_session connection new_session-IsValid connection-IsClean

received-IsValid_example :
    (ack : Option Action) × (s' : Session) × (received new_session 3_000_000 ≡ ok (ack, s'))
    × IsValid s'
    × Counts new_session (new_session.received + 3_000_000) ack s'
received-IsValid_example = received-IsValid new_session 3_000_000 new_session-IsValid (omega arith)

-- A clock that goes round between the two times.
at_each-Ascends_example :
    at_each fresh (map (λ time. time % 2 ^ 32) (4_294_967_000 ∷ 4_294_968_000 ∷ []))
    ≡ 0 ∷ map (λ time. (time - 4_294_967_000) * 1_000_000) (4_294_968_000 ∷ [])
at_each-Ascends_example =
    at_each-Ascends 4_294_967_000 (4_294_968_000 ∷ []) (omega arith, omega arith, omega arith, tt)

abbrev sequence_set : Nal
sequence_set = record { kind = H264.sps; contents = 0x67 ∷ 0x42 ∷ 0xc0 ∷ 0x1e ∷ [] }

abbrev picture_set : Nal
picture_set = record { kind = H264.pps; contents = 0x68 ∷ 0xce ∷ [] }

abbrev parameters : Config.Parameters
parameters = record { sps = sequence_set ∷ []; pps = picture_set ∷ [] }

abbrev stated : AvcConfig
stated = record { parameters = parameters; nal_length_size = 4 }

stated-IsRecordable : IsRecordable stated
unfolding new from_header profile_level
stated-IsRecordable = record {
  width = (omega arith, omega arith);
  sps_count = (omega arith, omega arith);
  pps_count = (omega arith, omega arith);
  sps_fit = ((refl, omega arith, omega arith), tt);
  pps_fit = ((refl, omega arith, omega arith), tt);
  level = (0x42 ∷ 0xc0 ∷ 0x1e ∷ [], refl, refl);
}

parse-to_bytes_example : (out : Bytes) × (to_bytes stated ≡ ok out) × (parse out ≡ ok stated)
parse-to_bytes_example = parse-to_bytes stated stated-IsRecordable

parse-IsUsable_example : Ensures IsUsable (parse (1 ∷ 0x42 ∷ 0xc0 ∷ 0x1e ∷ 0xff ∷ []))
parse-IsUsable_example = parse-IsUsable (1 ∷ 0x42 ∷ 0xc0 ∷ 0x1e ∷ 0xff ∷ [])

complete : All IsComplete (Codec.h264 parameters ∷ [])
unfolding IsComplete
complete = ((refl, refl), tt)

cam-IsName : IsName (b'c' ∷ b'a' ∷ b'm' ∷ [])
unfolding begins_with ends_with
cam-IsName = record {
  there = refl;
  plain = ((λ e. omega arith), ((λ e. omega arith), ((λ e. omega arith), tt)));
  start = refl;
  finish = refl;
}

-- `//cam?k=1`.
