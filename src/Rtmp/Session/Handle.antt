-- ===== src/Rtmp/Session/Handle.antt =====
-- `Session::handle` and `Session::received` of src/rtmp/session.rs.
use relaybay.Base.{ℕ, ◌+◌, ◌-◌, ◌%◌, ◌^◌, Bool, ltb, if◌then◌else◌, Option, none, some}
use relaybay.Base.{List, [], ◌∷◌, ◌++◌, Bytes, to_be}
use relaybay.Base.Outcome
use relaybay.Base.Outcome.{Outcome, ok, err, panic}
use relaybay.Rtmp.Chunk.Types.{Message, MessageType}
use relaybay.Rtmp.Session.Commands.{command}
use relaybay.Rtmp.Session.Media.{video, audio}
use relaybay.Rtmp.Session.Replies.{send}
use relaybay.Rtmp.Session.Types.{
  Action, SessionError, Session, unread_message, window_size, control,
}

-- By the kind of a message.
unfoldable pub handle_kind :
    (Bytes → Bool)
    → Session
    → ℕ
    → Bytes
    → MessageType
    → Outcome SessionError (List Action × Session)
handle_kind is_utf8 s timestamp payload MessageType.amf0_command = command is_utf8 s payload
handle_kind is_utf8 s timestamp payload MessageType.video = video s timestamp payload
handle_kind is_utf8 s timestamp payload MessageType.audio = audio s timestamp payload
handle_kind is_utf8 s timestamp payload MessageType.amf3_command =
    err (unread_message MessageType.amf3_command)
handle_kind is_utf8 s timestamp payload MessageType.amf3_data =
    err (unread_message MessageType.amf3_data)
handle_kind is_utf8 s timestamp payload MessageType.aggregate =
    err (unread_message MessageType.aggregate)
handle_kind is_utf8 s timestamp payload _ = ok ([], s)

unfoldable pub handle :
    (Bytes → Bool) → Session → Message → Outcome SessionError (List Action × Session)
handle is_utf8 s m = handle_kind is_utf8 s m.timestamp m.payload m.kind

-- The messages of a connection, one after the other, and all that is to be done about them.
unfoldable pub handle_all :
    (Bytes → Bool) → Session → List Message → Outcome SessionError (List Action × Session)
handle_all is_utf8 s [] = ok ([], s)
handle_all is_utf8 s (m ∷ ms) = Outcome.◌>>=◌ (handle is_utf8 s m) (λ (actions, s₁).
    Outcome.◌>>=◌ (handle_all is_utf8 s₁ ms) (λ (more, s₂). ok (actions ++ more, s₂)))

-- The count of bytes is a `u64`, whose addition is checked.
unfoldable pub received : Session → ℕ → Outcome SessionError (Option Action × Session)
unfolding send
received s bytes =
    let count = s.received + bytes in
    if ltb (2 ^ 64 - 1) count
    then panic
    else if ltb (count - s.acknowledged) window_size
    then ok (none, record s { received = count })
    else ok (
      some (send control MessageType.acknowledgement 0 0 (to_be 4 (count % 2 ^ 32))),
      record s { received = count; acknowledged = count },
    )
