-- ===== src/Rtmp/Session/Replies.antt =====
-- The messages that src/rtmp/session.rs sends, and the commands that it answers by one.
use relaybay.Base.{ℕ}
use relaybay.Base.{List, [], ◌∷◌, ◌++◌, Bytes, to_be}
use relaybay.Base.Outcome
use relaybay.Base.Outcome.{Outcome, ok, err, panic, spent}
use relaybay.Rtmp.Amf0.Types.{
  Value, Values, Properties, number, string, object, null, no_values, item, no_properties, property,
  Amf0Error,
}
use relaybay.Rtmp.Amf0.Writer.{write_all}
use relaybay.Rtmp.Chunk.Types.{MessageType}
use relaybay.Rtmp.Session.Words.{
  underscore_result, on_status_name, level_key, status_word, code_key, description_key, fms_ver_key,
  fms_ver, capabilities_key, connect_code, connect_text, object_encoding_key, publish_code,
  publish_text, details_key,
}
use relaybay.Rtmp.Session.Types.{
  Action, SessionError, control, command_stream, window_size, chunk_size, publish_stream,
}

unfoldable pub send : ℕ → MessageType → ℕ → ℕ → Bytes → Action
send csid kind stream_id timestamp payload =
    Action.send csid
      (record { timestamp = timestamp; kind = kind; stream_id = stream_id; payload = payload })

-- `expect`: what the code says cannot fail.
unfoldable pub expect_written : Outcome Amf0Error Bytes → Outcome SessionError Bytes
expect_written (ok bs) = ok bs
expect_written (err why) = panic
expect_written panic = panic
expect_written spent = spent

unfoldable pub result : ℕ → Values → Outcome SessionError Action
unfolding send
result transaction values =
    Outcome.◌>>=◌
      (expect_written
        (write_all (item (string underscore_result) (item (number transaction) values))))
      (λ out. ok (send command_stream MessageType.amf0_command 0 0 out))

unfoldable pub on_status : Value → Outcome SessionError Action
unfolding send
on_status status =
    Outcome.◌>>=◌
      (expect_written (
        write_all
          (item (string on_status_name) (item (number 0) (item null (item status no_values))))))
      (λ out. ok (send command_stream MessageType.amf0_command publish_stream 0 out))

unfoldable pub status : Bytes → Bytes → Properties → Value
status code description extra = object (
    property level_key (string status_word)
      (property code_key (string code) (property description_key (string description) extra)))

-- The reply to `connect`, in order: the chunk size is set behind the message that announces it.
unfoldable pub connect_replies : ℕ → Outcome SessionError (List Action)
unfolding send result status
connect_replies transaction =
    Outcome.◌>>=◌
      (result transaction (
        item
          (object (
            property fms_ver_key (string fms_ver)
              (property capabilities_key (number 0x403f_0000_0000_0000) no_properties)))
          (item
            (status connect_code connect_text
              (property object_encoding_key (number 0) no_properties))
            no_values)))
      (λ answer. ok (
        send control MessageType.window_ack_size 0 0 (to_be 4 window_size)
        ∷ send control MessageType.set_peer_bandwidth 0 0 (to_be 4 window_size ++ 2 ∷ [])
        ∷ send control MessageType.set_chunk_size 0 0 (to_be 4 chunk_size)
        ∷ Action.set_chunk_size chunk_size
        ∷ answer
        ∷ []))

unfoldable pub create_stream_replies : ℕ → Outcome SessionError (List Action)
unfolding result
create_stream_replies transaction =
    Outcome.◌>>=◌ (result transaction (item null (item (number 0x3ff0_0000_0000_0000) no_values)))
      (λ answer. ok (answer ∷ []))

unfoldable pub publish_replies : Bytes → Outcome SessionError (List Action)
unfolding send on_status status
publish_replies key =
    Outcome.◌>>=◌
      (on_status
        (status publish_code publish_text (property details_key (string key) no_properties)))
      (λ told. ok (
        send control MessageType.user_control 0 0 (to_be 2 0 ++ to_be 4 publish_stream)
        ∷ told
        ∷ []))
