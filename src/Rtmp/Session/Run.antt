-- ===== src/Rtmp/Session/Run.antt =====
-- Any run of messages to src/rtmp/session.rs is handled without a panic, but for the one of the tag reader.
use relaybay.Base.{ℕ, ◌+◌, ◌-◌, ◌<◌, ◌≤◌, ◌^◌, ◌%◌, ◌≡◌, refl, Bool, Option, none, some}
use relaybay.Base.{
  List, [], ◌∷◌, Bytes, arith, All, IsByte, inl, inr, ◌⊎◌, le_or_lt, ge→ltb, lt→ltb, to_be,
}
use relaybay.Base.Outcome.{ok, Ensures, returns, fails, Ensures->>=, Ensures-if}
use relaybay.Rtmp.Chunk.Types.{Message, MessageType}
use relaybay.Rtmp.Flv.{read_video, read_audio}
use relaybay.Rtmp.Flv.Panic.{IsCutHeader, read_video-eq-panic_iff}
use relaybay.Rtmp.Session.Handle.{handle, handle_kind, handle_all, received}
use relaybay.Rtmp.Session.Media.{video, audio}
use relaybay.Rtmp.Session.Protocol.{Follows, nothing, Follows-append, announced, IsValid}
use relaybay.Rtmp.Session.Running.{IsStep, command-IsStep}
use relaybay.Rtmp.Session.Types.{Action, Session, is_publishing, window_size, control}
use relaybay.Rtmp.Session.Replies.{send}
use relaybay.Rtmp.Session.Steps.{
  video_tag-IsStep, audio_tag-IsStep, of_flv-Ensures, read_audio-ne-panic,
}

-- A message of bytes that is not one of the video messages at which the tag reader panics.
pub record IsClean (m : Message) : Type 0 where
  pub bytes : All IsByte m.payload
  pub whole : ¬ ((m.kind ≡ MessageType.video) × IsCutHeader m.payload)

video-IsStep :
    (s : Session) (timestamp : ℕ) (payload : Bytes)
    → IsValid s
    → ¬ IsCutHeader payload
    → Ensures (IsStep s) (video s timestamp payload)
unfolding video
video-IsStep s timestamp payload v whole =
    Ensures-if (is_publishing s.state)
      (λ e.
        Ensures->>=
          (of_flv-Ensures (read_video payload)
            (λ cut. whole ((read_video-eq-panic_iff payload).0 cut)))
          (λ tag t. video_tag-IsStep s timestamp tag v))
      (λ e. fails)

audio-IsStep :
    (s : Session) (timestamp : ℕ) (payload : Bytes)
    → IsValid s
    → Ensures (IsStep s) (audio s timestamp payload)
unfolding audio
audio-IsStep s timestamp payload v =
    Ensures-if (is_publishing s.state)
      (λ e.
        Ensures->>= (of_flv-Ensures (read_audio payload) (read_audio-ne-panic payload))
          (λ tag t. audio_tag-IsStep s timestamp tag v))
      (λ e. fails)

handle_kind-IsStep :
    (is_utf8 : Bytes → Bool) (s : Session) (timestamp : ℕ) (payload : Bytes) (kind : MessageType)
    → IsValid s
    → All IsByte payload
    → ¬ ((kind ≡ MessageType.video) × IsCutHeader payload)
    → Ensures (IsStep s) (handle_kind is_utf8 s timestamp payload kind)
unfolding handle_kind
handle_kind-IsStep is_utf8 s timestamp payload MessageType.amf0_command v clean whole =
    command-IsStep is_utf8 s payload v clean
handle_kind-IsStep is_utf8 s timestamp payload MessageType.video v clean whole =
    video-IsStep s timestamp payload v (λ cut. whole (refl, cut))
handle_kind-IsStep is_utf8 s timestamp payload MessageType.audio v clean whole =
    audio-IsStep s timestamp payload v
handle_kind-IsStep is_utf8 s timestamp payload MessageType.amf3_command v clean whole = fails
handle_kind-IsStep is_utf8 s timestamp payload MessageType.amf3_data v clean whole = fails
handle_kind-IsStep is_utf8 s timestamp payload MessageType.aggregate v clean whole = fails
handle_kind-IsStep is_utf8 s timestamp payload MessageType.amf0_data v clean whole =
    returns (v, nothing)
handle_kind-IsStep is_utf8 s timestamp payload MessageType.set_chunk_size v clean whole =
    returns (v, nothing)
handle_kind-IsStep is_utf8 s timestamp payload MessageType.abort v clean whole =
    returns (v, nothing)
handle_kind-IsStep is_utf8 s timestamp payload MessageType.acknowledgement v clean whole =
    returns (v, nothing)
handle_kind-IsStep is_utf8 s timestamp payload MessageType.window_ack_size v clean whole =
    returns (v, nothing)
handle_kind-IsStep is_utf8 s timestamp payload MessageType.set_peer_bandwidth v clean whole =
    returns (v, nothing)
handle_kind-IsStep is_utf8 s timestamp payload MessageType.user_control v clean whole =
    returns (v, nothing)
handle_kind-IsStep is_utf8 s timestamp payload (MessageType.other n) v clean whole =
    returns (v, nothing)

-- Any run of messages is handled to its end or refused with an error, without a panic, and leaves the
-- session valid; and what is asked for on the way is in order: one stream is announced at most, and
-- no unit comes before it. It holds of a valid session and of messages of bytes that are not the
-- video messages at which the tag reader panics.
pub handle_all-Follows :
    (is_utf8 : Bytes → Bool) (s : Session) (ms : List Message)
    → IsValid s
    → All IsClean ms
    → Ensures
        (λ (actions, s'). IsValid s' × Follows (announced s) actions (announced s'))
        (handle_all is_utf8 s ms)
unfolding handle_all handle
handle_all-Follows is_utf8 s [] v cs = returns (v, nothing)
handle_all-Follows is_utf8 s (m ∷ ms) v (c, cs) =
    Ensures->>= (handle_kind-IsStep is_utf8 s m.timestamp m.payload m.kind v c.bytes c.whole)
      (λ (actions, s₁) (v₁, f).
        Ensures->>= (handle_all-Follows is_utf8 s₁ ms v₁ cs)
          (λ (more, s₂) (v₂, g). returns (v₂, Follows-append f g)))

-- What counting comes to: the acknowledgement with the count, or none and the same one as before.
abbrev pub Counts : Session → ℕ → Option Action → Session → Type 0
Counts s total ack s' =
    (s'.received ≡ total)
    × ((s.acknowledged + window_size ≤ total)
          × (ack
              ≡ some (
                  Action.send control (record {
                    timestamp = 0;
                    kind = MessageType.acknowledgement;
                    stream_id = 0;
                    payload = to_be 4 (total % 2 ^ 32);
                  })))
          × (s'.acknowledged ≡ total)
        ⊎ (total < s.acknowledged + window_size)
          × (ack ≡ none)
          × (s'.acknowledged ≡ s.acknowledged))

-- Counting the bytes that came in adds them to the count and keeps a session valid, so that less than
-- a window is left unacknowledged. Where a window has come in since the last acknowledgement one is
-- sent on the control stream, with the low 32 bits of the whole count; elsewhere nothing is sent, and
-- what was acknowledged stays. It holds as long as the count fits 64 bits.
pub received-IsValid :
    (s : Session) (bytes : ℕ)
    → IsValid s
    → s.received + bytes < 2 ^ 64
    → (ack : Option Action) × (s' : Session) × (received s bytes ≡ ok (ack, s'))
      × IsValid s'
      × Counts s (s.received + bytes) ack s'
unfolding received
received-IsValid s bytes v fits =
    elim (le_or_lt window_size (s.received + bytes - s.acknowledged)) [
      | inl due ↦ (
        some (
            Action.send control (record {
              timestamp = 0;
              kind = MessageType.acknowledgement;
              stream_id = 0;
              payload = to_be 4 ((s.received + bytes) % 2 ^ 32);
            })),
        record s { received = s.received + bytes; acknowledged = s.received + bytes },
        rw
            (
              ge→ltb (2 ^ 64 - 1) (s.received + bytes) (omega arith),
              ge→ltb (s.received + bytes - s.acknowledged) window_size due,
            )
            (unfold send in refl),
        record {
          usable = v.usable;
          settled = v.settled;
          counted = omega arith;
          owed = omega arith;
        },
        (refl, inl (omega (arith, v.counted), refl, refl)),
      )
      | inr early ↦ (
        none,
        record s { received = s.received + bytes },
        rw
            (
              ge→ltb (2 ^ 64 - 1) (s.received + bytes) (omega arith),
              lt→ltb (s.received + bytes - s.acknowledged) window_size early,
            )
            refl,
        record {
          usable = v.usable;
          settled = v.settled;
          counted = omega (arith, v.counted);
          owed = omega (arith, v.counted);
        },
        (refl, inr (omega (arith, v.counted), refl, refl)),
      )
    ]
