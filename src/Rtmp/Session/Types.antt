-- ===== src/Rtmp/Session/Types.antt =====
-- The data of src/rtmp/session.rs: what a session knows, what it asks for, and why it ends.
use relaybay.Base.{ℕ, Bool, true, false, if◌then◌else◌, Option, none, some}
use relaybay.Base.{[], Bytes}
use Prim.Native.String.{String}
use relaybay.Codec.H264.{H264Error}
use relaybay.Codec.H264.Config.{ConfigError, AvcConfig}
use relaybay.Codec.Aac
use relaybay.Rtmp.Amf0.Types.{Amf0Error}
use relaybay.Rtmp.Chunk.Types.{Message, MessageType}
use relaybay.Rtmp.Flv.{FlvError}
use relaybay.Rtmp.Session.Timeline.{Timeline, fresh}
use relaybay.Track.{Description, DescriptionError}
use relaybay.Unit.{MediaUnit}

abbrev pub window_size : ℕ
window_size = 2_500_000

abbrev pub chunk_size : ℕ
chunk_size = 65_536

abbrev pub publish_stream : ℕ
publish_stream = 1

-- `ChunkStreamId::CONTROL` and `ChunkStreamId::COMMAND`.
abbrev pub control : ℕ
control = 2

abbrev pub command_stream : ℕ
command_stream = 3

pub data Action : Type 0 where
  send : ℕ → Message → Action
  set_chunk_size : ℕ → Action
  publish : Bytes → Description → Action
  unit : MediaUnit → Action
  unpublish : Action

pub data SessionError : Type 0 where
  amf0 : Amf0Error → SessionError
  flv : FlvError → SessionError
  h264 : H264Error → SessionError
  h264_config : ConfigError → SessionError
  aac : Aac.AacError → SessionError
  description : DescriptionError → SessionError
  nameless no_app no_stream : SessionError
  not_publishing : String → SessionError
  no_parameters : String → SessionError
  parameters_changed : String → SessionError
  unread_message : MessageType → SessionError

pub record Pending : Type 0 where
  pub video : Option AvcConfig
  pub audio : Option Aac.Parameters

-- A track with the width of its length prefixes, and a track.
pub record Published : Type 0 where
  pub video : Option (ℕ × ℕ)
  pub audio : Option ℕ

pub data State : Type 0 where
  new connected publishing : State

pub record Session : Type 0 where
  pub state : State
  pub app : Bytes
  pub path : Bytes
  pub pending : Pending
  pub published : Option Published
  pub timeline : Timeline
  pub received : ℕ
  pub acknowledged : ℕ

-- `Session::new`.
abbrev pub new_session : Session
new_session = record {
  state = State.new;
  app = [];
  path = [];
  pending = record { video = none; audio = none };
  published = none;
  timeline = fresh;
  received = 0;
  acknowledged = 0;
}

unfoldable pub is_publishing : State → Bool
is_publishing State.publishing = true
is_publishing _ = false

-- `Session::path`.
unfoldable pub session_path : Session → Option Bytes
session_path s = if is_publishing s.state then some s.path else none
