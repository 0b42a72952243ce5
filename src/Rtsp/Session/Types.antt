-- ===== src/Rtsp/Session/Types.antt =====
-- src/rtsp/session.rs: what a session keeps and what it wants done.
use relaybay.Base.{ℕ, Bool, false, Option, none, List, [], Bytes}
use relaybay.Rtsp.Message.{Response}
use relaybay.Rtsp.Transport.{Transport}
use relaybay.Rtsp.Session.Names.{id_of}

-- One track that a client has asked for.
pub record Setup : Type 0 where
  pub track : ℕ
  pub transport : Transport

pub data Action : Type 0 where
  respond : Response → Action
  play : Bytes → List Setup → Action
  pause teardown : Action

pub data State : Type 0 where
  init ready playing : State

pub record Session : Type 0 where
  pub state : State
  pub id : Bytes
  pub path : Option Bytes
  pub tracks : List Setup
  pub udp : Bool

-- A connection that has said nothing yet, and the number that its id is made of.
unfoldable pub new : ℕ → Session
unfolding id_of
new counter = record { state = init; id = id_of counter; path = none; tracks = []; udp = false }

unfoldable pub accepting_udp : Bool → Session → Session
accepting_udp udp s = record s { udp = udp }
