-- ===== src/Rtsp/Session/Invariant.antt =====
-- What holds of a session of src/rtsp/session.rs between two requests.
use relaybay.Base.{ℕ, Bool, true, false, ◌||◌, if◌then◌else◌, Option, none, some, List, [], ◌∷◌}
use relaybay.Base.{◌++◌, Bytes, All, All-append, ◌≡◌, refl}
use relaybay.Track.{Description, Track}
use relaybay.Rtsp.Message.{Request}
use relaybay.Rtsp.Message
use relaybay.Rtsp.Transport.{Transport}
use relaybay.Rtsp.Session.Types.{Session, Setup, State, init, ready, playing, new, accepting_udp}
use relaybay.Rtsp.Session.Handle.{
  Lookup, Handled, handle, dispatch, described, set_up_in, set_up, set_described, set_track, agreed,
  start, stop, is_interleaved, without_track,
}
use relaybay.Rtsp.Session.Setups.{
  AreDistinct, IsSendable, choose-IsSendable, All-without_track, without_track-lacks,
  without_track-AreDistinct, AreDistinct-append,
}

-- A track has been set up, of a path that is known, exactly where the state says so.
pub data IsBegun : State → Option Bytes → List Setup → Type 0 where
  nothing_yet : {path : Option Bytes} → IsBegun init path []
  waits :
      {path : Bytes} {setup : Setup} {setups : List Setup}
      → IsBegun ready (some path) (setup ∷ setups)
  sends :
      {path : Bytes} {setup : Setup} {setups : List Setup}
      → IsBegun playing (some path) (setup ∷ setups)

pub record IsValid (s : Session) : Type 0 where
  pub begun : IsBegun s.state s.path s.tracks
  pub distinct : AreDistinct s.tracks
  pub sendable : All (IsSendable s.udp) s.tracks

IsBegun-append :
    (path : Bytes) (setups : List Setup) (last : Setup)
    → IsBegun ready (some path) (setups ++ (last ∷ []))
IsBegun-append path [] last = waits
IsBegun-append path (setup ∷ setups) last = waits

-- A path that takes another's place.
IsBegun-renamed :
    (state : State) (path : Option Bytes) (path' : Bytes) (setups : List Setup)
    → IsBegun state path setups
    → IsBegun state (some path') setups
IsBegun-renamed _ _ path' _ nothing_yet = nothing_yet
IsBegun-renamed _ _ path' _ waits = waits
IsBegun-renamed _ _ path' _ sends = sends

IsBegun-started :
    (path : Option Bytes) (setups : List Setup)
    → IsBegun ready path setups
    → IsBegun playing path setups
IsBegun-started _ _ waits = sends

IsBegun-stopped :
    (path : Option Bytes) (setups : List Setup)
    → IsBegun playing path setups
    → IsBegun ready path setups
IsBegun-stopped _ _ sends = waits

module _ (s : Session) (valid : IsValid s) (lookup : Lookup) (request : Request)
    (number : Bytes) where
  described-IsValid :
      (path : Bytes) (found : Option Description)
      → IsValid (described request number s path found).0
  unfolding described
  described-IsValid path none = valid
  described-IsValid path (some description) = record {
    begun = IsBegun-renamed s.state s.path path s.tracks valid.begun;
    distinct = valid.distinct;
    sendable = valid.sendable;
  }

  agreed-IsValid :
      (path : Bytes) (track : ℕ) (chosen : Option Transport)
      → ((t : Transport) → chosen ≡ some t → (s.udp || is_interleaved t) ≡ true)
      → IsValid (agreed number s path track chosen).0
  unfolding agreed IsSendable
  agreed-IsValid path track none h = valid
  agreed-IsValid path track (some transport) h =
      let last : Setup = record { track = track; transport = transport } in
      let kept = without_track track s.tracks in
      record {
        begun = IsBegun-append path kept last;
        distinct =
            AreDistinct-append kept last (without_track-lacks track s.tracks)
              (without_track-AreDistinct track s.tracks valid.distinct);
        sendable =
            All-append (IsSendable s.udp) kept (last ∷ [])
              (All-without_track (IsSendable s.udp) track s.tracks valid.sendable)
              (h transport refl, tt);
      }

  set_track-IsValid :
      (path : Bytes) (found : Option Track) → IsValid (set_track request number s path found).0
  unfolding set_track
  set_track-IsValid path none = valid
  set_track-IsValid path (some track) =
      agreed-IsValid path track.id _ λ t e. choose-IsSendable s.udp _ e

  set_described-IsValid :
      (path : Bytes) (index : Option ℕ) (found : Option Description)
      → IsValid (set_described request number s path index found).0
  unfolding set_described
  set_described-IsValid path index none = valid
  set_described-IsValid path index (some description) = set_track-IsValid path _

  either-IsValid :
      (b : Bool) (x y : Handled) → IsValid x.0 → IsValid y.0 → IsValid (if b then x else y).0
  either-IsValid true x y hx hy = hx
  either-IsValid false x y hx hy = hy

  set_up-IsValid : (named : Bytes × Option ℕ) → IsValid (set_up lookup request number s named).0
  unfolding set_up
  set_up-IsValid (path, index) =
      either-IsValid _ _ _ valid (set_described-IsValid path index (lookup path))

  set_up_in-IsValid : (state : State) → IsValid (set_up_in lookup request number s state).0
  unfolding set_up_in
  set_up_in-IsValid playing = valid
  set_up_in-IsValid init = set_up-IsValid _
  set_up_in-IsValid ready = set_up-IsValid _

  start-IsValid :
      (state : State) (path : Option Bytes)
      → IsBegun state s.path s.tracks
      → IsValid (start number s state path).0
  unfolding start
  start-IsValid init path b = valid
  start-IsValid ready none b = valid
  start-IsValid playing none b = valid
  start-IsValid ready (some path) b = record {
    begun = IsBegun-started s.path s.tracks b;
    distinct = valid.distinct;
    sendable = valid.sendable;
  }
  start-IsValid playing (some path) b = record {
    begun = b;
    distinct = valid.distinct;
    sendable = valid.sendable;
  }

  stop-IsValid : (state : State) → IsBegun state s.path s.tracks → IsValid (stop number s state).0
  unfolding stop
  stop-IsValid init b = valid
  stop-IsValid ready b = valid
  stop-IsValid playing b = record {
    begun = IsBegun-stopped s.path s.tracks b;
    distinct = valid.distinct;
    sendable = valid.sendable;
  }

  dispatch-IsValid : (method : Message.Method) → IsValid (dispatch lookup request number s method).0
  unfolding dispatch
  dispatch-IsValid Message.options = valid
  dispatch-IsValid Message.describe = described-IsValid _ _
  dispatch-IsValid Message.setup = set_up_in-IsValid s.state
  dispatch-IsValid Message.play = start-IsValid s.state s.path valid.begun
  dispatch-IsValid Message.pause = stop-IsValid s.state valid.begun
  dispatch-IsValid Message.teardown = valid
  dispatch-IsValid Message.get_parameter = valid
  dispatch-IsValid Message.announce = valid
  dispatch-IsValid Message.record_method = valid
  dispatch-IsValid Message.set_parameter = valid
  dispatch-IsValid (Message.other name) = valid

-- Any request leaves a valid session valid.
pub handle-IsValid :
    (lookup : Lookup) (request : Request) (s : Session)
    → IsValid s
    → IsValid (handle lookup request s).0
unfolding handle
handle-IsValid lookup request s valid = dispatch-IsValid s valid lookup request _ request.method

-- A connection that has said nothing yet.
pub new-IsValid : (counter : ℕ) (over_udp : Bool) → IsValid (accepting_udp over_udp (new counter))
unfolding new accepting_udp AreDistinct
new-IsValid counter over_udp = record { begun = nothing_yet; distinct = tt; sendable = tt }
