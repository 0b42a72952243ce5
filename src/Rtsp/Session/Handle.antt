-- ===== src/Rtsp/Session/Handle.antt =====
-- src/rtsp/session.rs: one request and what to do about it.
use relaybay.Base.{ℕ, Bool, true, false, eqb, ◌||◌, not, if◌then◌else◌, Option, none, some, ◌>>=◌}
use relaybay.Base.{List, [], ◌∷◌, ◌++◌, get_elem?, Bytes}
use relaybay.Text.{codes, beq, trim_back}
use relaybay.Track.{Description, Track}
use relaybay.Rtsp.Status
use relaybay.Rtsp.Status.{Status}
use relaybay.Rtsp.Message.{
  Request, Response, get_header, sequence, response, with_header, with_body,
}
use relaybay.Rtsp.Message
use relaybay.Rtsp.Transport.{Transport, offered, to_header, interleaved, udp}
use relaybay.Rtsp.Sdp
use relaybay.Rtsp.Session.Names.{path_of, split_track}
use relaybay.Rtsp.Session.Types.{
  Session, Setup, Action, State, init, ready, playing, respond, play, pause, teardown,
}

abbrev pub public_methods : Bytes
public_methods = codes "OPTIONS, DESCRIBE, SETUP, PLAY, PAUSE, TEARDOWN, GET_PARAMETER"

-- What a path is, or nothing.
abbrev pub Lookup : Type 0
Lookup = Bytes → Option Description

-- The session behind a request, and what to do.
abbrev pub Handled : Type 0
Handled = Session × List Action

unfoldable pub reply : Status → Bytes → Response
unfolding response with_header
reply status sequence = with_header (codes "CSeq") sequence (response status)

unfoldable pub answer : Status → Bytes → Session → Handled
unfolding reply
answer status sequence s = (s, respond (reply status sequence) ∷ [])

-- The answer that names the session.
unfoldable pub confirm : Bytes → Session → Response
unfolding reply with_header
confirm sequence s = with_header (codes "Session") s.id (reply Status.ok sequence)

unfoldable pub described : Request → Bytes → Session → Bytes → Option Description → Handled
unfolding answer reply with_header with_body trim_back Sdp.describe
described request sequence s path none = answer Status.not_found sequence s
described request sequence s path (some description) = (
  record s { path = some path },
  respond (
        with_body (codes "application/sdp") (Sdp.describe description path) (
          with_header (codes "Content-Base") (trim_back b'/' request.uri ++ codes "/")
            (reply Status.ok sequence)))
      ∷ [],
)

unfoldable pub describe : Lookup → Request → Bytes → Session → Handled
unfolding described path_of
describe lookup request sequence s =
    let path = path_of request.uri in described request sequence s path (lookup path)

unfoldable pub is_interleaved : Transport → Bool
is_interleaved (interleaved rtp rtcp) = true
is_interleaved (udp rtp rtcp) = false

-- The first of the offers that the server can send on.
unfoldable pub choose : Bool → List Transport → Option Transport
unfolding is_interleaved
choose over_udp [] = none
choose over_udp (offer ∷ offers) =
    let later = choose over_udp offers in
    if over_udp || is_interleaved offer then some offer else later

unfoldable pub without_track : ℕ → List Setup → List Setup
without_track track [] = []
without_track track (setup ∷ setups) =
    let kept = without_track track setups in if eqb setup.track track then kept else setup ∷ kept

unfoldable pub agreed : Bytes → Session → Bytes → ℕ → Option Transport → Handled
unfolding answer reply with_header to_header without_track
agreed sequence s path track none = answer Status.unsupported_transport sequence s
agreed sequence s path track (some transport) = (
  record s {
    path = some path;
    tracks = without_track track s.tracks ++ (record { track = track; transport = transport } ∷ []);
    state = ready;
  },
  respond (
        with_header (codes "Transport") (to_header transport none)
          (with_header (codes "Session") (s.id ++ codes ";timeout=60") (reply Status.ok sequence)))
      ∷ [],
)

unfoldable pub offers_in : Option Bytes → List Transport
unfolding offered
offers_in none = []
offers_in (some header) = offered header

unfoldable pub set_track : Request → Bytes → Session → Bytes → Option Track → Handled
unfolding answer agreed choose offers_in get_header
set_track request sequence s path none = answer Status.not_found sequence s
set_track request sequence s path (some track) =
    agreed sequence s path track.id
      (choose s.udp (offers_in (get_header (codes "Transport") request.headers)))

-- The track that the index names.
unfoldable pub indexed : Option ℕ → Description → Option Track
indexed index description = do i ← index; get_elem? description.tracks i

unfoldable pub set_described :
    Request → Bytes → Session → Bytes → Option ℕ → Option Description → Handled
unfolding answer set_track indexed
set_described request sequence s path index none = answer Status.not_found sequence s
set_described request sequence s path index (some description) =
    set_track request sequence s path (indexed index description)

-- Whether the session has named another path before.
unfoldable pub is_elsewhere : Option Bytes → Bytes → Bool
unfolding beq
is_elsewhere none path = false
is_elsewhere (some first) path = not (beq first path)

unfoldable pub set_up : Lookup → Request → Bytes → Session → Bytes × Option ℕ → Handled
unfolding answer set_described is_elsewhere
set_up lookup request sequence s (path, index) =
    if is_elsewhere s.path path
    then answer Status.not_found sequence s
    else set_described request sequence s path index (lookup path)

unfoldable pub set_up_in : Lookup → Request → Bytes → Session → State → Handled
unfolding answer set_up split_track path_of
set_up_in lookup request sequence s playing = answer Status.method_not_valid sequence s
set_up_in lookup request sequence s init =
    set_up lookup request sequence s (split_track (path_of request.uri))
set_up_in lookup request sequence s ready =
    set_up lookup request sequence s (split_track (path_of request.uri))

unfoldable pub setup : Lookup → Request → Bytes → Session → Handled
unfolding set_up_in
setup lookup request sequence s = set_up_in lookup request sequence s s.state

unfoldable pub start : Bytes → Session → State → Option Bytes → Handled
unfolding answer confirm
start sequence s init path = answer Status.method_not_valid sequence s
start sequence s ready none = answer Status.method_not_valid sequence s
start sequence s playing none = answer Status.method_not_valid sequence s
start sequence s ready (some path) =
    (record s { state = playing }, respond (confirm sequence s) ∷ play path s.tracks ∷ [])
start sequence s playing (some path) =
    (record s { state = playing }, respond (confirm sequence s) ∷ play path s.tracks ∷ [])

unfoldable pub stop : Bytes → Session → State → Handled
unfolding answer confirm
stop sequence s init = answer Status.method_not_valid sequence s
stop sequence s ready = answer Status.method_not_valid sequence s
stop sequence s playing = (record s { state = ready }, respond (confirm sequence s) ∷ pause ∷ [])

unfoldable pub dispatch : Lookup → Request → Bytes → Session → Message.Method → Handled
unfolding answer confirm describe setup start stop reply with_header
dispatch lookup request sequence s Message.options =
    (s, respond (with_header (codes "Public") public_methods (reply Status.ok sequence)) ∷ [])
dispatch lookup request sequence s Message.describe = describe lookup request sequence s
dispatch lookup request sequence s Message.setup = setup lookup request sequence s
dispatch lookup request sequence s Message.play = start sequence s s.state s.path
dispatch lookup request sequence s Message.pause = stop sequence s s.state
dispatch lookup request sequence s Message.teardown =
    (s, respond (confirm sequence s) ∷ teardown ∷ [])
dispatch lookup request sequence s Message.get_parameter = (s, respond (confirm sequence s) ∷ [])
dispatch lookup request sequence s Message.announce = answer Status.method_not_allowed sequence s
dispatch lookup request sequence s Message.record_method =
    answer Status.method_not_allowed sequence s
dispatch lookup request sequence s Message.set_parameter =
    answer Status.method_not_allowed sequence s
dispatch lookup request sequence s (Message.other name) =
    answer Status.method_not_allowed sequence s

-- The sequence number that a request is answered with.
unfoldable pub sequence_or_zero : Option Bytes → Bytes
sequence_or_zero none = codes "0"
sequence_or_zero (some text) = text

unfoldable pub handle : Lookup → Request → Session → Handled
unfolding dispatch sequence sequence_or_zero
handle lookup request s =
    dispatch lookup request (sequence_or_zero (sequence request)) s request.method
