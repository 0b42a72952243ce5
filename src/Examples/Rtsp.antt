-- ===== src/Examples/Rtsp.antt =====
-- Runs of src/rtsp/message.rs, src/rtsp/session.rs and src/rtsp/sdp.rs.
use relaybay.Base.{◌≡◌, refl, true, if◌then◌else◌, [], ◌∷◌, ◌++◌, some, none, Bytes, arith, All}
use relaybay.Base.Outcome.{ok}
use relaybay.Text.{codes, beq}
use relaybay.Track
use relaybay.Track.{Description, Codec}
use relaybay.Rtsp.Message
use relaybay.Rtsp.Message.{Request, Headers, sequence}
use relaybay.Rtsp.Incoming
use relaybay.Rtsp.Incoming.{read, interleave, interleaved, read_interleaved}
use relaybay.Rtsp.Incoming.Settled.{read-more}
use relaybay.Rtsp.Transport
use relaybay.Rtsp.Transport.{Transport, to_header, parse_transport}
use relaybay.Rtsp.Transport.RoundTrip.{parse_transport-to_header}
use relaybay.Rtsp.Base64.{base64}
use relaybay.Rtsp.Base64.RoundTrip.{decode, decode-base64}
use relaybay.Rtsp.Sdp.{sanitize}
use relaybay.Rtsp.Session.Names.{path_of, split_track}
use relaybay.Rtsp.Session.Types.{new, accepting_udp}
use relaybay.Rtsp.Session.Handle.{Lookup, handle, sequence_or_zero}
use relaybay.Rtsp.Session.Answers.{IsAnswered, handle-IsAnswered}
use relaybay.Rtsp.Session.Run.{run, run-IsFit, IsFit}

-- A frame on channel 2, and the first byte of the next.
abbrev framed : Bytes
framed = b'$' ∷ 2 ∷ 0 ∷ 3 ∷ 7 ∷ 8 ∷ 9 ∷ []

framed-read : read framed ≡ ok (some (interleaved 2 (7 ∷ 8 ∷ 9 ∷ [])), [])
unfolding read read_interleaved
framed-read = refl

read-more_example :
    read (framed ++ (b'$' ∷ [])) ≡ ok (some (interleaved 2 (7 ∷ 8 ∷ 9 ∷ [])), [] ++ (b'$' ∷ []))
read-more_example = read-more framed (b'$' ∷ []) [] (interleaved 2 (7 ∷ 8 ∷ 9 ∷ [])) framed-read

-- A request for the camera's description, with a body of two bytes.
abbrev headers_sent : Headers
headers_sent = (codes "CSeq", codes "2") ∷ (codes "Content-Length", codes "2") ∷ []

abbrev asked_for : Bytes → Request
asked_for uri = record {
  method = Message.describe;
  uri = uri;
  headers = headers_sent;
  body = b'h' ∷ b'i' ∷ [];
}

abbrev uri_sent : Bytes
uri_sent = codes "rtsp://h/cam"

parse_transport-to_header_example :
    parse_transport (to_header (Transport.udp 5000 5001) (some (6000, 6001)))
    ≡ some (Transport.udp 5000 5001)
unfolding Transport.RoundTrip.IsNumbered
parse_transport-to_header_example =
    parse_transport-to_header (Transport.udp 5000 5001) (some (6000, 6001))
      (omega arith, omega arith)

decode-base64_example : decode (base64 (1 ∷ 2 ∷ 255 ∷ 4 ∷ [])) ≡ some (1 ∷ 2 ∷ 255 ∷ 4 ∷ [])
decode-base64_example = decode-base64 (1 ∷ 2 ∷ 255 ∷ 4 ∷ []) (ground arith)

-- One path, with one track.
abbrev sound : Description
sound = record {
  tracks =
      record {
        id = 0;
        codec =
            Track.aac (record {
              config = 18 ∷ 16 ∷ [];
              object_type = 2;
              sample_rate = 44100;
              channels = 2;
            });
      }
      ∷ [];
}

abbrev known : Lookup
known path = if beq path (codes "cam") then some sound else none

handle-IsAnswered_example :
    IsAnswered
      (sequence_or_zero (sequence (asked_for uri_sent)))
      (handle known (asked_for uri_sent) (new 7)).1
handle-IsAnswered_example = handle-IsAnswered known (asked_for uri_sent) (new 7)

abbrev sets_up : Request
sets_up = record {
  method = Message.setup;
  uri = codes "rtsp://h/cam/trackID=0";
  headers = (codes "Transport", codes "RTP/AVP/TCP;interleaved=0-1") ∷ [];
  body = [];
}

abbrev plays : Request
plays = record { method = Message.play; uri = uri_sent; headers = []; body = [] }

run-IsFit_example :
    All (IsFit true) (run ((known, sets_up) ∷ (known, plays) ∷ []) (accepting_udp true (new 7)))
run-IsFit_example = run-IsFit ((known, sets_up) ∷ (known, plays) ∷ []) 7 true

-- What the tests of the source ask of paths, tracks, base64, offers and names.
path_of-port : path_of (codes "rtsp://host:8554/live/cam1/") ≡ codes "live/cam1"
unfolding path_of
path_of-port = refl

path_of-query : path_of (codes "rtsp://host/live/cam1?token=abc") ≡ codes "live/cam1"
unfolding path_of
path_of-query = refl

split_track-name : split_track (codes "live/cam1/trackID=1") ≡ (codes "live/cam1", some 1)
unfolding split_track
split_track-name = refl

split_track-other : split_track (codes "live/quality=1") ≡ (codes "live/quality=1", none)
unfolding split_track
split_track-other = refl

base64-padded : base64 (codes "fooba") ≡ codes "Zm9vYmE="
unfolding base64
base64-padded = refl

sanitize-control : sanitize (b'a' ∷ 10 ∷ 194 ∷ 133 ∷ b'b' ∷ []) ≡ b'a' ∷ 32 ∷ 32 ∷ b'b' ∷ []
unfolding sanitize
sanitize-control = refl

parse_transport-second :
    parse_transport (codes "RTP/AVP;multicast;client_port=1-2, RTP/AVP/TCP;interleaved=0-1")
    ≡ some (Transport.interleaved 0 1)
unfolding parse_transport
parse_transport-second = refl
