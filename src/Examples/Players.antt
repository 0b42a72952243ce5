-- ===== src/Examples/Players.antt =====
-- Runs of src/rtsp/server.rs.
use relaybay.Base.{◌≡◌, refl, true, false, [], ◌∷◌, ◌++◌, some, none, List, Bytes, arith, map}
use relaybay.Base.Outcome.{ok, Ensures}
use relaybay.Text.{codes}
use relaybay.Codec.H264
use relaybay.Codec.H264.{Nal, new}
use relaybay.Unit
use relaybay.Unit.{VideoUnit, video}
use relaybay.Rtp.{Stream, budget, timestamp, video_type}
use relaybay.Rtp.Packets.{IsValid, Carried, Carries, payloads}
use relaybay.Rtp.H264.Receiver.{rebuild}
use relaybay.Rtsp.Message.{response_bytes, crlf}
use relaybay.Rtsp.Incoming.{read, interleaved}
use relaybay.Rtsp.Session.Types.{Session}
use relaybay.Rtsp.Session.Types
use relaybay.Rtsp.Session.Handle.{confirm}
use relaybay.Rtsp.Server.{Connection, World, After, goes_on, serve, Bound, write, act}
use relaybay.Rtsp.Server
use relaybay.Rtsp.Server.Serving.{Serves, extend}
use relaybay.Rtsp.Server.Total.{serve-Serves, serve-extend}
use relaybay.Rtsp.Server.Delivery.{Reads, write-rebuild}

-- Nothing is published.
abbrev empty_world : World
empty_world = record { lookup = λ path. none; opened = λ path. none }

abbrev quiet : Session
quiet = record { state = Types.init; id = codes "00c0ffee"; path = none; tracks = []; udp = false }

-- The first half of a request.
abbrev half_asked : Connection
half_asked = record {
  buf = codes "GET_PARAMETER * RT";
  out = [];
  session = quiet;
  playing = none;
  counter = 0;
}

abbrev other_half : Bytes
other_half = codes "SP/1.0" ++ (crlf ++ (codes "CSeq: 9" ++ (crlf ++ (crlf ++ codes "P"))))

abbrev all_asked : Connection
all_asked = record half_asked { buf = codes "P"; out = response_bytes (confirm (codes "9") quiet) }

half_waits : serve 19 empty_world half_asked ≡ ok (goes_on half_asked)
unfolding serve read
half_waits = refl

other_half_answered : serve 42 empty_world (extend other_half half_asked) ≡ ok (goes_on all_asked)
unfolding serve read
other_half_answered = refl

serve-extend_example : serve 60 empty_world (extend other_half half_asked) ≡ ok (goes_on all_asked)
serve-extend_example =
    serve-extend empty_world other_half half_asked half_asked (goes_on all_asked) 19 42 60
      (omega arith) half_waits (omega arith) other_half_answered (omega arith)

serve-Serves_example :
    Ensures
      (Serves empty_world (extend other_half half_asked))
      (serve 60 empty_world (extend other_half half_asked))
serve-Serves_example = serve-Serves 60 empty_world (extend other_half half_asked) (omega arith)

-- A stream with packets so short that a unit of nine bytes is cut in two.
abbrev narrow_stream : Stream
narrow_stream = record {
  ssrc = 7;
  payload_type = video_type;
  clock_rate = 90_000;
  sequence = 65_535;
  origin = 4_294_967_295;
  mtu = 20;
}

narrow_stream-IsValid : IsValid narrow_stream
narrow_stream-IsValid = record {
  type_fits = omega arith;
  sequence_fits = omega arith;
  ssrc_fits = omega arith;
  room = omega arith;
}

abbrev cut_unit : Nal
cut_unit = record { kind = H264.idr; contents = 0x65 ∷ 1 ∷ 2 ∷ 3 ∷ 4 ∷ 5 ∷ 6 ∷ 7 ∷ 8 ∷ [] }

abbrev picture : VideoUnit
picture = record {
  track = 0;
  payload = Unit.h264 (cut_unit ∷ []);
  pts = 40_000_000;
  dts = 40_000_000;
  keyframe = true;
}

abbrev watched : Bound
watched = record { track = 0; channel = 2; packetizer = Server.h264 narrow_stream }

write-rebuild_example :
    (frames : Bytes) × (ps : List Bytes) × (cs : List Carried) × (s' : Stream) × (write false
        (watched ∷ [])
        (video picture)
      ≡ ok (frames, record watched { packetizer = Server.h264 s' } ∷ []))
    × Reads frames (map (interleaved 2) ps) []
    × Carries narrow_stream (timestamp narrow_stream 40_000_000) ps cs s'
    × (rebuild none (payloads cs) ≡ some (map (λ m. m.contents) (cut_unit ∷ [])))
unfolding budget
write-rebuild_example =
    write-rebuild false watched [] narrow_stream picture cut_unit [] refl refl refl
      narrow_stream-IsValid (omega arith) (omega arith)
      ((omega arith, omega arith, omega arith), tt)
