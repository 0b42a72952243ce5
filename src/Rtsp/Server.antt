-- ===== src/Rtsp/Server.antt =====
-- src/rtsp/server.rs: what one connection does between two waits on its socket.
pub mod Serving
pub mod Total
pub mod Delivery
use relaybay.Base.{
  ℕ, zero, suc, ◌+◌, ◌%◌, ◌^◌, Bool, eqb, if◌then◌else◌, Option, none, some, List, [], ◌∷◌, ◌++◌,
  Bytes,
}
use relaybay.Base.Outcome.{Outcome, err, ok, panic, spent, ◌>>=◌}
use relaybay.Codec.H264.{Nal}
use relaybay.Unit.{MediaUnit, VideoPayload, AudioPayload, video, audio}
use relaybay.Unit
use relaybay.Rtp.{Stream, RtpError, video_type, audio_type}
use relaybay.Rtp
use relaybay.Rtp.H264
use relaybay.Rtp.Aac
use relaybay.Track.{Description, Track, Codec, codec_kind, clock_rate}
use relaybay.Track
use relaybay.Rtsp.Message.{response_bytes}
use relaybay.Rtsp.Transport.{Transport, interleaved, udp}
use relaybay.Rtsp.Incoming.{Incoming, RtspError, interleave, read}
use relaybay.Rtsp.Incoming
use relaybay.Rtsp.Session.Types.{Session, Setup, Action, respond, play, pause, teardown}
use relaybay.Rtsp.Session.Handle.{Lookup, handle}

pub data Packetizer : Type 0 where
  h264 aac : Stream → Packetizer

-- One track that the client asked for, and what turns its units into packets.
pub record Bound : Type 0 where
  pub track : ℕ
  pub channel : ℕ
  pub packetizer : Packetizer

unfoldable new_packetizer : ℕ → Codec → Packetizer
new_packetizer ssrc (Track.h264 parameters) =
    h264 (Rtp.new ssrc video_type (clock_rate (Track.h264 parameters)))
new_packetizer ssrc (Track.aac parameters) =
    aac (Rtp.new ssrc audio_type (clock_rate (Track.aac parameters)))

-- A track that is bound takes a number off the counter of sources.
unfoldable bind_over : Setup → Transport → Track → ℕ → Option Bound × ℕ
unfolding new_packetizer
bind_over setup (udp rtp rtcp) track counter = (none, counter)
bind_over setup (interleaved rtp rtcp) track counter = (
  some (record {
    track = setup.track;
    channel = rtp;
    packetizer = new_packetizer counter track.codec;
  }),
  (counter + 1) % 2 ^ 32,
)

unfoldable bind : Setup → Option Track → ℕ → Option Bound × ℕ
unfolding bind_over
bind setup none counter = (none, counter)
bind setup (some track) counter = bind_over setup setup.transport track counter

unfoldable keep_bound : Option Bound → List Bound → List Bound
keep_bound none bounds = bounds
keep_bound (some bound) bounds = bound ∷ bounds

unfoldable pub bind_all : Description → List Setup → ℕ → List Bound × ℕ
unfolding bind keep_bound Track.track
bind_all description [] counter = ([], counter)
bind_all description (setup ∷ setups) counter =
    let (bound, counter₁) = bind setup (Track.track description setup.track) counter in
    let (bounds, counter₂) = bind_all description setups counter₁ in
    (keep_bound bound bounds, counter₂)

-- `attach`, where the registry has given a reader of a stream or nothing.
unfoldable pub attach : Option Description → List Setup → ℕ → Option (List Bound) × ℕ
unfolding bind_all
attach none setups counter = (none, counter)
attach (some description) setups counter =
    let (bounds, counter₁) = bind_all description setups counter in (some bounds, counter₁)

unfoldable pub framed : Outcome RtspError Bytes → Bytes
framed (ok frame) = frame
framed (err why) = []
framed panic = []
framed spent = []

-- The frames of packets on a channel; one that is too long is left out.
unfoldable pub put_packets : ℕ → List Bytes → Bytes
unfolding framed interleave
put_packets channel [] = []
put_packets channel (packet ∷ packets) =
    framed (interleave channel packet) ++ put_packets channel packets

-- What a unit comes to on the connection, and the packetizer behind it.
abbrev pub Written : Type 0
Written = Outcome RtpError (Bytes × Packetizer)

unfoldable pub h264_written : ℕ → Outcome RtpError (List Bytes × Stream) → Written
unfolding put_packets
h264_written channel made = do (packets, s) ← made; ok (put_packets channel packets, h264 s)

-- A frame that cannot be expressed is dropped.
unfoldable pub aac_written : ℕ → Stream → Outcome RtpError (List Bytes × Stream) → Written
unfolding put_packets
aac_written channel before (ok (packets, s)) = ok (put_packets channel packets, aac s)
aac_written channel before (err why) = ok ([], aac before)
aac_written channel before panic = panic
aac_written channel before spent = spent

unfoldable pub h264_payload : Bool → ℕ → Stream → ℕ → VideoPayload → Written
unfolding h264_written H264.packetize
h264_payload checks channel s pts (Unit.h264 nalus) =
    h264_written channel (H264.packetize checks s nalus pts)

unfoldable pub aac_payload : Bool → ℕ → Stream → ℕ → AudioPayload → Written
unfolding aac_written Aac.packetize
aac_payload checks channel s pts (Unit.aac frame) =
    aac_written channel s (Aac.packetize checks s frame pts)

unfoldable pub write_payload : Bool → ℕ → Packetizer → MediaUnit → Written
unfolding h264_payload aac_payload
write_payload checks channel (h264 s) (video u) = h264_payload checks channel s u.pts u.payload
write_payload checks channel (h264 s) (audio u) = ok ([], h264 s)
write_payload checks channel (aac s) (video u) = ok ([], aac s)
write_payload checks channel (aac s) (audio u) = aac_payload checks channel s u.pts u.payload

unfoldable pub track_of : MediaUnit → ℕ
track_of (video u) = u.track
track_of (audio u) = u.track

-- `Playing::write`: the first of the tracks that is the unit's, if one is. `checks` is whether the build
-- has overflow checks.
unfoldable pub write : Bool → List Bound → MediaUnit → Outcome RtpError (Bytes × List Bound)
unfolding write_payload track_of
write checks [] unit = ok ([], [])
write checks (bound ∷ bounds) unit =
    let here = do
      (frames, packetizer) ← write_payload checks bound.channel bound.packetizer unit
      ok (frames, record bound { packetizer = packetizer } ∷ bounds)
    in let later = do (frames, after) ← write checks bounds unit; ok (frames, bound ∷ after)
      in if eqb bound.track (track_of unit) then here else later

-- The registry, as it stands while what has come in is answered: what a path is, and of which
-- stream a reader of a path is.
pub record World : Type 0 where
  pub lookup : Lookup
  pub opened : Bytes → Option Description

pub record Connection : Type 0 where
  pub buf : Bytes
  pub out : Bytes
  pub session : Session
  pub playing : Option (List Bound)
  pub counter : ℕ

-- Either the loop goes on, or the connection ends when the last bytes are written.
pub data After : Type 0 where
  goes_on : Connection → After
  closes : Bytes → After

-- Without a stream the connection ends.
unfoldable pub begin : (Connection → After) → Connection → Option (List Bound) × ℕ → After
begin next c (none, counter) = closes c.out
begin next c (some bounds, counter) = next (record c { playing = some bounds; counter = counter })

unfoldable pub act : World → List Action → Connection → After
unfolding begin attach response_bytes
act w [] c = goes_on c
act w (respond r ∷ actions) c = act w actions (record c { out = c.out ++ response_bytes r })
act w (play path setups ∷ actions) c =
    begin (act w actions) c (attach (w.opened path) setups c.counter)
act w (pause ∷ actions) c = act w actions (record c { playing = none })
act w (teardown ∷ actions) c = closes c.out

abbrev pub Served : Type 0
Served = Outcome RtspError After

unfoldable pub go_on : (Connection → Served) → After → Served
go_on next (goes_on c) = next c
go_on next (closes out) = ok (closes out)

-- What is done about one message. Reports of the client's are read past.
unfoldable pub serve_one :
    (Connection → Served) → World → Connection → Option Incoming × Bytes → Served
unfolding go_on act handle
serve_one next w c (none, rest) = ok (goes_on (record c { buf = rest }))
serve_one next w c (some (Incoming.interleaved channel report), rest) =
    next (record c { buf = rest })
serve_one next w c (some (Incoming.request request), rest) =
    let (s, actions) = handle w.lookup request c.session in
    go_on next (act w actions (record c { buf = rest; session = s }))

-- The loop over the buffer, on fuel.
unfoldable pub serve : ℕ → World → Connection → Served
unfolding serve_one read
serve zero w c = spent
serve (suc fuel) w c = read c.buf >>= λ taken. serve_one (serve fuel w) w c taken
