-- ===== src/Rtsp/Server/Delivery.antt =====
-- What a player gets of a unit that src/rtsp/server.rs writes.
use relaybay.Base.{ℕ, ◌^◌, ◌≤◌, ◌<◌, ◌≡◌, refl, ap, ◌∙◌, subst, arith, true, eqb, eqb_iff}
use relaybay.Base.{
  none, some, List, [], ◌∷◌, ◌++◌, map, append_assoc, append-nil, Bytes, All, length,
}
use relaybay.Base.Outcome.{ok}
use relaybay.Codec.H264.{Nal}
use relaybay.Unit.{VideoUnit, AudioUnit, MediaUnit, video, audio}
use relaybay.Unit
use relaybay.Rtp.{Stream, budget, timestamp, next}
use relaybay.Rtp.Packets.{IsValid, Carried, Carries, payloads, next-IsValid}
use relaybay.Rtp.H264.Receiver.{rebuild}
use relaybay.Rtp.H264.Rebuild.{IsUnit}
use relaybay.Base.{Bool}
use relaybay.Rtp.H264.Delivery.{packetize-rebuild}
use relaybay.Rtp.Aac.Delivery.{receive, packetize-receive}
use relaybay.Rtp.Aac.{max_access_unit, prefix_size}
use relaybay.Rtsp.Incoming.{Incoming, interleaved, read}
use relaybay.Rtsp.Incoming.RoundTrip.{read-interleave}
use relaybay.Rtsp.Server.{Bound, h264, aac, put_packets, framed, write, write_payload, track_of}

-- Messages that are read off bytes, one behind another, and what is left.
pub data Reads : Bytes → List Incoming → Bytes → Type 0 where
  no_more : {bytes : Bytes} → Reads bytes [] bytes
  first :
      {bytes rest end : Bytes} {message : Incoming} {messages : List Incoming}
      → read bytes ≡ ok (some message, rest)
      → Reads rest messages end
      → Reads bytes (message ∷ messages) end

put_packets-Reads :
    (channel : ℕ) (packets : List Bytes) (rest : Bytes)
    → All (λ p. length p < 2 ^ 16) packets
    → Reads (put_packets channel packets ++ rest) (map (interleaved channel) packets) rest
unfolding put_packets framed
put_packets-Reads channel [] rest hs = no_more
put_packets-Reads channel (packet ∷ packets) rest (h, hs) =
    let later = put_packets channel packets in
    let (frame, made, back) = read-interleave channel packet (later ++ rest) h in
    rw made (
      first (ap read (append_assoc frame later rest) ∙ back)
        (put_packets-Reads channel packets rest hs))

Carries-short :
    (s s' : Stream) (stamp : ℕ) (ps : List Bytes) (cs : List Carried)
    → IsValid s
    → s.mtu < 2 ^ 16
    → Carries s stamp ps cs s'
    → All (λ p. length p < 2 ^ 16) ps
unfolding Carries
Carries-short s s' stamp [] cs v h c = tt
Carries-short s s' stamp (p ∷ ps) [] v h c = absurd c
Carries-short s s' stamp (p ∷ ps) ((marker, payload) ∷ cs) v h (made, fits, more) =
    (omega arith, Carries-short (next s) s' stamp ps cs (next-IsValid s v) h more)

all_frames :
    (channel : ℕ) (s s' : Stream) (stamp : ℕ) (ps : List Bytes) (cs : List Carried)
    → IsValid s
    → s.mtu < 2 ^ 16
    → Carries s stamp ps cs s'
    → Reads (put_packets channel ps) (map (interleaved channel) ps) []
all_frames channel s s' stamp ps cs valid short carried =
    subst (λ bytes. Reads bytes (map (interleaved channel) ps) [])
      (append-nil (put_packets channel ps))
      (put_packets-Reads channel ps [] (Carries-short s s' stamp ps cs valid short carried))

-- A picture of the first track that was set up, with units of types 1 to 23, is written as frames on the
-- channel of the track, and a player that reads them and takes RFC 6184's single units and FU-A
-- fragments, and nothing else, has the units of the picture. A packet has room for three bytes and is
-- shorter than 65536.
pub write-rebuild :
    (checks : Bool) (bound : Bound) (bounds : List Bound) (s : Stream) (u : VideoUnit) (n : Nal)
    (nalus : List Nal)
    → bound.packetizer ≡ h264 s
    → bound.track ≡ u.track
    → u.payload ≡ Unit.h264 (n ∷ nalus)
    → IsValid s
    → 2 < budget s
    → s.mtu < 2 ^ 16
    → All (λ m. IsUnit m.contents) (n ∷ nalus)
    → (frames : Bytes) × (ps : List Bytes) × (cs : List Carried) × (s' : Stream) × (write checks
          (bound ∷ bounds)
          (video u)
        ≡ ok (frames, record bound { packetizer = h264 s' } ∷ bounds))
      × Reads frames (map (interleaved bound.channel) ps) []
      × Carries s (timestamp s u.pts) ps cs s'
      × (rebuild none (payloads cs) ≡ some (map (λ m. m.contents) (n ∷ nalus)))
unfolding write track_of write_payload
write-rebuild checks bound bounds s u n nalus is_h264 same is_payload valid room short units =
    let (ps, cs, s', made, carried, rebuilt, marked) =
      packetize-rebuild checks s n nalus u.pts valid room units in
    let here : eqb bound.track u.track ≡ true = (eqb_iff bound.track u.track).1 same in
    (
      put_packets bound.channel ps,
      ps,
      cs,
      s',
      rw (here, is_h264, is_payload, made) refl,
      all_frames bound.channel s s' _ ps cs valid short carried,
      carried,
      rebuilt,
    )

-- A frame of sound of up to 8191 bytes, of a track that was set up, is written as frames on the channel
-- of the track, and a player that reads them and puts the pieces together after RFC 3640 has the frame.
-- A packet has room behind the prefix and is shorter than 65536.
pub write-receive :
    (checks : Bool) (bound : Bound) (bounds : List Bound) (s : Stream) (u : AudioUnit)
    (sound : Bytes)
    → bound.packetizer ≡ aac s
    → bound.track ≡ u.track
    → u.payload ≡ Unit.aac sound
    → IsValid s
    → prefix_size < budget s
    → s.mtu < 2 ^ 16
    → length sound ≤ max_access_unit
    → (frames : Bytes) × (ps : List Bytes) × (cs : List Carried) × (s' : Stream) × (write checks
          (bound ∷ bounds)
          (audio u)
        ≡ ok (frames, record bound { packetizer = aac s' } ∷ bounds))
      × Reads frames (map (interleaved bound.channel) ps) []
      × Carries s (timestamp s u.pts) ps cs s'
      × (receive (length sound) (payloads cs) ≡ some sound)
unfolding write track_of write_payload
write-receive checks bound bounds s u sound is_aac same is_payload valid room short fits =
    let (ps, cs, s', made, carried, received, marked) =
      packetize-receive checks s sound u.pts valid room fits in
    let here : eqb bound.track u.track ≡ true = (eqb_iff bound.track u.track).1 same in
    (
      put_packets bound.channel ps,
      ps,
      cs,
      s',
      rw (here, is_aac, is_payload, made) refl,
      all_frames bound.channel s s' _ ps cs valid short carried,
      carried,
      received,
    )
