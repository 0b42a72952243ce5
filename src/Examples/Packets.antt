-- ===== src/Examples/Packets.antt =====
-- Runs of src/rtp on a stream whose packets have room for eight bytes behind the header.
use relaybay.Base.{◌≡◌, ◌↔◌, false, true, [], ◌∷◌, some, none, List, Bytes, arith, map, length}
use relaybay.Base.Outcome.{ok, panic}
use relaybay.Codec.H264.{Nal, sps, idr}
use relaybay.Rtp.{Stream, video_type, with_mtu, timestamp, budget}
use relaybay.Rtp.Packets.{IsValid, Carried, Carries, payloads, ends_frame}
use relaybay.Rtp.H264
use relaybay.Rtp.H264.Delivery.{packetize-rebuild}
use relaybay.Rtp.H264.Receiver.{rebuild}
use relaybay.Rtp.Aac
use relaybay.Rtp.Aac.Delivery.{receive, packetize-receive}
use relaybay.Rtp.Small.{Panics, with_mtu-panic_iff}

abbrev narrow : Stream
narrow = record {
  ssrc = 0x1234_5678;
  payload_type = video_type;
  clock_rate = 90_000;
  sequence = 65_535;
  origin = 4_294_967_295;
  mtu = 20;
}

narrow-IsValid : IsValid narrow
narrow-IsValid = record {
  type_fits = omega arith;
  sequence_fits = omega arith;
  ssrc_fits = omega arith;
  room = omega arith;
}

abbrev short_unit : Nal
short_unit = record { kind = sps; contents = 0x67 ∷ 0x42 ∷ [] }

abbrev long_unit : Nal
long_unit = record { kind = idr; contents = 0x65 ∷ 1 ∷ 2 ∷ 3 ∷ 4 ∷ 5 ∷ 6 ∷ 7 ∷ 8 ∷ 9 ∷ [] }

packetize-rebuild_example :
    (ps : List Bytes) × (cs : List Carried) × (s' : Stream) × (H264.packetize true narrow
        (short_unit ∷ long_unit ∷ [])
        1_000_000_000
      ≡ ok (ps, s'))
    × Carries narrow (timestamp narrow 1_000_000_000) ps cs s'
    × (rebuild none (payloads cs) ≡ some (map (λ m. m.contents) (short_unit ∷ long_unit ∷ [])))
    × (ends_frame cs ≡ true)
unfolding budget
packetize-rebuild_example =
    packetize-rebuild true narrow short_unit (long_unit ∷ []) 1_000_000_000 narrow-IsValid
      (omega arith)
      ((omega arith, omega arith, omega arith), ((omega arith, omega arith, omega arith), tt))

abbrev frame : Bytes
frame = 0x21 ∷ 0x10 ∷ 3 ∷ 4 ∷ 5 ∷ 6 ∷ []

packetize-receive_example :
    (ps : List Bytes) × (cs : List Carried) × (s' : Stream) × (Aac.packetize true narrow frame 0
      ≡ ok (ps, s'))
    × Carries narrow (timestamp narrow 0) ps cs s'
    × (receive (length frame) (payloads cs) ≡ some frame)
    × (ends_frame cs ≡ true)
unfolding budget
packetize-receive_example =
    packetize-receive true narrow frame 0 narrow-IsValid (omega arith) (omega arith)

-- Room for two bytes: in a release build too the division by what is left of it panics.
with_mtu-panic_iff_example :
    (s' : Stream) × (with_mtu narrow 14 ≡ ok s')
    × ((H264.packetize false s' (long_unit ∷ []) 0 ≡ panic) ↔ Panics false 2 2)
    × ((Aac.packetize false s' frame 0 ≡ panic) ↔ Panics false 2 4)
with_mtu-panic_iff_example =
    with_mtu-panic_iff false narrow 14 0 long_unit frame (omega arith) (omega arith) (omega arith)
