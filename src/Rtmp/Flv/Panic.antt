-- ===== src/Rtmp/Flv/Panic.antt =====
-- Where `read_video` of src/rtmp/flv.rs panics: on bytes that a peer chooses.
use relaybay.Base.{ℕ, ◌/◌, ◌%◌, ◌<◌, ◌≡◌, ◌≢◌, ◌↔◌, refl, ap, eqb}
use relaybay.Base.{[], ◌∷◌, Bytes, length, arith, Bool}
use relaybay.Base.{eqb_iff, ◌||◌, gt→leb}
use relaybay.Rtmp.Flv.{
  ok, panic, avc, byte, slice_from, get_range, composition_time, read_packet, read_coded,
  read_video,
}

-- An AVC tag that says it is a sequence header and ends before its composition time does.
pub record IsCutHeader (bs : Bytes) : Type 0 where
  pub first : ℕ
  pub rest : Bytes
  pub shape : bs ≡ first ∷ 0 ∷ rest
  pub plain : first / 128 ≡ 0
  pub codec : first % 16 ≡ avc
  pub cut : length rest < 3

read_packet_panics :
    (bs : Bytes) (keyframe : Bool) (kind : ℕ)
    → read_packet bs keyframe kind ≡ panic
    → (kind ≡ 0) × (length bs < 5)
unfolding read_packet composition_time get_range slice_from
read_packet_panics bs keyframe kind h = ground arith

cut_panics : (bs : Bytes) (keyframe : Bool) → length bs < 5 → read_packet bs keyframe 0 ≡ panic
unfolding read_packet slice_from
cut_panics bs keyframe h = rw (gt→leb 5 (length bs) h)

-- What the first byte must say for the packet to be read.
coded_panics :
    (bs : Bytes) (first kind : ℕ)
    → byte bs 1 ≡ ok kind
    → read_coded bs first ≡ panic
    → (first / 128 ≡ 0) × (first % 16 ≡ avc) × (kind ≡ 0) × (length bs < 5)
unfolding read_coded
coded_panics bs first kind e h =
    ground (arith, read_packet_panics bs (eqb (first / 16) 1 || eqb (first / 16) 4) kind)

panics_cut :
    (first : ℕ) (rest : Bytes)
    → first / 128 ≡ 0
    → first % 16 ≡ avc
    → length rest < 3
    → read_coded (first ∷ 0 ∷ rest) first ≡ panic
unfolding read_coded byte
panics_cut first rest h1 h2 h3 =
    rw ((eqb_iff (first / 128) 0).1 h1, (eqb_iff (first % 16) avc).1 h2)
      (cut_panics (first ∷ 0 ∷ rest) (eqb (first / 16) 1 || eqb (first / 16) 4) (omega arith))

-- `read_video` panics on exactly these bytes: an AVC sequence header of two to four bytes. A picture
-- that is as short is refused by an error.
pub read_video-eq-panic_iff : (bs : Bytes) → (read_video bs ≡ panic) ↔ IsCutHeader bs
unfolding read_video byte
read_video-eq-panic_iff [] = (λ h. cc, λ c. cc (c.shape))
read_video-eq-panic_iff (first ∷ []) = (λ h. absurd (one_byte h), λ c. cc (c.shape))
  where
    one_byte : read_coded (first ∷ []) first ≢ panic
    one_byte h = unfold read_coded in ground arith
read_video-eq-panic_iff (first ∷ kind ∷ rest) = (found, rebuilt)
  where
    found : read_coded (first ∷ kind ∷ rest) first ≡ panic → IsCutHeader (first ∷ kind ∷ rest)
    found h =
        let (plain, codec, zeroth, short) = coded_panics (first ∷ kind ∷ rest) first kind refl h in
        record {
          first = first;
          rest = rest;
          shape = ap (λ k. first ∷ k ∷ rest) zeroth;
          plain = plain;
          codec = codec;
          cut = omega arith;
        }

    rebuilt : IsCutHeader (first ∷ kind ∷ rest) → read_coded (first ∷ kind ∷ rest) first ≡ panic
    rebuilt c =
        let firsts : first ≡ c.first = cc (c.shape) in
        let kinds : kind ≡ 0 = cc (c.shape) in
        let rests : rest ≡ c.rest = cc (c.shape) in
        rw (kinds, firsts, rests) (panics_cut c.first c.rest c.plain c.codec c.cut)
