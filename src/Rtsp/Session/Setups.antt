-- ===== src/Rtsp/Session/Setups.antt =====
-- The list of tracks that a session of src/rtsp/session.rs keeps, and the choice of a transport.
use relaybay.Base.{ℕ, Bool, true, false, eqb, ◌||◌, some, List, [], ◌∷◌}
use relaybay.Base.{
  ◌++◌, All, All-append, ◌≡◌, ◌≢◌, refl, sym, ◌∙◌, Bool-cases, inl, inr, subst, some_inj, arith,
}
use relaybay.Rtsp.Transport.{Transport}
use relaybay.Rtsp.Session.Types.{Setup}
use relaybay.Rtsp.Session.Handle.{is_interleaved, choose, without_track}

unfoldable pub AreDistinct : List Setup → Type 0
AreDistinct [] = Unit {0}
AreDistinct (setup ∷ setups) =
    All (λ (other : Setup). other.track ≢ setup.track) setups × AreDistinct setups

-- What is sent over the connection can be sent; what is sent over UDP only where that was said.
unfoldable pub IsSendable : Bool → Setup → Type 0
unfolding is_interleaved
IsSendable over_udp setup = (over_udp || is_interleaved setup.transport) ≡ true

choose_later :
    (over_udp : Bool) (offer : Transport) (offers : List Transport)
    → (over_udp || is_interleaved offer) ≡ false
    → choose over_udp (offer ∷ offers) ≡ choose over_udp offers
unfolding choose
choose_later over_udp offer offers unfit = rw unfit refl

choose_here :
    (over_udp : Bool) (offer : Transport) (offers : List Transport)
    → (over_udp || is_interleaved offer) ≡ true
    → choose over_udp (offer ∷ offers) ≡ some offer
unfolding choose
choose_here over_udp offer offers fits = rw fits refl

eqb_ne : (a b : ℕ) → eqb a b ≡ false → a ≢ b
eqb_ne a b h e = ground (arith, h, e)

-- The first of the offers that can be sent on can be sent on.
pub choose-IsSendable :
    (over_udp : Bool) (offers : List Transport) {t : Transport}
    → choose over_udp offers ≡ some t
    → (over_udp || is_interleaved t) ≡ true
unfolding choose
choose-IsSendable over_udp [] e = cc
choose-IsSendable over_udp (offer ∷ offers) e =
    elim (Bool-cases (over_udp || is_interleaved offer)) [
      | inl fits ↦
          subst (λ o. (over_udp || is_interleaved o) ≡ true)
            (some_inj (sym (choose_here over_udp offer offers fits) ∙ e)) fits
      | inr unfit ↦
          choose-IsSendable over_udp offers (sym (choose_later over_udp offer offers unfit) ∙ e)
    ]

pub All-without_track :
    (P : Setup → Type 0) (track : ℕ) (setups : List Setup)
    → All P setups
    → All P (without_track track setups)
unfolding without_track
All-without_track P track [] hs = tt
All-without_track P track (setup ∷ setups) (h, hs) = elim (Bool-cases (eqb setup.track track)) [
  | inl same ↦ rw same (All-without_track P track setups hs)
  | inr other ↦ rw other (h, All-without_track P track setups hs)
]

pub without_track-lacks :
    (track : ℕ) (setups : List Setup)
    → All (λ (other : Setup). other.track ≢ track) (without_track track setups)
unfolding without_track
without_track-lacks track [] = tt
without_track-lacks track (setup ∷ setups) = elim (Bool-cases (eqb setup.track track)) [
  | inl same ↦ rw same (without_track-lacks track setups)
  | inr other ↦ rw other (λ e. eqb_ne setup.track track other e, without_track-lacks track setups)
]

pub without_track-AreDistinct :
    (track : ℕ) (setups : List Setup)
    → AreDistinct setups
    → AreDistinct (without_track track setups)
unfolding without_track AreDistinct
without_track-AreDistinct track [] hs = tt
without_track-AreDistinct track (setup ∷ setups) (h, hs) =
    elim (Bool-cases (eqb setup.track track)) [
      | inl same ↦ rw same (without_track-AreDistinct track setups hs)
      | inr other ↦
          rw other (All-without_track _ track setups h, without_track-AreDistinct track setups hs)
    ]

pub AreDistinct-append :
    (setups : List Setup) (last : Setup)
    → All (λ (other : Setup). other.track ≢ last.track) setups
    → AreDistinct setups
    → AreDistinct (setups ++ (last ∷ []))
unfolding AreDistinct
AreDistinct-append [] last hs ds = (tt, tt)
AreDistinct-append (setup ∷ setups) last (h, hs) (d, ds) =
    (All-append _ setups (last ∷ []) d (λ e. h (sym e), tt), AreDistinct-append setups last hs ds)
