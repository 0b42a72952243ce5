-- ===== src/Examples/Greetings.antt =====
-- A run of src/rtmp/handshake.rs on a hello and an echo of one byte each, over and over.
use relaybay.Base.{
  ℕ, zero, suc, ◌≡◌, refl, ap, [], ◌∷◌, ◌++◌, List, Bytes, length, slice, from_be, arith,
  append-nil,
}
use relaybay.Rtmp.Handshake.{version, new, reply}
use relaybay.Rtp.Pieces.{concat}
use relaybay.Rtmp.Handshake.Exchange.{drive, drive-IsOver, IsOver}

filled : ℕ → ℕ → Bytes
filled zero b = []
filled (suc n) b = b ∷ filled n b

length-filled : (n b : ℕ) → length (filled n b) ≡ n
unfolding filled
length-filled zero b = refl
length-filled (suc n) b = ap suc (length-filled n b)

abbrev sent : Bytes
sent = 1 ∷ filled 1535 7

abbrev answer : Bytes
answer = 2 ∷ filled 1535 8

-- The rest is what a client sends behind its echo.
abbrev rest : Bytes
rest = 2 ∷ 0 ∷ []

abbrev pieces : List Bytes
pieces = (version ∷ sent) ∷ (answer ++ rest) ∷ []

drive-IsOver_example : IsOver (from_be (slice 4 8 sent)) (reply sent) rest (drive 5 new [] pieces)
drive-IsOver_example =
    drive-IsOver 5 pieces [] sent answer rest (omega arith) (refl, (refl, tt))
      (ap suc (length-filled 1535 7)) (ap suc (length-filled 1535 8))
      (unfold concat in ap (λ t. version ∷ sent ++ t) (append-nil (answer ++ rest)))
