-- ===== src/Rtp/Pieces.antt =====
-- `<[u8]>::chunks` and `usize::div_ceil`, as the packetizers of src/rtp use them.
use relaybay.Base.{
  ℕ, zero, suc, ◌+◌, ◌-◌, ◌/◌, ◌<◌, ◌≤◌, ◌≡◌, refl, sym, ap, ◌∙◌, List, [], ◌∷◌, ◌++◌, Bytes,
}
use relaybay.Base.{
  length, take, drop, arith, All, length-drop, length-take, take-append-drop, le_or_lt, inl, inr,
}
use relaybay.Base.{Bool, le→leb}
use relaybay.Base.Outcome.{ok}
use relaybay.Rtp.{less}
use native.Mathlib.Nat.{div-eq-sub-div, div-eq_of_lt}

pub less-room : (checks : Bool) (a b : ℕ) → b ≤ a → less checks a b ≡ ok (a - b)
unfolding less
less-room checks a b h = rw (le→leb b a h) refl

unfoldable pub div_ceil : ℕ → ℕ → ℕ
div_ceil n size = (n + size - 1) / size

-- Each piece has `size` bytes but the last. A round takes a byte at least.
unfoldable pub chunks_loop : ℕ → ℕ → Bytes → List Bytes
chunks_loop zero size bs = []
chunks_loop (suc fuel) size [] = []
chunks_loop (suc fuel) size (b ∷ bs) =
    take size (b ∷ bs) ∷ chunks_loop fuel size (drop size (b ∷ bs))

unfoldable pub chunks : ℕ → Bytes → List Bytes
chunks size bs = chunks_loop (length bs) size bs

unfoldable pub concat : List Bytes → Bytes
concat [] = []
concat (piece ∷ pieces) = piece ++ concat pieces

-- A piece that is there and fits.
abbrev pub IsPiece : ℕ → Bytes → Type 0
IsPiece size piece = (0 < length piece) × (length piece ≤ size)

-- What cutting comes to.
pub record Cut (size : ℕ) (bs : Bytes) (pieces : List Bytes) : Type 0 where
  pub whole : concat pieces ≡ bs
  pub number : length pieces ≡ div_ceil (length bs) size
  pub fit : All (IsPiece size) pieces

none_needed : (size : ℕ) → 0 < size → 0 ≡ div_ceil 0 size
unfolding div_ceil
none_needed size h = sym (div-eq_of_lt (omega arith))

div_ceil_step : (n size : ℕ) → 0 < size → 0 < n → div_ceil n size ≡ suc (div_ceil (n - size) size)
unfolding div_ceil
div_ceil_step n size h pos =
    let step = div-eq-sub-div {m = size} {n = n + size - 1} h (omega arith) in
    let e : n + size - 1 - size ≡ n - 1 = omega arith in
    elim (le_or_lt size n) [
      | inl many ↦
          let e' : n - size + size - 1 ≡ n - 1 = omega arith in
          rw e' (omega (arith, step, ap (λ x. x / size) e))
      | inr few ↦
          let none_left : (n - size + size - 1) / size ≡ 0 = div-eq_of_lt (omega arith) in
          let none_there : (n - 1) / size ≡ 0 = div-eq_of_lt (omega arith) in
          omega (arith, step, ap (λ x. x / size) e)
    ]

chunks_loop-Cut :
    (fuel size : ℕ) (bs : Bytes)
    → 0 < size
    → length bs ≤ fuel
    → Cut size bs (chunks_loop fuel size bs)
unfolding chunks_loop concat
chunks_loop-Cut zero size [] h enough = record {
  whole = refl;
  number = none_needed size h;
  fit = tt;
}
chunks_loop-Cut (suc fuel) size [] h enough = record {
  whole = refl;
  number = none_needed size h;
  fit = tt;
}
chunks_loop-Cut zero size (b ∷ bs) h enough = absurd (omega arith)
chunks_loop-Cut (suc fuel) size (b ∷ bs) h enough =
    let left = length-drop size (b ∷ bs) in
    let rest = chunks_loop-Cut fuel size (drop size (b ∷ bs)) h (omega arith) in
    record {
      whole = ap (λ t. take size (b ∷ bs) ++ t) rest.whole ∙ take-append-drop size (b ∷ bs);
      number =
          ap suc (rest.number ∙ ap (λ n. div_ceil n size) left)
          ∙ sym (div_ceil_step (length (b ∷ bs)) size h (omega arith));
      fit = (
        (omega (arith, length-take size (b ∷ bs)), omega (arith, length-take size (b ∷ bs))),
        rest.fit,
      );
    }

pub chunks-Cut : (size : ℕ) (bs : Bytes) → 0 < size → Cut size bs (chunks size bs)
unfolding chunks
chunks-Cut size bs h = chunks_loop-Cut (length bs) size bs h (omega arith)

concat-there : (pieces : List Bytes) → 0 < length (concat pieces) → 0 < length pieces
unfolding concat
concat-there [] h = h
concat-there (p ∷ ps) h = omega arith

pub chunks-there : (size : ℕ) (bs : Bytes) → 0 < size → 0 < length bs → 0 < length (chunks size bs)
chunks-there size bs h there =
    let cut = chunks-Cut size bs h in
    concat-there (chunks size bs) (omega (arith, ap length cut.whole))
