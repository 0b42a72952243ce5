-- ===== src/Codec/H264/Prefixed.antt =====
-- Length-prefixed framing of src/codec/h264.rs: what is written splits back, and only that.
use relaybay.Base.{ℕ, zero, suc, ◌+◌, ◌-◌, ◌*◌, ◌^◌, ◌≤◌, ◌<◌, ◌≡◌, ◌≢◌, refl, sym, ap, ◌∙◌}
use relaybay.Base.{Option, none, some, List, [], ◌∷◌, ◌++◌, Bytes, length}
use relaybay.Base.{
  take, drop, from_be, to_be, arith, All, length-append, length-drop, append_assoc, take-append,
}
use relaybay.Base.{drop-append, from_be-to_be, length-to_be, ge→ltb, ne→eqb, lt→ltb}
use native.Mathlib.Numerals.{towards_suc}
use relaybay.Codec.H264.{
  ◌>>=◌, Nal, IsNal, new, Outcome, ok, err, spent, split_body, cut_unit, split_unit, split_loop,
  split_length_prefixed, put_length_prefixed, to_length_prefixed,
}

pow_bytes : (n : ℕ) → 2 ^ (8 * n) ≡ 256 ^ n
pow_bytes zero = refl
pow_bytes (suc n) =
    let more : 8 * suc n ≡ 8 * n + 8 = omega arith in
    rw more (simp towards_suc (omega (arith, pow_bytes n)))

-- The widths of a length prefix that the format has are 1 to 4; these are those for which the bound
-- on a unit says something.
abbrev pub IsWidth : ℕ → Type 0
IsWidth size = (1 ≤ size) × (size < 8)

new-length : (bs : Bytes) (n : Nal) → new bs ≡ some n → 0 < length bs
unfolding new
new-length [] n h = cc
new-length (b ∷ bs) n h = omega arith

split_body-put :
    (n : Nal) (start : ℕ) (rest : Bytes)
    → IsNal n
    → split_body start (length n.contents) (n.contents ++ rest)
      ≡ ok (n, start + length n.contents, rest)
unfolding split_body cut_unit
split_body-put n start rest hn =
    let l = length n.contents in
    rw (
      ne→eqb l 0 (omega (arith, new-length n.contents n hn)),
      ge→ltb (length (n.contents ++ rest)) l (omega (arith, length-append n.contents rest)),
      take-append l n.contents rest refl,
      hn,
      drop-append l n.contents rest refl,
    )

-- One unit written and split off again.
split_unit-put :
    (n : Nal) (size offset : ℕ) (rest : Bytes)
    → IsNal n
    → length n.contents < 2 ^ (8 * size)
    → split_unit size offset (to_be size (length n.contents) ++ (n.contents ++ rest))
      ≡ ok (n, offset + size + length n.contents, rest)
unfolding split_unit
split_unit-put n size offset rest hn h =
    let l = length n.contents in
    let len = length-to_be size l in
    let whole = to_be size l ++ (n.contents ++ rest) in
    rw
      (
        ge→ltb (length whole) size
            (omega (arith, length-append (to_be size l) (n.contents ++ rest), len)),
        take-append size (to_be size l) (n.contents ++ rest) (sym len),
        drop-append size (to_be size l) (n.contents ++ rest) (sym len),
        from_be-to_be size l (rw (pow_bytes size) at h),
      )
      (split_body-put n (offset + size) rest hn)

-- What is written, and that it is written only where every unit fits its prefix.
put_length_prefixed-eq :
    (unit bytes : Bytes) (size : ℕ)
    → size < 8
    → put_length_prefixed unit size ≡ ok bytes
    → (length unit < 2 ^ (8 * size)) × (bytes ≡ to_be size (length unit) ++ unit)
unfolding put_length_prefixed
put_length_prefixed-eq unit bytes size hs h = ground arith

-- What a successful `do` step returned.
>>=-eq-ok {ℓ₁ ℓ₂} :
    {R : Type ℓ₁} {Q : Type ℓ₂} (step : Outcome R) (next : R → Outcome Q) {q : Q}
    → (step >>= next) ≡ ok q
    → (result : R) × (step ≡ ok result) × (next result ≡ ok q)
>>=-eq-ok spent next h = cc
>>=-eq-ok (err why) next h = cc
>>=-eq-ok (ok result) next h = (result, refl, h)

pub to_length_prefixed-cons :
    (n : Nal) (nalus : List Nal) (size : ℕ) (bytes : Bytes)
    → size < 8
    → to_length_prefixed (n ∷ nalus) size ≡ ok bytes
    → (rest : Bytes) × (length n.contents < 2 ^ (8 * size))
      × (to_length_prefixed nalus size ≡ ok rest)
      × (bytes ≡ to_be size (length n.contents) ++ (n.contents ++ rest))
unfolding to_length_prefixed
to_length_prefixed-cons n nalus size bytes hs h =
    let (unit, e₁, h₁) = >>=-eq-ok (put_length_prefixed n.contents size) _ h in
    let (rest, e₂, h₂) = >>=-eq-ok (to_length_prefixed nalus size) _ h₁ in
    let (fits, shape) = put_length_prefixed-eq n.contents unit size hs e₁ in
    let joined : unit ++ rest ≡ bytes = cc (h₂) in
    (
      rest,
      fits,
      e₂,
      sym joined
          ∙ ap (λ u. u ++ rest) shape
          ∙ append_assoc (to_be size (length n.contents)) n.contents rest,
    )

split_loop_nil : (fuel size offset : ℕ) → split_loop fuel size offset [] ≡ ok []
unfolding split_loop
split_loop_nil zero size offset = refl
split_loop_nil (suc fuel) size offset = refl

split_loop_step :
    (fuel size offset next : ℕ) (bs rest : Bytes) (n : Nal) (nalus : List Nal)
    → 0 < length bs
    → split_unit size offset bs ≡ ok (n, next, rest)
    → split_loop fuel size next rest ≡ ok nalus
    → split_loop (suc fuel) size offset bs ≡ ok (n ∷ nalus)
unfolding split_loop
split_loop_step fuel size offset next [] rest n nalus h e e' = absurd (omega arith)
split_loop_step fuel size offset next (b ∷ bs) rest n nalus h e e' = rw e (rw e')

split_loop-to_length_prefixed :
    (nalus : List Nal) (size offset fuel : ℕ) (bytes : Bytes)
    → All IsNal nalus
    → IsWidth size
    → to_length_prefixed nalus size ≡ ok bytes
    → length bytes ≤ fuel
    → split_loop fuel size offset bytes ≡ ok nalus
split_loop-to_length_prefixed [] size offset fuel bytes hn hw h hf =
    let e : bytes ≡ [] = unfold to_length_prefixed in cc (h) in
    rw e (split_loop_nil fuel size offset)
split_loop-to_length_prefixed (n ∷ nalus) size offset fuel bytes (hn, hns) hw h hf =
    let (rest, fits, e, shape) = to_length_prefixed-cons n nalus size bytes hw.1 h in
    let l = length n.contents in
    let total : length bytes ≡ size + (l + length rest) =
      ap length shape
      ∙ length-append (to_be size l) (n.contents ++ rest)
      ∙ omega (arith, length-to_be size l, length-append n.contents rest) in
    let enough : fuel ≡ suc (fuel - 1) = omega arith in
    rw (enough, shape)
      (split_loop_step (fuel - 1) size offset (offset + size + l)
        (to_be size l ++ (n.contents ++ rest)) rest n nalus (omega (arith, ap length shape))
        (split_unit-put n size offset rest hn fits)
        (split_loop-to_length_prefixed nalus size (offset + size + l) (fuel - 1) rest hns hw e
          (omega arith)))

-- Every unit fits its prefix.
abbrev pub AllFit : ℕ → List Nal → Type 0
AllFit size = All (λ n. length n.contents < 2 ^ (8 * size))

to_length_prefixed_total :
    (nalus : List Nal) (size : ℕ)
    → AllFit size nalus
    → (bytes : Bytes) × (to_length_prefixed nalus size ≡ ok bytes)
unfolding to_length_prefixed put_length_prefixed
to_length_prefixed_total [] size h = ([], refl)
to_length_prefixed_total (n ∷ nalus) size (h, hs) =
    let (rest, e) = to_length_prefixed_total nalus size hs in
    let l = length n.contents in
    ((to_be size l ++ n.contents) ++ rest, rw (lt→ltb l (2 ^ (8 * size)) h, e) (ground arith))

-- Units that fit length prefixes of 1 to 7 bytes are written, and split back into the same units.
pub split_length_prefixed-to_length_prefixed :
    (nalus : List Nal) (size : ℕ)
    → All IsNal nalus
    → IsWidth size
    → AllFit size nalus
    → (bytes : Bytes) × (to_length_prefixed nalus size ≡ ok bytes)
      × (split_length_prefixed bytes size ≡ ok nalus)
unfolding split_length_prefixed
split_length_prefixed-to_length_prefixed nalus size hn hw hf =
    let (bytes, e) = to_length_prefixed_total nalus size hf in
    (
      bytes,
      e,
      split_loop-to_length_prefixed nalus size 0 (length bytes) bytes hn hw e (omega arith),
    )

split_unit-shrinks :
    (size offset next : ℕ) (bs rest : Bytes) (n : Nal)
    → split_unit size offset bs ≡ ok (n, next, rest)
    → length rest < length bs
unfolding split_unit split_body
split_unit-shrinks size offset next bs rest n h = ground (
  arith,
  length-drop size bs,
  length-drop (from_be (take size bs)) (drop size bs),
  cut_unit-rest (offset + size) (from_be (take size bs)) next (drop size bs) rest n
      (new (take (from_be (take size bs)) (drop size bs))),
)
  where
    cut_unit-rest :
        (start l next : ℕ) (behind rest : Bytes) (n : Nal) (o : Option Nal)
        → cut_unit start l behind o ≡ ok (n, next, rest)
        → rest ≡ drop l behind
    cut_unit-rest start l next behind rest n none h = unfold cut_unit in cc
    cut_unit-rest start l next behind rest n (some m) h = unfold cut_unit in cc

cut_unit-ne-spent :
    (start l : ℕ) (behind : Bytes) (o : Option Nal) → cut_unit start l behind o ≢ spent
unfolding cut_unit
cut_unit-ne-spent start l behind none e = cc
cut_unit-ne-spent start l behind (some n) e = cc

split_unit-ne-spent : (size offset : ℕ) (bs : Bytes) → split_unit size offset bs ≢ spent
unfolding split_unit split_body
split_unit-ne-spent size offset bs e =
    let behind = drop size bs in
    let l = from_be (take size bs) in
    ground (arith, cut_unit-ne-spent (offset + size) l behind (new (take l behind)))

-- A `do` step ends early only where one of its halves does.
>>=-ne-spent {ℓ κ} :
    {A : Type ℓ} {B : Type κ} (m : Outcome A) (f : A → Outcome B)
    → m ≢ spent
    → ((a : A) → m ≡ ok a → f a ≢ spent)
    → (m >>= f) ≢ spent
>>=-ne-spent (ok a) f h k = k a refl
>>=-ne-spent (err e) f h k = λ x. cc
>>=-ne-spent spent f h k = absurd (h refl)

split_loop-ne-spent :
    (fuel size offset : ℕ) (bs : Bytes) → length bs ≤ fuel → split_loop fuel size offset bs ≢ spent
unfolding split_loop
split_loop-ne-spent zero size offset [] h = λ e. cc
split_loop-ne-spent (suc fuel) size offset [] h = λ e. cc
split_loop-ne-spent zero size offset (b ∷ bs) h = absurd (omega arith)
split_loop-ne-spent (suc fuel) size offset (b ∷ bs) h =
    >>=-ne-spent (split_unit size offset (b ∷ bs)) _ (split_unit-ne-spent size offset (b ∷ bs))
      (λ (n, next, rest) e.
        >>=-ne-spent (split_loop fuel size next rest) _
          (split_loop-ne-spent fuel size next rest
            (omega (arith, split_unit-shrinks size offset next (b ∷ bs) rest n e)))
          (λ nalus e' x. cc))

-- On any bytes, at a width of 1 to 7, the splitting loop ends: with units, or with an error of its own.
pub split_length_prefixed-ne-spent :
    (bs : Bytes) (size : ℕ) → IsWidth size → split_length_prefixed bs size ≢ spent
unfolding split_length_prefixed
split_length_prefixed-ne-spent bs size hw = split_loop-ne-spent (length bs) size 0 bs (omega arith)
