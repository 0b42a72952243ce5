-- ===== src/Codec/Aac/Parsing.antt =====
-- What `Parameters::parse` of src/codec/aac.rs returns, on any bytes.
use relaybay.Base.{ℕ, zero, suc, ◌+◌, ◌*◌, ◌/◌, ◌%◌, ◌^◌, ◌≤◌, ◌<◌, ◌≡◌, refl, eqb}
use relaybay.Base.{
  some, List, [], ◌∷◌, Bytes, length, get_elem?, arith, Bool-cases, All, subst, some_inj, le_or_lt,
  ge→ltb, lt→ltb, Option-cases, inl, inr,
}
use relaybay.Codec.Aac.{
  AacError, Outcome, ok, panic, err, ◌>>=◌, bit, bits_loop, read_bits, widen_object_type,
  check_object_type, look_up_rate, look_up_channels, sample_rates, channel_counts, parse,
}
use relaybay.Codec.Aac

-- No panic, and what is returned has a property.
abbrev pub Ensures {ℓ} : {R : Type ℓ} → (R → Type 0) → Outcome R → Type 0
Ensures P (ok result) = P result
Ensures P panic = ⊥
Ensures P (err why) = Unit {0}

Ensures->>= {ℓ₁ ℓ₂} :
    {R : Type ℓ₁} {Q : Type ℓ₂} (P : R → Type 0) (P' : Q → Type 0) (m : Outcome R)
    (next : R → Outcome Q)
    → Ensures P m
    → ((r : R) → P r → Ensures P' (next r))
    → Ensures P' (m >>= next)
Ensures->>= P P' (ok r) next h k = k r h
Ensures->>= P P' panic next h k = absurd h
Ensures->>= P P' (err why) next h k = tt

found : (bs : List ℕ) (i : ℕ) → i < length bs → (b : ℕ) × (get_elem? bs i ≡ some b)
found [] i h = absurd (omega arith)
found (b ∷ bs) zero h = (b, refl)
found (b ∷ bs) (suc i) h = found bs i (omega arith)

bit-in : (bs : Bytes) (offset : ℕ) → offset < length bs * 8 → Ensures (λ b. b < 2) (bit bs offset)
unfolding bit
bit-in bs offset h =
    let (b, e) = found bs (offset / 8) (omega arith) in rw (e, Ensures) (omega arith)

get_elem?-All : (P : ℕ → Type 0) (xs : List ℕ) (i x : ℕ) → All P xs → get_elem? xs i ≡ some x → P x
get_elem?-All P [] i x hs e = cc
get_elem?-All P (y ∷ xs) zero x (h, hs) e = subst P (some_inj e) h
get_elem?-All P (y ∷ xs) (suc i) x (h, hs) e = get_elem?-All P xs i x hs e

-- A bound after `n` more bits.
doubled : ℕ → ℕ → ℕ
doubled zero m = m
doubled (suc n) m = doubled n (m * 2)

bits_loop-bound :
    (n : ℕ) (bs : Bytes) (value offset m : ℕ)
    → value < m
    → offset + n ≤ length bs * 8
    → Ensures (λ r. r.0 < doubled n m) (bits_loop n bs value offset)
unfolding bits_loop doubled
bits_loop-bound zero bs value offset m h room = h
bits_loop-bound (suc n) bs value offset m h room =
    Ensures->>= (λ b. b < 2) _ (bit bs offset) _ (bit-in bs offset (omega arith))
      (λ b small.
        bits_loop-bound n bs (value * 2 % 2 ^ 32 + b) (offset + 1) (m * 2) (omega arith)
          (omega arith))

-- A field of `n` bits is below `2 ^ n`, written as doublings of one.
read_bits-bound :
    (n : ℕ) (bs : Bytes) (offset : ℕ) → Ensures (λ r. r.0 < doubled n 1) (read_bits n bs offset)
unfolding read_bits
read_bits-bound n bs offset = elim (le_or_lt (offset + n) (length bs * 8)) [
  | inl room ↦
      rw (ge→ltb (length bs * 8) (offset + n) room, Ensures)
        (bits_loop-bound n bs 0 offset 1 (omega arith) room)
  | inr beyond ↦ rw (lt→ltb (length bs * 8) (offset + n) beyond, Ensures) tt
]

widen-bound : (bs : Bytes) (r : ℕ × ℕ) → r.0 < 32 → Ensures (λ t. t.0 < 96) (widen_object_type bs r)
unfolding widen_object_type doubled
widen-bound bs (value, offset) h = elim (Bool-cases (eqb value 31)) [
  | inl wide ↦
      rw (wide, Ensures)
        (Ensures->>= _ (λ t. t.0 < 96) (read_bits 6 bs offset) _ (read_bits-bound 6 bs offset)
          (λ r small. omega arith))
  | inr plain ↦ rw (plain, Ensures) (omega arith)
]

-- What a record states: all of it is carried, and the numbers are in range.
pub record IsStated (config : Bytes) (p : Aac.Parameters) : Type 0 where
  pub carried : p.config ≡ config
  pub a_codec : 1 ≤ p.object_type
  pub object_types : p.object_type ≤ 95
  pub rates : p.sample_rate < 2 ^ 24
  pub audible : 1 ≤ p.channels
  pub layouts : p.channels ≤ 8

checked-bound : (r : ℕ × ℕ) → r.0 < 96 → Ensures (λ t. (0 < t.0) × (t.0 < 96)) (check_object_type r)
unfolding check_object_type
checked-bound (object_type, offset) h = elim (Bool-cases (eqb object_type 0)) [
  | inl nothing ↦ rw (nothing, Ensures) tt
  | inr codec ↦ rw (codec, Ensures) (ground (arith, codec), h)
]

rate-bound : (bs : Bytes) (r : ℕ × ℕ) → Ensures (λ t. t.0 < 2 ^ 24) (look_up_rate bs r)
unfolding look_up_rate doubled
rate-bound bs (index, offset) = elim (Bool-cases (eqb index 15)) [
  | inl spelled ↦ rw (spelled, Ensures) (read_bits-bound 24 bs offset)
  | inr listed ↦
      rw (listed, Ensures)
        (elim (Option-cases (get_elem? sample_rates index)) [
          | inl e ↦ rw (e, Ensures) tt
          | inr (rate, e) ↦
              rw (e, Ensures)
                (get_elem?-All (λ r. r < 2 ^ 24) sample_rates index rate (ground arith) e)
        ])
]

channels-bound : (index : ℕ) → Ensures (λ c. (1 ≤ c) × (c ≤ 8)) (look_up_channels index)
unfolding look_up_channels
channels-bound index = elim (Option-cases (get_elem? channel_counts index)) [
  | inl e ↦ rw (e, Ensures) tt
  | inr (count, e) ↦
      let few = get_elem?-All (λ c. c ≤ 8) channel_counts index count (ground arith) e in
      elim (le_or_lt count 0) [
        | inl silent ↦ rw (e, ge→ltb 0 count silent, Ensures) tt
        | inr heard ↦ rw (e, lt→ltb 0 count heard, Ensures) (heard, few)
      ]
]

-- On any bytes `Parameters::parse` does not panic, and what it returns carries them all, with an object
-- type of 1 to 95, a sample rate below 2 ^ 24 and 1 to 8 channels.
pub parse-IsStated : (config : Bytes) → Ensures (IsStated config) (parse config)
unfolding parse doubled
parse-IsStated config =
    Ensures->>= (λ t. (0 < t.0) × (t.0 < 96)) (IsStated config) _ _
      (Ensures->>= (λ t. t.0 < 96) _ _ check_object_type
        (Ensures->>= (λ t. t.0 < 32) _ _ (widen_object_type config) (read_bits-bound 5 config 0)
          (widen-bound config))
        checked-bound)
      (λ (object_type, offset₁) (lo, hi).
        Ensures->>= (λ t. t.0 < 2 ^ 24) (IsStated config) _ _
          (Ensures->>= (λ t. t.0 < 16) _ _ (look_up_rate config) (read_bits-bound 4 config offset₁)
            (λ r small. rate-bound config r))
          (λ (sample_rate, offset₂) rate.
            Ensures->>= (λ t. t.0 < 16) (IsStated config) _ _ (read_bits-bound 4 config offset₂)
              (λ (index, offset₃) small.
                Ensures->>= (λ c. (1 ≤ c) × (c ≤ 8)) (IsStated config) _ _ (channels-bound index)
                  (λ channels (some_sound, few). record {
                    carried = refl;
                    a_codec = omega arith;
                    object_types = omega arith;
                    rates = rate;
                    audible = some_sound;
                    layouts = few;
                  }))))
