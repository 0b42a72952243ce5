-- ===== src/Codec/H264/Usable.antt =====
-- What any record that src/codec/h264.rs reads holds.
use relaybay.Base.{ℕ, zero, suc, ◌+◌, ◌%◌, ◌≤◌, ◌<◌, ◌≡◌, refl, false, eqb, ltb, some}
use relaybay.Base.{List, [], ◌∷◌, Bytes, All, length, take, is_empty, arith, length-take, ge→ltb}
use relaybay.Base.Outcome.{
  Outcome, ok, Ensures, Ensures-weaken, returns, fails, Ensures->>=, Ensures-if,
}
use relaybay.Codec.H264
use relaybay.Codec.H264.{Nal, IsNal}
use relaybay.Codec.H264.Config.{
  AvcConfig, Reader, need, index_range, number_of, skip, keep_set, read_set, read_sets,
  parameter_sets, check_sets, parse_fields, parse,
}

-- A set as `Nal::new` makes it, of one byte at least.
abbrev IsStored : Nal → Type 0
IsStored set = IsNal set × (0 < length set.contents)

-- A width of 1 to 4, at most 31 sequence and 255 picture parameter sets, and one of each at least.
pub record IsUsable (config : AvcConfig) : Type 0 where
  pub width : (1 ≤ config.nal_length_size) × (config.nal_length_size ≤ 4)
  pub some_sps : is_empty config.parameters.sps ≡ false
  pub some_pps : is_empty config.parameters.pps ≡ false
  pub few_sps : length config.parameters.sps ≤ 31
  pub few_pps : length config.parameters.pps ≤ 255
  pub sps_made : All IsStored config.parameters.sps
  pub pps_made : All IsStored config.parameters.pps

-- It ends without a panic.
abbrev Returns {ℓ} : {E : Type 0} {R : Type ℓ} → Outcome E R → Type ℓ
Returns m = Ensures (λ r. Unit {0}) m

need-Ensures : (count : ℕ) (r : Reader) → Ensures (λ x. count ≤ length r.rest) (need count r)
unfolding need
need-Ensures count r =
    Ensures-if (ltb (length r.rest) count) (λ e. fails) (λ e. returns (ground arith))

-- What `need` has let through can be indexed.
index_range_lem :
    (count : ℕ) (r : Reader) → count ≤ length r.rest → index_range count r ≡ ok (take count r.rest)
unfolding index_range
index_range_lem count r h = rw (ge→ltb (length r.rest) count h) refl

number_of-Returns : (width : ℕ) (r : Reader) → Returns (number_of width r)
unfolding number_of
number_of-Returns width r =
    Ensures->>= (need-Ensures width r) (λ x h. rw (index_range_lem width r h) (returns tt))

skip-Returns : (count : ℕ) (r : Reader) → Returns (skip count r)
unfolding skip
skip-Returns count r = Ensures->>= (need-Ensures count r) (λ x h. returns tt)

-- One more than nothing is read, so a unit is made of it.
new_made : (bs : Bytes) → 0 < length bs → (set : Nal) × (H264.new bs ≡ some set) × IsStored set
unfolding H264.new
new_made [] h = absurd (omega arith)
new_made (b ∷ bs) h = (_, refl, (refl, h))

read_set-Ensures : (count : ℕ) (r : Reader) → Ensures (λ (set, r'). IsStored set) (read_set count r)
unfolding read_set keep_set
read_set-Ensures count r =
    Ensures-if (eqb count 0) (λ e. fails)
      (λ e. Ensures->>= (need-Ensures count r) (λ x h.
        let (set, made, v) =
          new_made (take count r.rest) (ground (arith, length-take count r.rest)) in
        rw (index_range_lem count r h, made) (returns v)))

abbrev AreSets : ℕ → List Nal × Reader → Type 0
AreSets count (sets, r) = (length sets ≡ count) × All IsStored sets

read_sets-Ensures : (left : ℕ) (r : Reader) → Ensures (AreSets left) (read_sets left r)
unfolding read_sets
read_sets-Ensures zero r = returns (refl, tt)
read_sets-Ensures (suc left) r = Ensures->>= (number_of-Returns 2 r) (λ (count, r₁) t.
    Ensures->>= (read_set-Ensures count r₁) (λ (set, r₂) v.
      Ensures->>= (read_sets-Ensures left r₂)
        (λ (sets, r₃) (e, vs). returns (omega arith, (v, vs)))))

abbrev AreFew : ℕ → List Nal × Reader → Type 0
AreFew bound (sets, r) = (length sets < bound) × All IsStored sets

parameter_sets-Ensures :
    (bound : ℕ) (r : Reader)
    → ((n : ℕ) → n % bound < bound)
    → Ensures (AreFew bound) (parameter_sets bound r)
unfolding parameter_sets
parameter_sets-Ensures bound r below = Ensures->>= (number_of-Returns 1 r) (λ (count, r₁) t.
    Ensures-weaken (read_sets-Ensures (count % bound) r₁)
      (λ (sets, r₂) (e, vs). (omega (arith, below count), vs)))

check_sets-IsUsable :
    (width : ℕ) (sps pps : List Nal)
    → (1 ≤ width) × (width ≤ 4)
    → (length sps < 32) × All IsStored sps
    → (length pps < 256) × All IsStored pps
    → Ensures IsUsable (check_sets width sps pps)
unfolding check_sets
check_sets-IsUsable width sps pps h (few_sps, made_sps) (few_pps, made_pps) =
    Ensures-if (is_empty sps) (λ e. fails)
      (λ some_sps.
        Ensures-if (is_empty pps) (λ e. fails)
          (λ some_pps. returns (record {
            width = h;
            some_sps = some_sps;
            some_pps = some_pps;
            few_sps = omega arith;
            few_pps = omega arith;
            sps_made = made_sps;
            pps_made = made_pps;
          })))

parse_fields-IsUsable : (r : Reader) → Ensures IsUsable (parse_fields r)
unfolding parse_fields
parse_fields-IsUsable r = Ensures->>= (skip-Returns 3 r) (λ r₁ t.
    Ensures->>= (number_of-Returns 1 r₁) (λ (width, r₂) t.
      Ensures->>= (parameter_sets-Ensures 32 r₂ (λ n. omega arith)) (λ (sps, r₃) h.
        Ensures->>= (parameter_sets-Ensures 256 r₃ (λ n. omega arith)) (λ (pps, r₄) h'.
          check_sets-IsUsable (width % 4 + 1) sps pps (omega arith, omega arith) h h'))))

-- On any bytes `AvcConfig::parse` indexes nothing behind the end of the record, so that it does not
-- panic. What it returns has a width of 1 to 4, at least one parameter set of each kind, at most 31
-- sequence and 255 picture parameter sets, and each of them is a unit with its header byte.
pub parse-IsUsable : (bs : Bytes) → Ensures IsUsable (parse bs)
unfolding parse
parse-IsUsable bs =
    Ensures->>= (number_of-Returns 1 _)
      (λ (version, r) t. Ensures-if (eqb version 1) (λ e. parse_fields-IsUsable r) (λ e. fails))
