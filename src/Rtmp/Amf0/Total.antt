-- ===== src/Rtmp/Amf0/Total.antt =====
-- Reading values of src/rtmp/amf0.rs from any bytes: it ends, and what it returns can be written.
use relaybay.Base.{ℕ, zero, suc, ◌+◌, ◌-◌, ◌*◌, ◌^◌, ◌<◌, ◌≤◌, ◌≡◌, sym, Bool}
use relaybay.Base.{eqb, Bytes, IsByte, All, length, arith, is_empty, eqb_iff}
use relaybay.Base.{Bool-cases, inl, inr, subst}
use relaybay.Base.Outcome
use relaybay.Base.Outcome.{
  Outcome, ok, err, Ensures, returns, fails, Ensures->>=, Ensures-weaken, Ensures-if, Ensures-ok,
  Ensures-ne-spent,
}
use relaybay.Rtmp.Amf0.Types.{
  Marker, marker_of, Value, Values, Properties, string, object, ecma_array, max_depth, count_values,
  Amf0Error,
}
use relaybay.Rtmp.Amf0.Reader.{
  Reader, Reads, number_of, read_string, enter, nested, close_object, read_body, read_value,
  read_values, read_properties, read_until_end, read_all,
}
use relaybay.Rtmp.Amf0.Writer.{write_all}
use relaybay.Rtmp.Amf0.Fits.{FitsValue, FitsValues, FitsProperties}
use relaybay.Rtmp.Amf0.Cursor.{
  After, After-trans, After-weaken, same_place, bytes-After, number_of-After, read_string-After,
  nested-After,
}
use relaybay.Rtmp.Amf0.RoundTrip.{read_all-write_all}

module _ (is_utf8 : Bytes → Bool) where
  -- What a read of each kind comes to.
  abbrev GivesValue : ℕ → Reader → Outcome Amf0Error (Value × Reader) → Type 0
  GivesValue n r = Ensures (λ (v, r'). FitsValue is_utf8 r.depth v × After r n r')

  abbrev GivesValues : ℕ → Reader → Outcome Amf0Error (Values × Reader) → Type 0
  GivesValues count r =
      Ensures
        (λ (vs, r'). (FitsValues is_utf8 r.depth vs × (count_values vs ≡ count)) × After r 0 r')

  abbrev GivesProperties : Reader → Outcome Amf0Error (Properties × Reader) → Type 0
  GivesProperties r = Ensures (λ (ps, r'). FitsProperties is_utf8 r.depth ps × After r 0 r')

  module _ (inner : Reads Properties) (members : ℕ → Reads Values) (r : Reader)
      (clean : All IsByte r.rest)
      (inner-Gives : (r' : Reader) → After r 0 r' → GivesProperties (enter r') (inner (enter r')))
      (members-Gives : (count : ℕ) (r' : Reader)
        → After r 4 r'
        → GivesValues count (enter r') (members count (enter r'))) where
    text-Gives :
        (width : ℕ)
        → 256 ^ width ≤ 2 ^ 32
        → GivesValue 0 r (
            Outcome.◌>>=◌ {Q = Value × Reader} (number_of width r) (λ (count, r').
              Outcome.◌>>=◌ {Q = Value × Reader}
                (read_string is_utf8 count r')
                (λ (text, r''). ok (string text, r''))))
    unfolding FitsValue
    text-Gives width narrow = Ensures->>= (number_of-After width r clean) (λ (count, r') (small, a).
        Ensures->>= (read_string-After is_utf8 count r' a.clean)
          (λ (text, r'') (valid, size, after).
            returns ((valid, omega arith), After-trans a after (omega arith))))

    properties-Gives :
        (make : Properties → Value)
        → ((ps : Properties)
            → (r.depth < max_depth) × FitsProperties is_utf8 (r.depth + 1) ps
            → FitsValue is_utf8 r.depth (make ps))
        → (r' : Reader) → After r 0 r'
        → GivesValue 0 r
            (Outcome.◌>>=◌ {Q = Value × Reader} (nested inner r') (λ (ps, r''). ok (make ps, r'')))
    unfolding enter
    properties-Gives make fits r' a =
        Ensures->>=
          (nested-After (λ ps. FitsProperties is_utf8 (r'.depth + 1) ps) 0 inner r'
            (inner-Gives r' a))
          (λ (ps, r'') (room, fit, after). returns (
            fits ps (
              omega (arith, a.level),
              subst (λ d. FitsProperties is_utf8 (d + 1) ps) a.level fit,
            ),
            After-trans a after (omega arith),
          ))

    read_body-Gives :
        (offset : ℕ) (marker : Marker)
        → GivesValue 0 r (read_body is_utf8 inner members offset marker r)
    unfolding read_body FitsValue enter
    read_body-Gives offset Marker.number =
        Ensures->>= (number_of-After 8 r clean)
          (λ (bits, r') (small, a). returns (omega arith, After-weaken a (omega arith)))
    read_body-Gives offset Marker.boolean =
        Ensures->>= (number_of-After 1 r clean)
          (λ (flag, r') (small, a). returns (tt, After-weaken a (omega arith)))
    read_body-Gives offset Marker.string = text-Gives 2 (omega arith)
    read_body-Gives offset Marker.long_string = text-Gives 4 (omega arith)
    read_body-Gives offset Marker.object = properties-Gives object (λ ps p. p) r (same_place clean)
    read_body-Gives offset Marker.ecma_array =
        Ensures->>= (number_of-After 4 r clean) (λ (count, r') (small, a).
          properties-Gives ecma_array (λ ps p. p) r' (After-weaken a (omega arith)))
    read_body-Gives offset Marker.strict_array =
        Ensures->>= (number_of-After 4 r clean) (λ (count, r') (small, a).
          Ensures->>=
            (nested-After (λ vs. FitsValues is_utf8 (r'.depth + 1) vs × (count_values vs ≡ count)) 0
              (members count) r' (members-Gives count r' a))
            (λ (vs, r'') (room, (fit, size), after). returns (
              (
                omega (arith, a.level),
                omega arith,
                subst (λ d. FitsValues is_utf8 (d + 1) vs) a.level fit,
              ),
              After-trans a after (omega arith),
            )))
    read_body-Gives offset Marker.date =
        Ensures->>= (number_of-After 8 r clean) (λ (millis, r') (small, a).
          Ensures->>= (bytes-After 2 r' a.clean) (λ (zone, r'') (size, are_bytes, after).
            returns (omega arith, After-trans a after (omega arith))))
    read_body-Gives offset Marker.null = returns (tt, same_place clean)
    read_body-Gives offset Marker.undefined = returns (tt, same_place clean)
    read_body-Gives offset _ = fails

  close_object-Gives : (r : Reader) → All IsByte r.rest → GivesProperties r (close_object r)
  unfolding close_object FitsValue
  close_object-Gives r clean = Ensures->>= (number_of-After 1 r clean) (λ (marker, r') (small, a).
      elim (Bool-cases (eqb marker 0x09)) [
        | inl closed ↦ rw closed (returns (tt, After-weaken a (omega arith)))
        | inr other ↦ rw other fails
      ])

  mutual
    unfolding read_value FitsValue enter count_values

    value-Gives :
        (fuel : ℕ) (r : Reader)
        → All IsByte r.rest
        → 2 * length r.rest < fuel
        → GivesValue 1 r (read_value is_utf8 fuel r)
    value-Gives zero r clean enough = absurd (omega arith)
    value-Gives (suc fuel) r clean enough =
        Ensures->>= (number_of-After 1 r clean) (λ (marker, r') (small, a).
          Ensures-weaken
            (read_body-Gives (read_properties is_utf8 fuel) (read_values is_utf8 fuel) r' a.clean
              (λ r'' a'.
                properties-Gives_of fuel (enter r'') a'.clean (omega (arith, a.moved, a'.moved)))
              (λ count r'' a'.
                values-Gives fuel count (enter r'') a'.clean (omega (arith, a.moved, a'.moved)))
              r.pos (marker_of marker))
            (λ (v, r'') (fit, a').
              (subst (λ d. FitsValue is_utf8 d v) a.level fit, After-trans a a' (omega arith))))

    values-Gives :
        (fuel count : ℕ) (r : Reader)
        → All IsByte r.rest
        → 2 * length r.rest + 1 < fuel
        → GivesValues count r (read_values is_utf8 fuel count r)
    values-Gives zero count r clean enough = absurd (omega arith)
    values-Gives (suc fuel) count r clean enough = elim (Bool-cases (eqb count 0)) [
      | inl done ↦ rw done (returns ((tt, sym ((eqb_iff count 0).0 done)), same_place clean))
      | inr more ↦ rw more (
          Ensures->>= (value-Gives fuel r clean (omega arith)) (λ (v, r') (fit, a).
            Ensures->>= (values-Gives fuel (count - 1) r' a.clean (omega (arith, a.moved)))
              (λ (vs, r'') ((fits, size), a'). returns (
                ((fit, subst (λ d. FitsValues is_utf8 d vs) a.level fits), ground (arith, more)),
                After-trans a a' (omega arith),
              ))))
    ]

    properties-Gives_of :
        (fuel : ℕ) (r : Reader)
        → All IsByte r.rest
        → 2 * length r.rest < fuel
        → GivesProperties r (read_properties is_utf8 fuel r)
    properties-Gives_of zero r clean enough = absurd (omega arith)
    properties-Gives_of (suc fuel) r clean enough =
        Ensures->>= (number_of-After 2 r clean) (λ (count, r') (small, a).
          elim (Bool-cases (eqb count 0)) [
            | inl done ↦ rw done (
                Ensures-weaken (close_object-Gives r' a.clean) (λ (ps, r'') (fit, a'). (
                  subst (λ d. FitsProperties is_utf8 d ps) a.level fit,
                  After-trans a a' (omega arith),
                )))
            | inr more ↦ rw more (
                Ensures->>= (read_string-After is_utf8 count r' a.clean)
                  (λ (key, r₁) (valid, size, a₁).
                    Ensures->>= (value-Gives fuel r₁ a₁.clean (omega (arith, a.moved, a₁.moved)))
                      (λ (v, r₂) (fit, a₂).
                        Ensures->>=
                          (properties-Gives_of fuel r₂ a₂.clean
                            (omega (arith, a.moved, a₁.moved, a₂.moved)))
                          (λ (ps, r₃) (fits, a₃).
                            let b₁ : After r 0 r₁ = After-trans a a₁ (omega arith) in
                            let b₂ : After r 0 r₂ = After-trans b₁ a₂ (omega arith) in
                            returns (
                              (
                                valid,
                                ground (arith, more),
                                omega arith,
                                subst (λ d. FitsValue is_utf8 d v) b₁.level fit,
                                subst (λ d. FitsProperties is_utf8 d ps) b₂.level fits,
                              ),
                              After-trans b₂ a₃ (omega arith),
                            )))))
          ])

  until_end-Gives :
      (rounds inside : ℕ) (r : Reader)
      → All IsByte r.rest
      → length r.rest < rounds
      → 2 * length r.rest < inside
      → Ensures (FitsValues is_utf8 r.depth) (read_until_end is_utf8 rounds inside r)
  unfolding read_until_end FitsValue
  until_end-Gives zero inside r clean enough deep = absurd (omega arith)
  until_end-Gives (suc rounds) inside r clean enough deep = elim (Bool-cases (is_empty r.rest)) [
    | inl done ↦ rw done (returns tt)
    | inr more ↦ rw more (
        Ensures->>= (value-Gives inside r clean deep) (λ (v, r') (fit, a).
          Ensures->>=
            (until_end-Gives rounds inside r' a.clean (omega (arith, a.moved))
              (omega (arith, a.moved)))
            (λ vs fits. returns (fit, subst (λ d. FitsValues is_utf8 d vs) a.level fits))))
  ]

  -- On any bytes `read_all` ends, without a panic; and the values that it returns, if it does not
  -- refuse the payload, are nested at most 32 deep, have texts that are UTF-8 and no empty key.
  pub read_all-FitsValues :
      (payload : Bytes)
      → All IsByte payload
      → Ensures (FitsValues is_utf8 0) (read_all is_utf8 payload)
  unfolding read_all
  read_all-FitsValues payload clean =
      until_end-Gives (length payload + 1) (2 * length payload + 1) _ clean (omega arith)
        (omega arith)

  -- Whatever `read_all` returned can be written, and the bytes read back as the same values, whatever
  -- encoding the peer had chosen.
  pub read_all-write_all-read_all :
      (payload : Bytes) (vs : Values)
      → All IsByte payload
      → read_all is_utf8 payload ≡ ok vs
      → (out : Bytes) × (write_all vs ≡ ok out) × (read_all is_utf8 out ≡ ok vs)
  read_all-write_all-read_all payload vs clean e =
      read_all-write_all is_utf8 vs (Ensures-ok (read_all-FitsValues payload clean) e)
