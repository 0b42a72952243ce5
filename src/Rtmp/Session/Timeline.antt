-- ===== src/Rtmp/Session/Timeline.antt =====
-- `Timeline` and `offset` of src/rtmp/session.rs: milliseconds of 32 bits made a time that only grows.
use relaybay.Base.{
  ℕ, ◌+◌, ◌-◌, ◌*◌, ◌/◌, ◌%◌, ◌^◌, ◌<◌, ◌≤◌, ◌≡◌, refl, ltb, ◌&&◌, if◌then◌else◌, min,
}
use relaybay.Base.{Option, none, some, List, [], ◌∷◌, suc, ℤ, pos, negsuc, arith, map}

pub record Timeline : Type 0 where
  pub origin : Option ℕ
  pub last : ℕ
  pub wraps : ℕ

-- `Timeline::default`.
abbrev pub fresh : Timeline
fresh = record { origin = none; last = 0; wraps = 0 }

abbrev origin_or : ℕ → Option ℕ → ℕ
origin_or timestamp none = timestamp
origin_or timestamp (some first) = first

-- A step back of more than half the range is the counter going round. The count of these has 64 bits,
-- which no connection can use up.
unfoldable pub wraps_at : Timeline → ℕ → ℕ
wraps_at t timestamp =
    if ltb timestamp t.last && ltb ((2 ^ 32 - 1) / 2) (t.last - timestamp)
    then t.wraps + 1
    else t.wraps

-- `Timeline::at`, with the time in nanoseconds.
unfoldable pub at : Timeline → ℕ → ℕ × Timeline
at t timestamp =
    let first = origin_or timestamp t.origin in
    let wraps = wraps_at t timestamp in
    let elapsed = min (wraps * 2 ^ 32 % 2 ^ 64 + timestamp) (2 ^ 64 - 1) - first in
    (elapsed * 1_000_000, record { origin = some first; last = timestamp; wraps = wraps })

-- `offset`: a subtraction stops at zero there too.
unfoldable pub offset : ℕ → ℤ → ℕ
offset dts (pos by) = dts + by * 1_000_000
offset dts (negsuc by) = dts - suc by * 1_000_000

-- The times of some messages, one after the other.
unfoldable pub at_each : Timeline → List ℕ → List ℕ
at_each t [] = []
at_each t (timestamp ∷ rest) = let (time, t') = at t timestamp in time ∷ at_each t' rest

-- Times of a stream that goes forward by less than half the range of the counter at a time.
abbrev pub Ascends : ℕ → List ℕ → Type 0
Ascends from [] = Unit {0}
Ascends from (time ∷ rest) =
    (from ≤ time) × (time < from + 2 ^ 31) × (time < 2 ^ 63) × Ascends time rest

-- What the timeline knows at a time of a stream that began at `first`.
abbrev knows : ℕ → ℕ → Timeline
knows first now = record {
  origin = some (first % 2 ^ 32);
  last = now % 2 ^ 32;
  wraps = now / 2 ^ 32 - first / 2 ^ 32;
}

wraps_at-knows :
    (first now time : ℕ)
    → first ≤ now
    → now ≤ time
    → time < now + 2 ^ 31
    → wraps_at (knows first now) (time % 2 ^ 32) ≡ time / 2 ^ 32 - first / 2 ^ 32
unfolding wraps_at
wraps_at-knows first now time began up near = ground arith

at-knows :
    (first now time : ℕ)
    → first ≤ now
    → now ≤ time
    → time < now + 2 ^ 31
    → time < 2 ^ 63
    → at (knows first now) (time % 2 ^ 32) ≡ ((time - first) * 1_000_000, knows first time)
unfolding at
at-knows first now time began up near fits =
    let wraps = time / 2 ^ 32 - first / 2 ^ 32 in
    let elapsed : min (wraps * 2 ^ 32 % 2 ^ 64 + time % 2 ^ 32) (2 ^ 64 - 1) - first % 2 ^ 32
        ≡ time - first =
      omega arith in
    rw (wraps_at-knows first now time began up near, elapsed) refl

at_each-knows :
    (first now : ℕ) (times : List ℕ)
    → first ≤ now
    → Ascends now times
    → at_each (knows first now) (map (λ time. time % 2 ^ 32) times)
      ≡ map (λ time. (time - first) * 1_000_000) times
unfolding at_each
at_each-knows first now [] began up = refl
at_each-knows first now (time ∷ rest) began (up, near, fits, ups) =
    rw (at-knows first now time began up near fits, at_each-knows first time rest (omega arith) ups)
      refl

at-fresh : (first : ℕ) → at fresh (first % 2 ^ 32) ≡ (0, knows first first)
unfolding at wraps_at
at-fresh first = ground arith

-- The first message is at zero, and each later one is as far from it as the publisher's clock says, in
-- nanoseconds: whatever the origin of the clock, and however often its 32 bits have gone round. It holds
-- of a clock that goes forward by less than half of its range at a time.
pub at_each-Ascends :
    (first : ℕ) (times : List ℕ)
    → Ascends first times
    → at_each fresh (map (λ time. time % 2 ^ 32) (first ∷ times))
      ≡ 0 ∷ map (λ time. (time - first) * 1_000_000) times
unfolding at_each
at_each-Ascends first times ups =
    rw (at-fresh first, at_each-knows first first times (omega arith) ups) refl
