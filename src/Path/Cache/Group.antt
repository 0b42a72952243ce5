-- ===== src/Path/Cache/Group.antt =====
-- What the cache of src/path.rs holds after any run of pushes, against the run itself.
use relaybay.Base.{ℕ, ◌+◌, ◌≤◌, ◌<◌, ◌≡◌, refl, sym, ap, ◌∙◌, true, false}
use relaybay.Base.{leb, if◌then◌else◌, List, [], ◌∷◌, ◌++◌, arith, All, append_assoc, append-nil}
use relaybay.Base.{le→leb, gt→leb, inl, inr, le_or_lt}
use relaybay.Unit.{MediaUnit, opens_a_stream, unit_length}
use relaybay.Path.Cache.{Cache, cache_limit, new, trim, start_over, append, push}

-- The bytes of a run of units.
unfoldable pub total : List MediaUnit → ℕ
total [] = 0
total (u ∷ units) = unit_length u + total units

pub total-append : (us vs : List MediaUnit) → total (us ++ vs) ≡ total us + total vs
unfolding total
total-append [] vs = omega arith
total-append (u ∷ us) vs = omega (arith, total-append us vs)

unfoldable pub push_all : Cache → List MediaUnit → Cache
push_all c [] = c
push_all c (u ∷ units) = push_all (push c u) units

pub append_over : (c : Cache) (u : MediaUnit) → c.overflowed ≡ true → append c u ≡ c
unfolding append
append_over c u h =
    ap
      (λ b.
        if b then c else trim (c.units ++ u ∷ []) (record c { bytes = c.bytes + unit_length u }))
      h

pub append_held :
    (c : Cache) (u : MediaUnit)
    → c.overflowed ≡ false
    → append c u ≡ trim (c.units ++ u ∷ []) (record c { bytes = c.bytes + unit_length u })
unfolding append
append_held c u h =
    ap
      (λ b.
        if b then c else trim (c.units ++ u ∷ []) (record c { bytes = c.bytes + unit_length u }))
      h

pub total_one : (u : MediaUnit) → total (u ∷ []) ≡ unit_length u
unfolding total
total_one u = omega arith

-- Nothing in the run opens a stream.
abbrev pub Follows : List MediaUnit → Type 0
Follows = All (λ u. opens_a_stream u ≡ false)

-- The cache that holds a group, or that had to give it up.
pub group : List MediaUnit → Cache
group g =
    if leb (total g) cache_limit
    then record { units = g; bytes = total g; overflowed = false; pictures = true }
    else record { units = []; bytes = 0; overflowed = true; pictures = true }

-- Once a picture has opened the stream, the limit is passed for the whole group at once.
pub trim-group :
    (g : List MediaUnit) (c : Cache)
    → c.pictures ≡ true
    → c.overflowed ≡ false
    → c.bytes ≡ total g
    → trim g c ≡ group g
unfolding trim group
trim-group [] c p o h = ground arith
trim-group (u ∷ g) c p o h = ground arith

pub start_over_following :
    (c : Cache) (u : MediaUnit) → opens_a_stream u ≡ false → start_over c u ≡ c
unfolding start_over
start_over_following c u h = rw h

pub push_opening : (c : Cache) (u : MediaUnit) → opens_a_stream u ≡ true → push c u ≡ group (u ∷ [])
unfolding push start_over
push_opening c u h =
    rw h (append_held _ u refl ∙ trim-group (u ∷ []) _ refl refl (omega (arith, total_one u)))

pub group_held :
    (g : List MediaUnit)
    → total g ≤ cache_limit
    → group g ≡ record { units = g; bytes = total g; overflowed = false; pictures = true }
unfolding group
group_held g h = rw (le→leb (total g) cache_limit h)

pub group_over :
    (g : List MediaUnit)
    → cache_limit < total g
    → group g ≡ record { units = []; bytes = 0; overflowed = true; pictures = true }
unfolding group
group_over g h = rw (gt→leb (total g) cache_limit h)

push_following :
    (g : List MediaUnit) (u : MediaUnit)
    → opens_a_stream u ≡ false
    → push (group g) u ≡ group (g ++ u ∷ [])
unfolding push
push_following g u h =
    let sums = total-append g (u ∷ []) in
    let one = total_one u in
    ap (λ c. append c u) (start_over_following (group g) u h)
    ∙ elim (le_or_lt (total g) cache_limit) [
      | inl fits ↦
          ap (λ c. append c u) (group_held g fits)
          ∙ append_held _ u refl
          ∙ trim-group (g ++ u ∷ []) _ refl refl (omega arith)
      | inr over ↦
          ap (λ c. append c u) (group_over g over)
          ∙ append_over _ u refl
          ∙ sym (group_over (g ++ u ∷ []) (omega arith))
    ]

push_all_following :
    (g units : List MediaUnit) → Follows units → push_all (group g) units ≡ group (g ++ units)
unfolding push_all
push_all_following g [] h = ap group (sym (append-nil g))
push_all_following g (u ∷ units) (h, hs) =
    ap (λ c. push_all c units) (push_following g u h)
    ∙ push_all_following (g ++ u ∷ []) units hs
    ∙ ap group (append_assoc g (u ∷ []) units)

push_all-append :
    (c : Cache) (us vs : List MediaUnit) → push_all c (us ++ vs) ≡ push_all (push_all c us) vs
unfolding push_all
push_all-append c [] vs = refl
push_all-append c (u ∷ us) vs = push_all-append (push c u) us vs

-- Whatever was pushed before, after a picture that opens the stream and units that do not the cache
-- holds that group from its picture on, in order; or none of it, if it is over the limit.
pub push_all_group :
    (before g : List MediaUnit) (u : MediaUnit)
    → opens_a_stream u ≡ true
    → Follows g
    → (push_all new (before ++ u ∷ g)).units
      ≡ (if leb (total (u ∷ g)) cache_limit then u ∷ g else [])
unfolding push_all
push_all_group before g u h hs =
    ap (λ c. c.units)
      (push_all-append new before (u ∷ g)
        ∙ ap (λ c. push_all c g) (push_opening (push_all new before) u h)
        ∙ push_all_following (u ∷ []) g hs)
    ∙ units-group (u ∷ g)
  where
    units-group :
        (g : List MediaUnit) → (group g).units ≡ (if leb (total g) cache_limit then g else [])
    units-group g = unfold group in ground arith
