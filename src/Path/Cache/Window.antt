-- ===== src/Path/Cache/Window.antt =====
-- What the cache of src/path.rs holds of a stream that no picture has opened: sound, or pictures in
-- front of the first keyframe.
use relaybay.Base.{◌-◌, ◌≤◌, ◌<◌, ◌≡◌, refl, sym, ap, ◌∙◌, false, subst}
use relaybay.Base.{
  leb, if◌then◌else◌, List, [], ◌∷◌, ◌++◌, arith, append_assoc, append-nil, le→leb, gt→leb,
  le_or_lt,
}
use relaybay.Base.{inl, inr, ◌⊎◌}
use relaybay.Unit.{MediaUnit, opens_a_stream, unit_length}
use relaybay.Path.Cache.{Cache, cache_limit, new, trim, append, push}
use relaybay.Path.Cache.Group.{
  total, total-append, total_one, push_all, append_held, start_over_following, Follows,
}

-- The longest end of a run that is within the limit.
pub window : List MediaUnit → List MediaUnit
window [] = []
window (u ∷ units) = if leb (total (u ∷ units)) cache_limit then u ∷ units else window units

-- A cache that no picture has opened, holding these units.
abbrev holding : List MediaUnit → Cache
holding units = record { units = units; bytes = total units; overflowed = false; pictures = false }

trim-window :
    (units held : List MediaUnit)
    → trim units (record (holding held) { bytes = total units }) ≡ holding (window units)
unfolding trim window
trim-window [] held = unfold total in refl
trim-window (u ∷ units) held = elim (le_or_lt (total (u ∷ units)) cache_limit) [
  | inl fits ↦ rw (le→leb (total (u ∷ units)) cache_limit fits)
  | inr over ↦
      let rest : total (u ∷ units) - unit_length u ≡ total units = unfold total in omega arith in
      rw (gt→leb (total (u ∷ units)) cache_limit over, rest) (trim-window units held)
]

-- Trimming early loses nothing that trimming late would keep.
window-append_one :
    (units : List MediaUnit) (u : MediaUnit)
    → window (window units ++ u ∷ []) ≡ window (units ++ u ∷ [])
unfolding window
window-append_one [] u = refl
window-append_one (v ∷ units) u = elim (le_or_lt (total (v ∷ units)) cache_limit) [
  | inl fits ↦ rw (le→leb (total (v ∷ units)) cache_limit fits)
  | inr over ↦
      let more : cache_limit < total (v ∷ (units ++ u ∷ [])) =
        omega (arith, total-append (v ∷ units) (u ∷ [])) in
      rw
        (
          gt→leb (total (v ∷ units)) cache_limit over,
          gt→leb (total (v ∷ (units ++ u ∷ []))) cache_limit more,
        )
        (window-append_one units u)
]

push-window :
    (units : List MediaUnit) (u : MediaUnit)
    → opens_a_stream u ≡ false
    → push (holding (window units)) u ≡ holding (window (units ++ u ∷ []))
unfolding push
push-window units u h =
    let held = window units in
    ap (λ c. append c u) (start_over_following (holding held) u h)
    ∙ append_held (holding held) u refl
    ∙ ap (λ n. trim (held ++ u ∷ []) (record (holding held) { bytes = n }))
        (omega (arith, total-append held (u ∷ []), total_one u))
    ∙ trim-window (held ++ u ∷ []) held
    ∙ ap holding (window-append_one units u)

push_all_from :
    (units more : List MediaUnit)
    → Follows more
    → push_all (holding (window units)) more ≡ holding (window (units ++ more))
unfolding push_all
push_all_from units [] h = ap (λ us. holding (window us)) (sym (append-nil units))
push_all_from units (u ∷ more) (h, hs) =
    ap (λ c. push_all c more) (push-window units u h)
    ∙ push_all_from (units ++ u ∷ []) more hs
    ∙ ap (λ us. holding (window us)) (append_assoc units (u ∷ []) more)

-- As long as no picture opens the stream, the cache holds the longest end of what was pushed that is
-- within the limit.
push_all-window :
    (units : List MediaUnit) → Follows units → (push_all new units).units ≡ window units
unfolding new window total
push_all-window units h = ap (λ c. c.units) (push_all_from [] units h)

-- An end of the run that is within the limit: all of it, or one unit more would pass the limit.
pub record IsLongestEnd (units end : List MediaUnit) : Type 0 where
  pub front : List MediaUnit
  pub split : units ≡ front ++ end
  pub within : total end ≤ cache_limit
  pub longest :
      (front ≡ [])
      ⊎ ((fore : List MediaUnit) × (u : MediaUnit) × (front ≡ fore ++ u ∷ [])
          × (cache_limit < total (u ∷ end)))

window-IsLongestEnd : (units : List MediaUnit) → IsLongestEnd units (window units)
unfolding window
window-IsLongestEnd [] = record {
  front = [];
  split = refl;
  within = unfold total in omega arith;
  longest = inl refl;
}
window-IsLongestEnd (v ∷ units) = elim (le_or_lt (total (v ∷ units)) cache_limit) [
  | inl fits ↦
      rw (le→leb (total (v ∷ units)) cache_limit fits)
        (record { front = []; split = refl; within = fits; longest = inl refl })
  | inr over ↦
      let e = window-IsLongestEnd units in
      rw (gt→leb (total (v ∷ units)) cache_limit over) (record {
        front = v ∷ e.front;
        split = ap (λ t. v ∷ t) e.split;
        within = e.within;
        longest = inr (elim e.longest [
          | inl none ↦ (
            [],
            v,
            ap (λ t. v ∷ t) none,
            subst (λ t. cache_limit < total (v ∷ t)) (e.split ∙ ap (λ t. t ++ window units) none)
                over,
          )
          | inr (fore, u, last, more) ↦ (v ∷ fore, u, ap (λ t. v ∷ t) last, more)
        ]);
      })
]

-- As long as nothing has opened the stream, the cache holds the longest end of what was pushed that is
-- within the limit: the newest units, in order and without a gap, and pictures before the first one that
-- opens the stream no less than sound.
pub push_all-IsLongestEnd :
    (units : List MediaUnit) → Follows units → IsLongestEnd units (push_all new units).units
push_all-IsLongestEnd units h =
    subst (IsLongestEnd units) (sym (push_all-window units h)) (window-IsLongestEnd units)
