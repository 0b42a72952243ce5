-- ===== src/Path/Cache/Valid.antt =====
-- What makes the cache of src/path.rs valid, whatever is pushed.
use relaybay.Base.{◌≤◌, ◌≡◌, true, false}
use relaybay.Base.{List, [], ◌∷◌}
use relaybay.Unit.{MediaUnit, opens_a_stream}
use relaybay.Path.Cache.{Cache, cache_limit}
use relaybay.Path.Cache.Group.{total, Follows}

-- A picture that opens the stream, and units behind it that do not.
abbrev IsGroup : List MediaUnit → Type 0
IsGroup [] = ⊥
IsGroup (u ∷ units) = (opens_a_stream u ≡ true) × Follows units

-- The byte count is that of the units held, which are within the limit; a group that overflowed is
-- held in no part; and once a picture has opened the stream, and the group has not overflowed, what is
-- held is one group from its picture on.
pub record IsValid (c : Cache) : Type 0 where
  pub counted : c.bytes ≡ total c.units
  pub within : c.bytes ≤ cache_limit
  pub dropped : c.overflowed ≡ true → c.units ≡ []
  pub blank : c.overflowed ≡ true → c.pictures ≡ true
  pub opened : c.pictures ≡ true → c.overflowed ≡ false → IsGroup c.units
