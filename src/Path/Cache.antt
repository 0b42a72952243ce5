-- ===== src/Path/Cache.antt =====
-- `Cache` of src/path.rs: the units since the last picture that a stream can be started at.
use relaybay.Base.{
  ℕ, ◌+◌, ◌-◌, ◌*◌, ◌≤◌, Bool, true, false, leb, if◌then◌else◌, List, [], ◌∷◌, ◌++◌,
}
use relaybay.Base.{◌≡◌}
use relaybay.Unit.{MediaUnit, opens_a_stream, unit_length}
pub mod Group
pub mod Valid
pub mod Window

abbrev pub cache_limit : ℕ
cache_limit = 8 * 1024 * 1024

pub record Cache : Type 0 where
  pub units : List MediaUnit
  pub bytes : ℕ
  pub overflowed : Bool
  pub pictures : Bool

unfoldable pub new : Cache
new = record { units = []; bytes = 0; overflowed = false; pictures = false }

-- The loop `while self.bytes > CACHE_LIMIT`; the list is `self.units`.
unfoldable pub trim : List MediaUnit → Cache → Cache
trim [] c =
    if leb c.bytes cache_limit
    then record c { units = [] }
    else if c.pictures
    then record c { units = []; bytes = 0; overflowed = true }
    else record c { units = [] }
trim (oldest ∷ units) c =
    let rest = trim units (record c { bytes = c.bytes - unit_length oldest }) in
    if leb c.bytes cache_limit
    then record c { units = oldest ∷ units }
    else if c.pictures
    then record c { units = []; bytes = 0; overflowed = true }
    else rest

-- A unit that opens a stream makes what is held so far worth nothing.
unfoldable pub start_over : Cache → MediaUnit → Cache
start_over c u =
    if opens_a_stream u
    then record c { units = []; bytes = 0; overflowed = false; pictures = true }
    else c

unfoldable pub append : Cache → MediaUnit → Cache
append c u =
    if c.overflowed
    then c
    else trim (c.units ++ u ∷ []) (record c { bytes = c.bytes + unit_length u })

unfoldable pub push : Cache → MediaUnit → Cache
push c u = append (start_over c u) u
