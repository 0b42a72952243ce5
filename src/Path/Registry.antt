-- ===== src/Path/Registry.antt =====
-- `Registry` and `Publisher` of src/path.rs. An `Arc<Path>` is an address into `cells`, so that a
-- publisher keeps hold of a path that the registry has forgotten; every lock is one step on the state.
use relaybay.Base.{
  ℕ, ◌+◌, ◌%◌, ◌^◌, ◌≤◌, ◌<◌, ◌≡◌, Bool, true, false, eqb, if◌then◌else◌, Option, none,
}
use relaybay.Base.{
  some, List, [], ◌∷◌, ◌++◌, length, get, insert, remove, Eq, nat_eq, string_eq, ◌>>=◌,
}
use Prim.Native.String.{String}
use mathlib.Core.Option
use relaybay.Unit.{MediaUnit}
use relaybay.Path.Cache
use relaybay.Path.Cache.{Cache}
pub mod Laws
pub mod Opening
pub mod Publish
pub mod Live
pub mod Leaving
pub mod Race

abbrev pub limit : ℕ
limit = 1024

-- What the code relies on of a broadcast channel: a receiver is given, in order, each unit that was
-- sent since it subscribed to that channel, as long as it is not further behind than the channel holds.
pub record Broadcast : Type 1 where
  pub Feed : Type 0
  pub Receiver : Type 0
  pub channel : ℕ → Feed
  pub send : Feed → MediaUnit → Feed
  pub subscribe : Feed → Receiver
  pub capacity : Feed → ℕ
  pub waiting : Receiver → Feed → List MediaUnit
  pub Attached : Receiver → Feed → Type 0
  pub subscribe-Attached : (f : Feed) → Attached (subscribe f) f
  pub send-Attached :
      (r : Receiver) (f : Feed) (u : MediaUnit) → Attached r f → Attached r (send f u)
  pub capacity-channel : (n : ℕ) → n ≤ capacity (channel n)
  pub capacity-send : (f : Feed) (u : MediaUnit) → capacity (send f u) ≡ capacity f
  pub waiting-subscribe : (f : Feed) → waiting (subscribe f) f ≡ []
  pub waiting-send :
      (r : Receiver) (f : Feed) (u : MediaUnit)
      → Attached r f
      → length (waiting r f) < capacity f
      → waiting r (send f u) ≡ waiting r f ++ u ∷ []

pub record Publisher : Type 0 where
  pub name : String
  pub path : ℕ
  pub token : ℕ

-- `D` is `Description`, which this module only hands on.
-- Dropping a source closes its feed and wakes its publisher: the cell then holds another token.
pub record Source (b : Broadcast) (D : Type 0) : Type 0 where
  pub token : ℕ
  pub description : D
  pub feed : b.Feed
  pub cache : Cache

pub record Registry (b : Broadcast) (D : Type 0) : Type 0 where
  pub paths : List (String × ℕ)
  pub cells : List (ℕ × Option (Source b D))
  pub next_path : ℕ
  pub published : ℕ

pub record Reader (b : Broadcast) (D : Type 0) : Type 0 where
  pub description : D
  pub backlog : List MediaUnit
  pub feed : b.Receiver
  pub skipped : ℕ

module _ {b : Broadcast} {D : Type 0} where
  unfoldable pub new : Registry b D
  new = record { paths = []; cells = []; next_path = 0; published = 0 }

  unfoldable pub source_at : Registry b D → ℕ → Option (Source b D)
  source_at r path = get path r.cells >>= λ cell. cell

  unfoldable pub set_source : Registry b D → ℕ → Option (Source b D) → Registry b D
  set_source r path source = record r { cells = insert path source r.cells }

  -- The three steps of `publish`: a token, the path under its name, and the source put into it.
  unfoldable pub take_token : Registry b D → ℕ × Registry b D
  take_token r = (r.published, record r { published = (r.published + 1) % 2 ^ 64 })

  unfoldable pub open_path : Registry b D → String → ℕ × Registry b D
  open_path r name = elim (get name r.paths) [
    | some path ↦ (path, r)
    | none ↦ (
      r.next_path,
      record r {
        paths = insert name r.next_path r.paths;
        cells = insert r.next_path none r.cells;
        next_path = r.next_path + 1;
      },
    )
  ]

  abbrev pub fresh_source : ℕ → D → Source b D
  fresh_source token description = record {
    token = token;
    description = description;
    feed = b.channel limit;
    cache = Cache.new;
  }

  unfoldable pub publish : Registry b D → String → D → Publisher × Registry b D
  publish r name description =
      let (token, r₁) = take_token r in
      let (path, r₂) = open_path r₁ name in
      (
        record { name = name; path = path; token = token },
        set_source r₂ path (some (fresh_source token description)),
      )

  unfoldable pub source_of : Registry b D → String → Option (Source b D)
  source_of r name = get name r.paths >>= source_at r

  unfoldable pub read : Registry b D → String → Option (Reader b D)
  read r name =
      Option.map
        (λ source. record {
          description = source.description;
          backlog = source.cache.units;
          feed = b.subscribe source.feed;
          skipped = 0;
        })
        (source_of r name)

  unfoldable pub describe : Registry b D → String → Option D
  describe r name = Option.map (λ source. source.description) (source_of r name)

  unfoldable pub live_names : Registry b D → List (String × ℕ) → List String
  live_names r [] = []
  live_names r ((name, path) ∷ paths) =
      let rest = live_names r paths in
      elim (source_at r path) [ some s ↦ name ∷ rest | none ↦ rest ]

  unfoldable pub names : Registry b D → List String
  names r = live_names r r.paths

  unfoldable pub push_source :
      Registry b D → Publisher → MediaUnit → Option (Source b D) → Registry b D
  push_source r p u none = r
  push_source r p u (some s) =
      if eqb s.token p.token
      then set_source r p.path
          (some (record s { cache = Cache.push s.cache u; feed = b.send s.feed u }))
      else r

  unfoldable pub push : Registry b D → Publisher → MediaUnit → Registry b D
  push r p u = push_source r p u (source_at r p.path)

  -- The two steps of `drop`, each under its own lock.
  unfoldable pub owns : Publisher → Option (Source b D) → Bool
  owns p none = false
  owns p (some s) = eqb s.token p.token

  unfoldable pub clear : Registry b D → Publisher → Registry b D
  clear r p = if owns p (source_at r p.path) then set_source r p.path none else r

  unfoldable pub forget : Registry b D → Publisher → Registry b D
  forget r p = record r { paths = remove p.name r.paths }

  unfoldable pub drop : Registry b D → Publisher → Registry b D
  drop r p = if owns p (source_at r p.path) then forget (clear r p) p else r
