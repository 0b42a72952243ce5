-- ===== src/Path/Registry/Live.antt =====
-- A publisher's hold on the registry of src/path.rs: what it pushes, who joins, who takes the name over.
use relaybay.Base.{◌+◌, ◌^◌, ◌≤◌, ◌<◌, ◌≡◌, refl, sym, ap, ◌∙◌, true}
use relaybay.Base.{arith, some, List, [], ◌∷◌, ◌++◌, get, nat_eq}
use relaybay.Base.{string_eq, eqb_iff, subst, length, append_assoc}
use relaybay.Base.{append-nil, length-append, le→leb}
use Prim.Native.String.{String}
use relaybay.Unit.{MediaUnit, opens_a_stream}
use relaybay.Path.Cache
use relaybay.Path.Cache.Group.{push_all, push_all_group, Follows, total}
use relaybay.Path.Registry.{
  Broadcast, Publisher, Source, Registry, Reader, limit, source_at, source_of, set_source,
  fresh_source, publish, read, push_source, push,
}
use relaybay.Path.Registry.Laws.{IsValid, source_of-some, source_of-set}
use relaybay.Path.Registry.Publish.{publish-Published}

unfoldable pub send_all : (b : Broadcast) → b.Feed → List MediaUnit → b.Feed
send_all b f [] = f
send_all b f (u ∷ units) = send_all b (b.send f u) units

pub capacity-send_all :
    (b : Broadcast) (f : b.Feed) (units : List MediaUnit)
    → b.capacity (send_all b f units) ≡ b.capacity f
unfolding send_all
capacity-send_all b f [] = refl
capacity-send_all b f (u ∷ units) = capacity-send_all b (b.send f u) units ∙ b.capacity-send f u

-- A receiver that is not too far behind misses none of what is sent.
pub waiting-send_all :
    (b : Broadcast) (x : b.Receiver) (f : b.Feed) (units : List MediaUnit)
    → b.Attached x f
    → length (b.waiting x f) + length units ≤ b.capacity f
    → b.waiting x (send_all b f units) ≡ b.waiting x f ++ units
unfolding send_all
waiting-send_all b x f [] a h = sym (append-nil (b.waiting x f))
waiting-send_all b x f (u ∷ units) a h =
    let sent = b.waiting-send x f u a (omega arith) in
    let more : length (b.waiting x (b.send f u)) ≡ length (b.waiting x f) + 1 =
      ap length sent ∙ length-append (b.waiting x f) (u ∷ []) in
    waiting-send_all b x (b.send f u) units (b.send-Attached x f u a)
      (omega (arith, more, b.capacity-send f u))
    ∙ ap (λ w. w ++ units) sent
    ∙ append_assoc (b.waiting x f) (u ∷ []) units

module _ {b : Broadcast} {D : Type 0} where
  -- A publisher whose source is the one under its name.
  pub record Holds (r : Registry b D) (p : Publisher) (s : Source b D) : Type 0 where
    pub named : get p.name r.paths ≡ some p.path
    pub source : source_of r p.name ≡ some s
    pub token : s.token ≡ p.token

  held_at :
      (r : Registry b D) (p : Publisher) (s : Source b D)
      → Holds r p s
      → source_at r p.path ≡ some s
  held_at r p s h = sym (source_of-some r p.name p.path h.named) ∙ h.source

  -- The source after one more unit.
  abbrev pub advanced : Source b D → MediaUnit → Source b D
  advanced s u = record s { cache = Cache.push s.cache u; feed = b.send s.feed u }

  push-held :
      (r : Registry b D) (p : Publisher) (s : Source b D) (u : MediaUnit)
      → Holds r p s
      → push r p u ≡ set_source r p.path (some (advanced s u))
  unfolding push push_source
  push-held r p s u h = rw (held_at r p s h, (eqb_iff s.token p.token).1 h.token) refl

  push-Holds :
      (r : Registry b D) (p : Publisher) (s : Source b D) (u : MediaUnit)
      → Holds r p s
      → Holds (push r p u) p (advanced s u)
  push-Holds r p s u h =
      subst (λ r'. Holds r' p (advanced s u)) (sym (push-held r p s u h))
        (record {
          named = unfold set_source in h.named;
          source = source_of-set r p.path p.name (some (advanced s u)) h.named;
          token = h.token;
        })

  unfoldable pub push_run : Registry b D → Publisher → List MediaUnit → Registry b D
  push_run r p [] = r
  push_run r p (u ∷ units) = push_run (push r p u) p units

  abbrev pub advanced_by : Source b D → List MediaUnit → Source b D
  advanced_by s units = record s { cache = push_all s.cache units; feed = send_all b s.feed units }

  pub push_run-Holds :
      (r : Registry b D) (p : Publisher) (s : Source b D) (units : List MediaUnit)
      → Holds r p s
      → Holds (push_run r p units) p (advanced_by s units)
  unfolding push_run send_all push_all
  push_run-Holds r p s [] h = h
  push_run-Holds r p s (u ∷ units) h =
      push_run-Holds (push r p u) p (advanced s u) units (push-Holds r p s u h)

  abbrev joined : Source b D → Reader b D
  joined s = record {
    description = s.description;
    backlog = s.cache.units;
    feed = b.subscribe s.feed;
    skipped = 0;
  }

  read-held :
      (r : Registry b D) (n : String) (s : Source b D)
      → source_of r n ≡ some s
      → read r n ≡ some (joined s)
  unfolding read
  read-held r n s h = rw h refl

  pub publish-Holds :
      (r : Registry b D) (name : String) (d : D)
      → IsValid r
      → r.published + 1 < 2 ^ 64
      → Holds (publish r name d).1 (publish r name d).0 (fresh_source r.published d)
  publish-Holds r name d v h =
      let q = publish-Published r name d v h in
      record { named = q.publisher.named; source = rw q.named q.source; token = sym q.token }

  -- What a new reader of a stream gets, now and as the stream goes on: a description, and these units.
  pub record Joins (r r' : Registry b D) (name : String) (d : D) (units : List MediaUnit)
      : Type 0 where
    pub reader : Reader b D
    pub source : Source b D
    pub is_reader : read r name ≡ some reader
    pub is_source : source_of r' name ≡ some source
    pub described : reader.description ≡ d
    pub heard : reader.backlog ++ b.waiting reader.feed source.feed ≡ units

  -- Someone who joins a stream that a publisher holds is given what the cache holds, and then, while
  -- not further behind than the feed holds, every unit that is pushed afterwards, once and in order.
  pub push_run-Joins :
      (r : Registry b D) (p : Publisher) (s : Source b D) (units : List MediaUnit)
      → Holds r p s
      → length units ≤ b.capacity s.feed
      → Joins r (push_run r p units) p.name s.description (s.cache.units ++ units)
  push_run-Joins r p s units h room =
      let none_yet = b.waiting-subscribe s.feed in
      let heard : b.waiting (b.subscribe s.feed) (send_all b s.feed units) ≡ units =
        waiting-send_all b (b.subscribe s.feed) s.feed units (b.subscribe-Attached s.feed)
          (omega (arith, ap length none_yet))
        ∙ ap (λ w. w ++ units) none_yet in
      record {
        reader = joined s;
        source = advanced_by s units;
        is_reader = read-held r p.name s h.source;
        is_source = (push_run-Holds r p s units h).source;
        described = refl;
        heard = ap (λ w. s.cache.units ++ w) heard;
      }

  -- A publisher takes a name and pushes units, the last group of which fits the cache; whoever joins then
  -- is given the description and that group from its opening picture on, and then every unit that is
  -- pushed afterwards, none missing, none twice and all in order, up to the length of the feed.
  pub publish-push-Joins :
      (r : Registry b D) (name : String) (d : D) (before g later : List MediaUnit) (u : MediaUnit)
      → IsValid r
      → r.published + 1 < 2 ^ 64
      → opens_a_stream u ≡ true
      → Follows g
      → total (u ∷ g) ≤ Cache.cache_limit
      → length later ≤ limit
      → Joins
          (push_run (publish r name d).1 (publish r name d).0 (before ++ u ∷ g))
          (push_run
            (push_run (publish r name d).1 (publish r name d).0 (before ++ u ∷ g))
            (publish r name d).0
            later)
          name
          d
          ((u ∷ g) ++ later)
  publish-push-Joins r name d before g later u v room opens follows fits few =
      let p = (publish r name d).0 in
      let s = advanced_by (fresh_source r.published d) (before ++ u ∷ g) in
      let r₁ = push_run (publish r name d).1 p (before ++ u ∷ g) in
      let held =
        push_run-Holds (publish r name d).1 p _ (before ++ u ∷ g) (publish-Holds r name d v room) in
      let size = capacity-send_all b (b.channel limit) (before ++ u ∷ g) in
      let group : s.cache.units ≡ u ∷ g =
        push_all_group before g u opens follows
        ∙ rw (le→leb (total (u ∷ g)) Cache.cache_limit fits) refl in
      subst (λ n. Joins r₁ (push_run r₁ p later) n d ((u ∷ g) ++ later))
        (publish-Published r name d v room).named
        (subst (λ w. Joins r₁ (push_run r₁ p later) p.name d (w ++ later)) group
          (push_run-Joins r₁ p s later held (omega (arith, size, b.capacity-channel limit))))
