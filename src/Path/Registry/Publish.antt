-- ===== src/Path/Registry/Publish.antt =====
-- Publishing, pushing and dropping in the registry of src/path.rs, each running alone.
use relaybay.Base.{◌+◌, ◌^◌, ◌<◌, ◌≡◌, ◌≢◌, refl, sym, ap, ◌∙◌}
use relaybay.Base.{arith, some, get}
use relaybay.Base.{nat_eq, string_eq}
use relaybay.Base.{some_inj}
use Prim.Native.String.{String}
use mathlib.Core.Option
use relaybay.Path.Registry.{
  Broadcast, Publisher, Registry, source_at, source_of, set_source, take_token, open_path,
  fresh_source, publish, describe,
}
use relaybay.Path.Registry.Laws.{IsValid, source_of-set, source_of-set_other, set_source-IsValid}
use relaybay.Path.Registry.Opening.{open_path-Opened}

-- A publisher of the stream under its name: the registry has its path there, and its token was given
-- out.
pub record IsPublisher {b : Broadcast} {D : Type 0} (r : Registry b D) (p : Publisher)
    : Type 0 where
  pub named : get p.name r.paths ≡ some p.path
  pub given : p.token < r.published

module _ {b : Broadcast} {D : Type 0} where
  take_token-IsValid :
      (r : Registry b D) → IsValid r → r.published + 1 < 2 ^ 64 → IsValid (take_token r).1
  unfolding take_token source_at
  take_token-IsValid r v h = record {
    given = v.given;
    apart = v.apart;
    tokens = λ a s e. omega (arith, v.tokens a s e);
    placed = v.placed;
    unwrapped = omega arith;
  }

  source_of-take_token :
      (r : Registry b D) (m : String) → source_of (take_token r).1 m ≡ source_of r m
  unfolding take_token source_of source_at
  source_of-take_token r m = refl

  -- What a publish comes to.
  pub record Published (r : Registry b D) (name : String) (d : D) (t : Publisher × Registry b D)
      : Type 0 where
    pub valid : IsValid t.1
    pub publisher : IsPublisher t.1 t.0
    pub named : t.0.name ≡ name
    pub token : t.0.token ≡ r.published
    pub source : source_of t.1 name ≡ some (fresh_source r.published d)
    pub described : describe t.1 name ≡ some d
    pub others : (m : String) → name ≢ m → source_of t.1 m ≡ source_of r m

  -- While tokens last, publishing puts a fresh source under the name, whatever was there, and leaves
  -- the streams under all other names as they are.
  pub publish-Published :
      (r : Registry b D) (name : String) (d : D)
      → IsValid r
      → r.published + 1 < 2 ^ 64
      → Published r name d (publish r name d)
  unfolding publish describe take_token
  publish-Published r name d v h =
      let r₁ = (take_token r).1 in
      let v₁ = take_token-IsValid r v h in
      let o = open_path-Opened r₁ name v₁ in
      let path = (open_path r₁ name).0 in
      let r₂ = (open_path r₁ name).1 in
      let s = fresh_source r.published d in
      let found = source_of-set r₂ path name (some s) o.named in
      let given : r.published < r₂.published = omega (arith, o.clock) in
      record {
        valid =
            set_source-IsValid r₂ path (some s) o.valid
              (λ source e. (rw (ap (λ x. x.token) (sym (some_inj e))) given, o.placed));
        publisher = record {
          named = unfold set_source in o.named;
          given = unfold set_source in given;
        };
        named = refl;
        token = refl;
        source = found;
        described = ap (Option.map (λ source. source.description)) found;
        others = λ m ne.
            source_of-set_other r₂ path name m (some s) o.valid o.named ne
            ∙ o.others m ne
            ∙ source_of-take_token r m;
      }
