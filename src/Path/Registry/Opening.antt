-- ===== src/Path/Registry/Opening.antt =====
-- Opening a path under a name in the registry of src/path.rs.
use relaybay.Base.{ℕ, ◌+◌, ◌<◌, ◌≡◌, ◌≢◌, refl, sym, ap, ◌∙◌, eqb, arith}
use relaybay.Base.{none, some, get, insert, nat_eq}
use relaybay.Base.{string_eq, get-insert, get-insert_self, Option-cases, Bool-cases, inl, inr}
use relaybay.Base.{eqb_iff, ◌⊎◌}
use Prim.Native.String.{String}
use text.Mathlib.TextEquality.{eq_iff}
use relaybay.Path.Registry.{Broadcast, Registry, source_at, source_of, open_path}
use relaybay.Path.Registry.Laws.{IsValid, source_of-some, source_of-none}

module _ {b : Broadcast} {D : Type 0} where
  -- The registry with one more name, its path empty.
  abbrev with_path : Registry b D → String → Registry b D
  with_path r name = record r {
    paths = insert name r.next_path r.paths;
    cells = insert r.next_path none r.cells;
    next_path = r.next_path + 1;
  }

  no_source : (r : Registry b D) → IsValid r → source_at r r.next_path ≡ none
  no_source r v = elim (Option-cases (source_at r r.next_path)) [
    | inl e ↦ e
    | inr (s, e) ↦ absurd (omega (arith, v.placed r.next_path s e))
  ]

  source_at-with_path :
      (r : Registry b D) (name : String) (a : ℕ)
      → IsValid r
      → source_at (with_path r name) a ≡ source_at r a
  source_at-with_path r name a v = elim (Bool-cases (eqb r.next_path a)) [
    | inl same ↦
        let at : r.next_path ≡ a = (eqb_iff r.next_path a).0 same in
        let blank : source_at (with_path r name) a ≡ none =
          unfold source_at in rw (get-insert a r.next_path none r.cells, same) in
        blank ∙ sym (no_source r v) ∙ ap (source_at r) at
    | inr other ↦ unfold source_at in rw (get-insert a r.next_path none r.cells, other)
  ]

  -- The names of the larger registry: the new one, or an old one.
  get-with_path :
      (r : Registry b D) (name n : String) (a : ℕ)
      → get n (with_path r name).paths ≡ some a
      → ((name ≡ n) × (r.next_path ≡ a)) ⊎ (get n r.paths ≡ some a)
  get-with_path r name n a e = ground (arith, eq_iff name n, get-insert n name r.next_path r.paths)

  with_path-IsValid : (r : Registry b D) (name : String) → IsValid r → IsValid (with_path r name)
  with_path-IsValid r name v = record {
    given = λ n a e. elim (get-with_path r name n a e) [
      | inl (h, k) ↦ omega arith
      | inr h ↦ omega (arith, v.given n a h)
    ];
    apart = λ n m a e e'. elim (get-with_path r name n a e) [
      | inl (h, k) ↦ elim (get-with_path r name m a e') [
        | inl (h', k') ↦ sym h ∙ h'
        | inr h' ↦ absurd (omega (arith, v.given m a h'))
      ]
      | inr h ↦ elim (get-with_path r name m a e') [
        | inl (h', k') ↦ absurd (omega (arith, v.given n a h))
        | inr h' ↦ v.apart n m a h h'
      ]
    ];
    tokens = λ a s e. v.tokens a s (sym (source_at-with_path r name a v) ∙ e);
    placed = λ a s e. omega (arith, v.placed a s (sym (source_at-with_path r name a v) ∙ e));
    unwrapped = v.unwrapped;
  }

  get-with_path_other :
      (r : Registry b D) (name m : String)
      → name ≢ m
      → get m (with_path r name).paths ≡ get m r.paths
  get-with_path_other r name m d =
      ground (arith, eq_iff name m, get-insert m name r.next_path r.paths)

  source_of-with_path :
      (r : Registry b D) (name m : String)
      → IsValid r
      → name ≢ m
      → source_of (with_path r name) m ≡ source_of r m
  source_of-with_path r name m v d =
      let same = get-with_path_other r name m d in
      elim (Option-cases (get m r.paths)) [
        | inl e ↦ source_of-none (with_path r name) m (same ∙ e) ∙ sym (source_of-none r m e)
        | inr (a, e) ↦
            source_of-some (with_path r name) m a (same ∙ e)
            ∙ source_at-with_path r name a v
            ∙ sym (source_of-some r m a e)
      ]

  -- What opening a path keeps and gives.
  pub record Opened (r : Registry b D) (name : String) (t : ℕ × Registry b D) : Type 0 where
    pub named : get name t.1.paths ≡ some t.0
    pub valid : IsValid t.1
    pub others : (m : String) → name ≢ m → source_of t.1 m ≡ source_of r m
    pub placed : t.0 < t.1.next_path
    pub clock : t.1.published ≡ r.published

  pub open_path-Opened :
      (r : Registry b D) (name : String) → IsValid r → Opened r name (open_path r name)
  unfolding open_path
  open_path-Opened r name v = elim (Option-cases (get name r.paths)) [
    | inr (a, e) ↦
        rw (e, open_path)
          (record {
            named = e;
            valid = v;
            others = λ m d. refl;
            placed = v.given name a e;
            clock = refl;
          })
    | inl e ↦
        rw (e, open_path)
          (record {
            named = get-insert_self name r.next_path r.paths;
            valid = with_path-IsValid r name v;
            others = λ m d. source_of-with_path r name m v d;
            placed = omega arith;
            clock = refl;
          })
  ]
