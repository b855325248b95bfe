-- ===== src/Engine/MatchFinder/Extend.antt =====
-- The changes of one round of mapEdges: what holds while the vertices of an edge are mapped.
use uncover.Base.{
  IsOrdered, insert-IsOrdered, ℕ, ◌≡◌, List, [], ◌∷◌, Bool, true, false, ◌||◌, none, some, arith,
  contains, insert, lookup, lookup-insert, ◌==◌, Bool-cases, inl, inr,
}
use uncover.Graphs.Hypergraph.{Hypergraph, Edge, has_edge}
use uncover.Graphs.Mapping.{Mapping, has_src, get_tar}
use uncover.Engine.MatchFinder.{Problem, Search, Extension, map_one, set_rev, add_rev_diff}
use uncover.Engine.MatchFinder.Partial.{is_attached}
use uncover.Engine.MatchFinder.Possible.{Back, Forth}
use uncover.Engine.MatchFinder.Undo.{Restores, RestoresIds, Restores-fresh, Restores-insert}

-- Some vertex of the sequence is mapped.
abbrev pub touched : Mapping → List ℕ → Bool
touched m [] = false
touched m (v ∷ vs) = has_src m v || touched m vs

-- An edge that is not mapped, while one of its vertices is.
abbrev pub IsOpen : Hypergraph → Mapping → ℕ → Type 0
IsOpen source m e =
    (a : Edge) × (lookup e source.edges ≡ some a)
    × (has_src m e ≡ false)
    × (touched m a.vertices ≡ true)

abbrev pub in_domain : Hypergraph → ℕ → Bool
in_domain source i = has_edge source i || is_attached source i

-- What holds of every state of a round that began in `before`.
pub record Growing (p : Problem) (before : Search) (x : Extension) : Type 0 where
  pub back : Back p x.state.current x.state.rev_current
  pub forth : Forth p x.state.current x.state.rev_current
  pub domain : (i : ℕ) → has_src x.state.current i ≡ true → in_domain p.source i ≡ true
  pub open_edges : (e : ℕ) → contains e x.state.mappable ≡ true → IsOpen p.source x.state.current e
  pub kept_current : Restores x.state.current x.current_diff before.current
  pub kept_rev : Restores x.state.rev_current x.rev_diff before.rev_current
  pub kept_mappable : RestoresIds x.state.mappable x.mappable_diff before.mappable
  pub found : x.state.found ≡ before.found
  pub ordered : IsOrdered x.state.current

touched-insert :
    (m : Mapping) (s t : ℕ) (vs : List ℕ) → touched m vs ≡ true → touched (insert s t m) vs ≡ true
touched-insert m s t [] h = cc
touched-insert m s t (v ∷ vs) h = ground (arith, touched-insert m s t vs, lookup-insert s v t m)

pub touched-contains :
    (m : Mapping) (v : ℕ) (vs : List ℕ)
    → contains v vs ≡ true
    → has_src m v ≡ true
    → touched m vs ≡ true
touched-contains m v [] c h = cc
touched-contains m v (w ∷ vs) c h = ground (arith, touched-contains m v vs)

IsOpen-insert :
    (source : Hypergraph) (m : Mapping) (s t e : ℕ)
    → IsOpen source m e
    → (s == e) ≡ false
    → IsOpen source (insert s t m) e
IsOpen-insert source m s t e (a, is_a, fresh, near) other = (
  a,
  is_a,
  ground (arith, fresh, other, lookup-insert s e t m),
  touched-insert m s t a.vertices near,
)

module _ (p : Problem) (before : Search) where
  Back-insert :
      (current rev : Mapping) (s t : ℕ)
      → Back p current rev
      → has_src current s ≡ false
      → Back p (insert s t current) (set_rev p t s rev)
  Back-insert current rev s t back fresh i t' s' h = elim (Bool-cases (t == t')) [
    | inl same ↦ ground (arith, i, h, same, lookup-insert t t' s rev, lookup-insert s s' t current)
    | inr other ↦
        let old : get_tar rev t' ≡ some s' =
          ground (arith, i, h, other, lookup-insert t t' s rev) in
        ground (arith, back i t' s' old, fresh, lookup-insert s s' t current)
  ]

  Forth-insert :
      (current rev : Mapping) (s t : ℕ)
      → Forth p current rev
      → Forth p (insert s t current) (set_rev p t s rev)
  Forth-insert current rev s t forth i s' t' h = elim (Bool-cases (s == s')) [
    | inl same ↦ ground (arith, i, h, same, lookup-insert t t' s rev, lookup-insert s s' t current)
    | inr other ↦
        let old : get_tar current s' ≡ some t' =
          ground (arith, h, other, lookup-insert s s' t current) in
        ground (arith, i, forth i s' t' old, lookup-insert t t' s rev)
  ]

  Restores-set_rev :
      (rev : Mapping) (diff : List ℕ) (s t : ℕ)
      → Restores rev diff before.rev_current
      → (p.injective ≡ true → get_tar before.rev_current t ≡ none)
      → Restores (set_rev p t s rev) (add_rev_diff p t diff) before.rev_current
  Restores-set_rev rev diff s t r free = elim (Bool-cases p.injective) [
    | inl i ↦
        let grown = Restores-insert rev diff before.rev_current t s r (free i) in
        λ k. ground (arith, grown k, i)
    | inr i ↦ λ k. ground (arith, r k, i)
  ]

  pub map_one-Growing :
      (x : Extension) (s t : ℕ)
      → Growing p before x
      → has_src x.state.current s ≡ false
      → contains s x.state.mappable ≡ false
      → in_domain p.source s ≡ true
      → (p.injective ≡ true → get_tar before.rev_current t ≡ none)
      → Growing p before (map_one p s t x)
  map_one-Growing x s t g fresh shut inside free =
      let gone : get_tar x.state.current s ≡ none = ground (arith, fresh) in
      record {
        back = Back-insert x.state.current x.state.rev_current s t g.back fresh;
        forth = Forth-insert x.state.current x.state.rev_current s t g.forth;
        domain = λ i h. ground (arith, h, inside, g.domain i, lookup-insert s i t x.state.current);
        open_edges = λ e c.
            IsOpen-insert p.source x.state.current s t e (g.open_edges e c)
              (ground (arith, c, shut));
        kept_current =
            Restores-insert x.state.current x.current_diff before.current s t g.kept_current
              (Restores-fresh x.state.current x.current_diff before.current s g.kept_current gone);
        kept_rev = Restores-set_rev x.state.rev_current x.rev_diff s t g.kept_rev free;
        kept_mappable = g.kept_mappable;
        found = g.found;
        ordered = insert-IsOrdered s t x.state.current g.ordered;
      }
