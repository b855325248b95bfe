-- ===== src/Engine/MatchFinder/Invariant.antt =====
-- What holds of the state of mapEdges, and that mapping one more edge keeps it.
use uncover.Graphs.Mapping.Inverse.{sends-get_tar}
use uncover.Base.{
  ℕ, suc, ◌+◌, ◌≡◌, refl, List, [], ◌∷◌, true, false, ◌||◌, none, some, arith, contains, lookup,
  has_key, lookup-before, IsOrdered, ◌==◌, if◌then◌else◌, Bool-cases, inl, inr, ◌<◌, subst,
}
use uncover.Graphs.Hypergraph.{Hypergraph, Edge, has_vertex}
use uncover.Graphs.Hypergraph.Incidence.{IsWf, contains-count, occurs}
use uncover.Graphs.Mapping.{Mapping, has_src, get_tar}
use uncover.Engine.MatchFinder.{Problem, Search, clashes}
use uncover.Engine.MatchFinder.Partial.{is_attached, IsPartial, carries, IsAlmostInjective}
use uncover.Engine.MatchFinder.Possible.{Back, SameArity, first_image, free_in, Forth}
use uncover.Engine.MatchFinder.Extend.{IsOpen, in_domain}
use uncover.Engine.MatchFinder.Nodes.{lookup-edges_at}

-- Two graphs that the search can be called with.
pub record Input (p : Problem) : Type 0 where
  pub source_wf : IsWf p.source
  pub target_wf : IsWf p.target
  pub ordered : IsOrdered p.source.edges
  pub source_ordered : IsOrdered p.source.vertices
  pub target_ordered : IsOrdered p.target.vertices
  pub target_edges_ordered : IsOrdered p.target.edges
  pub same_arity : SameArity p.source p.target

abbrev pub unmapped : Mapping → List (ℕ × Edge) → ℕ
unmapped m [] = 0
unmapped m ((e, a) ∷ edges) = (if has_src m e then 0 else 1) + unmapped m edges

-- The state of a call of mapEdges with `edgesToGo` edges.
pub record Invariant (p : Problem) (to_go : ℕ) (s : Search) : Type 0 where
  pub back : Back p s.current s.rev_current
  pub forth : Forth p s.current s.rev_current
  pub apart : p.injective ≡ true → IsAlmostInjective p.source s.current
  pub domain : (i : ℕ) → has_src s.current i ≡ true → in_domain p.source i ≡ true
  pub open_edges : (e : ℕ) → contains e s.mappable ≡ true → IsOpen p.source s.current e
  pub partial : IsPartial p.source p.target s.current
  pub counted : unmapped s.current p.source.edges ≡ to_go
  pub ordered : IsOrdered s.current

pub first_image-none : (ss ts : List ℕ) (i : ℕ) → contains i ss ≡ false → first_image ss ts i ≡ none
first_image-none [] ts i c = refl
first_image-none (s ∷ ss) [] i c = refl
first_image-none (s ∷ ss) (t ∷ ts) i c = ground (arith, first_image-none ss ts i)

pub first_image-contains :
    (ss ts : List ℕ) (i u : ℕ)
    → first_image ss ts i ≡ some u
    → (contains i ss ≡ true) × (contains u ts ≡ true)
first_image-contains [] ts i u h = cc
first_image-contains (s ∷ ss) [] i u h = cc
first_image-contains (s ∷ ss) (t ∷ ts) i u h = ground (arith, first_image-contains ss ts i u)

pub free_in-first_image :
    (rev : Mapping) (ss ts : List ℕ) (i u : ℕ)
    → free_in rev ss ts ≡ true
    → first_image ss ts i ≡ some u
    → clashes rev u i ≡ false
free_in-first_image rev [] ts i u c h = cc
free_in-first_image rev (s ∷ ss) [] i u c h = cc
free_in-first_image rev (s ∷ ss) (t ∷ ts) i u c h = elim (Bool-cases (s == i)) [
  | inl same ↦
      let is_i : s ≡ i = ground (arith, same) in
      let is_u : t ≡ u = ground (arith, same, h) in
      let free : clashes rev t s ≡ false = ground (arith, c) in
      subst (λ j. clashes rev u j ≡ false) is_i (subst (λ v. clashes rev v s ≡ false) is_u free)
  | inr other ↦ free_in-first_image rev ss ts i u (ground (arith, c)) (ground (arith, h, other))
]

pub carries-first_image :
    (f : Mapping) (ss ts : List ℕ) (i u : ℕ)
    → carries f ss ts ≡ true
    → first_image ss ts i ≡ some u
    → get_tar f i ≡ some u
carries-first_image f [] ts i u c h = cc
carries-first_image f (s ∷ ss) [] i u c h = cc
carries-first_image f (s ∷ ss) (t ∷ ts) i u c h =
    ground (arith, carries-first_image f ss ts i u, sends-get_tar f s t)

-- The vertices of an edge are vertices with an edge.
pub vertices-attached :
    (h : Hypergraph) (e v : ℕ) (a : Edge)
    → IsWf h
    → lookup e h.edges ≡ some a
    → contains v a.vertices ≡ true
    → (has_vertex h v ≡ true) × (is_attached h v ≡ true)
vertices-attached h e v a w is_a c =
    let often : 0 < occurs h.edges v e = ground (arith, is_a, contains-count v a.vertices c) in
    (w.attached v e often, ground (arith, lookup-edges_at h v e a w is_a c))

pub unmapped-same :
    (m m' : Mapping) (edges : List (ℕ × Edge))
    → ((i : ℕ) → has_key i edges ≡ true → has_src m' i ≡ has_src m i)
    → IsOrdered edges
    → unmapped m' edges ≡ unmapped m edges
unmapped-same m m' [] h o = refl
unmapped-same m m' ((e, a) ∷ edges) h o =
    let rest : (i : ℕ) → has_key i edges ≡ true → has_src m' i ≡ has_src m i =
      λ i k. h i (ground (arith, k)) in
    ground (arith, h e (ground arith), unmapped-same m m' edges rest o.1)

pub unmapped-insert :
    (m m' : Mapping) (e : ℕ) (edges : List (ℕ × Edge))
    → ((i : ℕ) → has_key i edges ≡ true → has_src m' i ≡ ((e == i) || has_src m i))
    → IsOrdered edges
    → has_key e edges ≡ true
    → has_src m e ≡ false
    → suc (unmapped m' edges) ≡ unmapped m edges
unmapped-insert m m' e [] h o k fresh = cc
unmapped-insert m m' e ((j, a) ∷ edges) h o k fresh =
    let rest : (i : ℕ) → has_key i edges ≡ true → has_src m' i ≡ ((e == i) || has_src m i) =
      λ i c. h i (ground (arith, c)) in
    elim (Bool-cases (e == j)) [
      | inr other ↦ ground (
        arith,
        other,
        h j (ground arith),
        unmapped-insert m m' e edges rest o.1 (ground (arith, other, k)) fresh,
      )
      | inl same ↦
          let gone : has_key e edges ≡ false = ground (arith, same, lookup-before j edges o.0) in
          let kept : (i : ℕ) → has_key i edges ≡ true → has_src m' i ≡ has_src m i = λ i c.
            elim (Bool-cases (e == i)) [
              | inl here ↦ absurd (ground (arith, here, gone, c))
              | inr there ↦ ground (arith, rest i c, there)
            ] in
          ground (arith, same, fresh, h j (ground arith), unmapped-same m m' edges kept o.1)
    ]
