-- ===== src/Graphs/UqRule/Copy.antt =====
-- The copy of an element of a quantification on the left side of a rule.
use uncover.Base.{
  ℕ, ◌≤◌, ◌<◌, ◌≡◌, ◌⊎◌, inl, inr, refl, List, [], ◌∷◌, true, false, Option, some, none, arith,
  lookup, Option-cases, Bool-cases, contains, ◌==◌, lookup-insert, all_of-contains, subst, ==_iff,
  ◌∙◌,
}
use uncover.Graphs.Hypergraph.{Hypergraph, Edge, has_vertex, has_edge}
use uncover.Graphs.Mapping.{Mapping, get_tar, has_src, set_tar}
use uncover.Graphs.AnonRule.{AnonRule}
use uncover.Graphs.UqRule.{Quantification, mapped_vertices, LeftSide, map_copy}
use uncover.Graphs.UqRule.Growth.{Grown, IsTyped, IsWf-attached}
use uncover.Graphs.UqRule.Right.{Fits}
use uncover.Graphs.UqRule.Left.{copied, map_copy-other}

pub mapped_vertices-set_tar :
    (m : Mapping) (x t : ℕ) (vs : List ℕ)
    → contains x vs ≡ false
    → mapped_vertices (set_tar m x t) vs ≡ mapped_vertices m vs
unfolding mapped_vertices
mapped_vertices-set_tar m x t [] c = refl
mapped_vertices-set_tar m x t (v ∷ vs) c =
    ground (arith, lookup-insert x v t m, mapped_vertices-set_tar m x t vs)

-- The element of the right side of the rule that the copy of `x` is mapped to, if there is one.
abbrev pub image : Quantification → Mapping → ℕ → Option ℕ
image q r2r x = elim (get_tar q.rule.interface x) [ none ↦ none | some y ↦ get_tar r2r y ]

-- The element has a copy: the map of the rule sends it to the image of the element, and an edge has
-- a copy with its label, at the images of its vertices.
pub record Copy (q : Quantification) (r2r : Mapping) (x : ℕ) (s : LeftSide) : Type 0 where
  pub id : ℕ
  pub mapped : get_tar s.map x ≡ some id
  pub old : id ≤ s.graph.last_used_id
  pub square : get_tar s.rule_map id ≡ image q r2r x
  pub edge :
      (ed : Edge)
      → lookup x q.rule.left.edges ≡ some ed
      → (ts : List ℕ) × (mapped_vertices s.map ed.vertices ≡ some ts)
        × (lookup id s.graph.edges ≡ some (record { id = id; label = ed.label; vertices = ts }))

map_copy-image :
    (q : Quantification) (r2r m : Mapping) (x i : ℕ)
    → get_tar m i ≡ none
    → get_tar (map_copy q r2r x i m) i ≡ image q r2r x
unfolding map_copy
map_copy-image q r2r m x i n = elim (Option-cases (get_tar q.rule.interface x)) [
  | inl k ↦ rw (map_copy, k) (ground (arith, k, n))
  | inr (y, k) ↦ elim (Option-cases (get_tar r2r y)) [
    | inl k' ↦ rw (map_copy, k, k') (ground (arith, k, k', n))
    | inr (u, k') ↦ rw (map_copy, k, k') (ground (arith, lookup-insert i i u m))
  ]
]

module _ (q : Quantification) (r : AnonRule) (f : Fits q r) (g : Hypergraph) (r2r : Mapping)
    (above : Grown r.right g) (images : IsTyped r2r q.rule.right g) where
  -- A copy stays when another element is added.
  pub Copy-kept :
      (x y i : ℕ) (h : Hypergraph) (s : LeftSide)
      → Grown s.graph h
      → s.graph.last_used_id < i
      → (x == y) ≡ false
      → ((ed : Edge) → lookup x q.rule.left.edges ≡ some ed → contains y ed.vertices ≡ false)
      → Copy q r2r x s
      → Copy q r2r x (copied q r f g r2r above images y h i s)
  Copy-kept x y i h s grown new other apart c = record {
    id = c.id;
    mapped = ground (arith, lookup-insert y x i s.map, c.mapped);
    old = omega (arith, c.old, grown.counts_up);
    square = map_copy-other q r2r s.rule_map y i c.id (ground (arith, c.old)) ∙ c.square;
    edge = λ ed k.
        let (ts, e, e') = c.edge ed k in
        (ts, mapped_vertices-set_tar s.map y i ed.vertices (apart ed k) ∙ e, grown.edges c.id _ e');
  }

  pub Copy-new :
      (x i : ℕ) (h : Hypergraph) (s : LeftSide)
      → IsTyped s.rule_map s.graph g
      → has_vertex s.graph i ≡ false
      → has_edge s.graph i ≡ false
      → i ≤ h.last_used_id
      → ((ed : Edge)
          → lookup x q.rule.left.edges ≡ some ed
          → (ts : List ℕ) × (mapped_vertices (set_tar s.map x i) ed.vertices ≡ some ts)
            × (lookup i h.edges ≡ some (record { id = i; label = ed.label; vertices = ts })))
      → Copy q r2r x (copied q r f g r2r above images x h i s)
  Copy-new x i h s y no_vertex no_edge old edge =
      let unmapped : get_tar s.rule_map i ≡ none = elim (Option-cases (get_tar s.rule_map i)) [
        | inl k ↦ k
        | inr (t, k) ↦ absurd (ground (arith, y i t k))
      ] in
      record {
        id = i;
        mapped = ground (arith, lookup-insert x x i s.map);
        old = old;
        square = map_copy-image q r2r s.rule_map x i unmapped;
        edge = edge;
      }

  -- The elements outside the main rule that a loop is yet to meet or that have a copy get one.
  abbrev pub CopiesAll : List ℕ → LeftSide → LeftSide → Type 0
  CopiesAll xs s s' =
      (x : ℕ)
      → has_src q.inter x ≡ false
      → (contains x xs ≡ true) ⊎ Copy q r2r x s
      → Copy q r2r x s'

  -- No edge has the ID of a vertex.
  pub edge_not_vertex :
      (v : ℕ) (ed : Edge)
      → has_vertex q.rule.left v ≡ true
      → lookup v q.rule.left.edges ≡ some ed
      → ⊥
  edge_not_vertex v ed k e = ground (arith, f.quant_left.separate v)

  -- An edge is attached to no edge.
  pub edge_apart :
      (e x : ℕ) (ed : Edge)
      → has_edge q.rule.left e ≡ true
      → lookup x q.rule.left.edges ≡ some ed
      → contains e ed.vertices ≡ false
  edge_apart e x ed k l = elim (Bool-cases (contains e ed.vertices)) [
    | inl c ↦
        let attached = IsWf-attached q.rule.left x ed f.quant_left l in
        let vertex = all_of-contains (has_vertex q.rule.left) ed.vertices e attached c in
        absurd (ground (arith, f.quant_left.separate e, vertex))
    | inr c ↦ c
  ]

  -- An element of the main rule is passed over.
  pub skipped :
      (e x : ℕ) (xs : List ℕ) (s : LeftSide)
      → has_src q.inter e ≡ true
      → has_src q.inter x ≡ false
      → (contains x (e ∷ xs) ≡ true) ⊎ Copy q r2r x s
      → (contains x xs ≡ true) ⊎ Copy q r2r x s
  skipped e x xs s p n (inr c) = inr c
  skipped e x xs s p n (inl c) = elim (Bool-cases (e == x)) [
    | inl t ↦ absurd (ground (arith, subst (λ z. has_src q.inter z ≡ true) ((==_iff e x).0 t) p))
    | inr t ↦ inl (ground (arith, t))
  ]
