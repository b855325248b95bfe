-- ===== src/Graphs/UqRule/Growth.antt =====
-- Graphs that have grown by vertices and edges.
use Prim.Native.String.{String}
use uncover.Base.{
  List, [], ◌∷◌, Bool-cases, all_of-intro, ℕ, ◌+◌, ◌≤◌, ◌<◌, ◌^◌, ◌≡◌, ◌⊎◌, inl, inr, List, true,
  false, some, arith, lookup, all_of, ◌==◌, Option-cases, lookup-insert, suc,
}
use uncover.Graphs.Hypergraph.{Hypergraph, Edge, ok, has_vertex, has_edge, add_vertex, add_edge}
use uncover.Graphs.Hypergraph.Incidence.{IsWf, contains-count}
use uncover.Graphs.Hypergraph.Grow.{
  add_vertex-has, add_vertex-IsWf, add_edge-eq, with_edge, with_edge-IsWf, new_id, no_vertex,
  no_edge,
}
use uncover.Graphs.UqRule.{mapped_vertices}
use uncover.Graphs.Mapping.{Mapping, get_tar, set_tar}

-- The second graph has the vertices and edges of the first, unchanged.
pub record Grown (h g : Hypergraph) : Type 0 where
  pub well_formed : IsWf g
  pub counts_up : h.last_used_id ≤ g.last_used_id
  pub vertices : (i : ℕ) → has_vertex h i ≡ true → has_vertex g i ≡ true
  pub edges : (e : ℕ) (ed : Edge) → lookup e h.edges ≡ some ed → lookup e g.edges ≡ some ed

pub Grown-refl : (h : Hypergraph) → IsWf h → Grown h h
Grown-refl h w = record {
  well_formed = w;
  counts_up = omega arith;
  vertices = λ i k. k;
  edges = λ e ed k. k;
}

pub Grown-trans : {h g f : Hypergraph} → Grown h g → Grown g f → Grown h f
Grown-trans a b = record {
  well_formed = b.well_formed;
  counts_up = omega (arith, a.counts_up, b.counts_up);
  vertices = λ i k. b.vertices i (a.vertices i k);
  edges = λ e ed k. b.edges e ed (a.edges e ed k);
}

-- A map sends vertices to vertices and edges to edges.
abbrev pub IsTyped : Mapping → Hypergraph → Hypergraph → Type 0
IsTyped m h g =
    (s t : ℕ)
    → get_tar m s ≡ some t
    → ((has_vertex h s ≡ true) × (has_vertex g t ≡ true))
      ⊎ ((has_edge h s ≡ true) × (has_edge g t ≡ true))

pub Grown-has_edge :
    {h g : Hypergraph} (e : ℕ) → Grown h g → has_edge h e ≡ true → has_edge g e ≡ true
Grown-has_edge {h = h} e a k = elim (Option-cases (lookup e h.edges)) [
  | inl q ↦ ground arith
  | inr (ed, q) ↦ ground (arith, a.edges e ed q)
]

module _ (h : Hypergraph) (w : IsWf h) (room : h.last_used_id + 1 < 2 ^ 32) where
  -- What an operation gives that adds an element under the ID `i`.
  abbrev pub Adds : Hypergraph → ℕ → Type 0
  Adds g i =
      Grown h g
      × (g.last_used_id ≡ suc h.last_used_id)
      × (has_vertex h i ≡ false)
      × (has_edge h i ≡ false)
      × (h.last_used_id < i)

  pub add_vertex-Adds : let (g, i) = add_vertex h in (has_vertex g i ≡ true) × Adds g i
  unfolding add_vertex
  add_vertex-Adds =
      let (g, i) = add_vertex h in
      let (p, q, r, same, _) = add_vertex-has h w room i in
      let number : i ≡ h.last_used_id + 1 = omega arith in
      let kept : (j : ℕ) → has_vertex h j ≡ true → has_vertex g j ≡ true =
        λ j k. let (_, _, r', _, _) = add_vertex-has h w room j in ground arith in
      (
        ground arith,
        (
          record {
            well_formed = add_vertex-IsWf h w room;
            counts_up = omega arith;
            vertices = kept;
            edges = λ e ed k. rw same k;
          },
          omega arith,
          p,
          q,
          omega arith,
        ),
      )

  pub add_edge-Adds :
      (label : String) (vs : List ℕ)
      → all_of (has_vertex h) vs ≡ true
      → (g : Hypergraph) × (i : ℕ) × (add_edge h label vs ≡ ok (g, i))
        × (lookup i g.edges ≡ some (record { id = i; label = label; vertices = vs }))
        × Adds g i
  add_edge-Adds label vs there =
      let i = new_id h w room in
      let ed : Edge = record { id = i; label = label; vertices = vs } in
      let absent = no_edge h w room in
      (
        with_edge h w room label vs there,
        i,
        add_edge-eq h w room label vs there,
        ground (arith, lookup-insert i i ed h.edges),
        (
          record {
            well_formed = with_edge-IsWf h w room label vs there;
            counts_up = omega arith;
            vertices = λ j k. k;
            edges = λ e ed' k. ground (arith, lookup-insert i e ed h.edges);
          },
          omega arith,
          no_vertex h w room,
          absent,
          omega arith,
        ),
      )

pub IsTyped-vertex :
    (m : Mapping) (h g : Hypergraph) (s t : ℕ)
    → IsTyped m h g
    → IsWf h
    → has_vertex h s ≡ true
    → get_tar m s ≡ some t
    → has_vertex g t ≡ true
IsTyped-vertex m h g s t y w k e = ground (arith, y s t e, w.separate s)

pub IsTyped-edge :
    (m : Mapping) (h g : Hypergraph) (s t : ℕ)
    → IsTyped m h g
    → IsWf h
    → has_edge h s ≡ true
    → get_tar m s ≡ some t
    → has_edge g t ≡ true
IsTyped-edge m h g s t y w k e = ground (arith, y s t e, w.separate s)

pub IsTyped-set_tar :
    (m : Mapping) (h g : Hypergraph) (s t : ℕ)
    → IsTyped m h g
    → ((has_vertex h s ≡ true) × (has_vertex g t ≡ true))
      ⊎ ((has_edge h s ≡ true) × (has_edge g t ≡ true))
    → IsTyped (set_tar m s t) h g
IsTyped-set_tar m h g s t y k = λ s' t' e. elim (Bool-cases (s == s')) [
  | inl same ↦ ground (arith, lookup-insert s s' t m)
  | inr other ↦ y s' t' (ground (arith, lookup-insert s s' t m))
]

pub IsTyped-Grown : (m : Mapping) (h g f : Hypergraph) → IsTyped m h g → Grown g f → IsTyped m h f
IsTyped-Grown m h g f y a = λ s t e. elim (y s t e) [
  | inl (p, q) ↦ inl (p, a.vertices t q)
  | inr (p, q) ↦ inr (p, Grown-has_edge t a q)
]

pub Grown-IsTyped : (m : Mapping) (h g f : Hypergraph) → Grown h f → IsTyped m h g → IsTyped m f g
Grown-IsTyped m h g f a y = λ s t e. elim (y s t e) [
  | inl (p, q) ↦ inl (a.vertices s p, q)
  | inr (p, q) ↦ inr (Grown-has_edge s a p, q)
]

pub IsWf-attached :
    (h : Hypergraph) (e : ℕ) (ed : Edge)
    → IsWf h
    → lookup e h.edges ≡ some ed
    → all_of (has_vertex h) ed.vertices ≡ true
IsWf-attached h e ed w k =
    all_of-intro (has_vertex h) ed.vertices
      (λ v c. ground (arith, w.attached v e, k, contains-count v ed.vertices))

pub mapped_vertices-all :
    (m : Mapping) (h g : Hypergraph) (vs ts : List ℕ)
    → IsTyped m h g
    → IsWf h
    → all_of (has_vertex h) vs ≡ true
    → mapped_vertices m vs ≡ some ts
    → all_of (has_vertex g) ts ≡ true
unfolding mapped_vertices
mapped_vertices-all m h g [] ts y w a e = ground arith
mapped_vertices-all m h g (v ∷ vs) ts y w a e = elim (Option-cases (get_tar m v)) [
  | inl k ↦ absurd (ground (arith, k))
  | inr (t, k) ↦ elim (Option-cases (mapped_vertices m vs)) [
    | inl k' ↦ absurd (ground (arith, k, k'))
    | inr (us, k') ↦
        let first = IsTyped-vertex m h g v t y w (ground arith) k in
        let rest = mapped_vertices-all m h g vs us y w (ground arith) k' in
        ground (arith, k, k', first, rest)
  ]
]
