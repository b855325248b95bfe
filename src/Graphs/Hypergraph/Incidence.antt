-- ===== src/Graphs/Hypergraph/Incidence.antt =====
-- The invariant of a hypergraph: `connectedEdges` and the attached vertices of the edges say the
-- same, with multiplicity.
use uncover.Base.{
  ℕ, ◌+◌, ◌≤◌, ◌<◌, ◌≡◌, refl, List, [], ◌∷◌, true, false, ◌&&◌, none, some, arith, lookup, has_key,
  insert, erase, lookup-insert, lookup-erase, contains, count, erase_id, count-erase_id, ◌==◌,
  if◌then◌else◌,
}
use uncover.Graphs.Hypergraph.{
  Hypergraph, Edge, has_vertex, has_edge, edges_at, attach, detach, empty_graph,
}

-- How often the edge with the ID `e` is attached to the vertex `v`; 0 if there is no such edge.
abbrev pub occurs : List (ℕ × Edge) → ℕ → ℕ → ℕ
occurs edges v e = elim (lookup e edges) [ none ↦ 0 | some ed ↦ count v ed.vertices ]

pub record IsWf (h : Hypergraph) : Type 0 where
  -- no ID is above the counter, and none is a vertex and an edge
  pub vertex_old : (i : ℕ) → has_vertex h i ≡ true → i ≤ h.last_used_id
  pub edge_old : (i : ℕ) → has_edge h i ≡ true → i ≤ h.last_used_id
  pub separate : (i : ℕ) → (has_vertex h i && has_edge h i) ≡ false
  -- the multisets are those of the vertices
  pub keyed : (v : ℕ) → has_key v h.connected ≡ has_vertex h v
  pub attached : (v e : ℕ) → 0 < occurs h.edges v e → has_vertex h v ≡ true
  pub incident : (v e : ℕ) → count e (edges_at h.connected v) ≡ occurs h.edges v e

pub has_key-insert :
    {V : Type 0} (k i : ℕ) (v : V) (m : List (ℕ × V))
    → has_key i (insert k v m) ≡ (if k == i then true else has_key i m)
has_key-insert k i v m = ground (arith, lookup-insert k i v m)

pub has_key-erase :
    {V : Type 0} (k i : ℕ) (m : List (ℕ × V))
    → has_key i (erase k m) ≡ (if k == i then false else has_key i m)
has_key-erase k i m = ground (arith, lookup-erase k i m)

pub edges_at-insert :
    (k i : ℕ) (es : List ℕ) (m : List (ℕ × List ℕ))
    → edges_at (insert k es m) i ≡ (if k == i then es else edges_at m i)
edges_at-insert k i es m = ground (arith, lookup-insert k i es m)

pub edges_at-erase :
    (k i : ℕ) (m : List (ℕ × List ℕ))
    → edges_at (erase k m) i ≡ (if k == i then [] else edges_at m i)
edges_at-erase k i m = ground (arith, lookup-erase k i m)

pub count-attach :
    (i : ℕ) (vs : List ℕ) (m : List (ℕ × List ℕ)) (v e : ℕ)
    → count e (edges_at (attach i vs m) v)
      ≡ count e (edges_at m v) + (if i == e then count v vs else 0)
unfolding attach
count-attach i [] m v e = ground arith
count-attach i (w ∷ vs) m v e = ground (
  arith,
  count-attach i vs (insert w (i ∷ edges_at m w) m) v e,
  edges_at-insert w v (i ∷ edges_at m w) m,
)

pub has_key-attach :
    (i : ℕ) (vs : List ℕ) (m : List (ℕ × List ℕ)) (v : ℕ)
    → has_key v (attach i vs m) ≡ (if contains v vs then true else has_key v m)
unfolding attach
has_key-attach i [] m v = refl
has_key-attach i (w ∷ vs) m v = ground (
  arith,
  has_key-attach i vs (insert w (i ∷ edges_at m w) m) v,
  has_key-insert w v (i ∷ edges_at m w) m,
)

pub count-detach :
    (i : ℕ) (vs : List ℕ) (m : List (ℕ × List ℕ)) (v e : ℕ)
    → count e (edges_at (detach i vs m) v)
      ≡ (if contains v vs && i == e then 0 else count e (edges_at m v))
unfolding detach
count-detach i [] m v e = refl
count-detach i (w ∷ vs) m v e = ground (
  arith,
  count-detach i vs (insert w (erase_id i (edges_at m w)) m) v e,
  edges_at-insert w v (erase_id i (edges_at m w)) m,
  count-erase_id i e (edges_at m w),
)

pub has_key-detach :
    (i : ℕ) (vs : List ℕ) (m : List (ℕ × List ℕ)) (v : ℕ)
    → has_key v (detach i vs m) ≡ (if contains v vs then true else has_key v m)
unfolding detach
has_key-detach i [] m v = refl
has_key-detach i (w ∷ vs) m v = ground (
  arith,
  has_key-detach i vs (insert w (erase_id i (edges_at m w)) m) v,
  has_key-insert w v (erase_id i (edges_at m w)) m,
)

pub contains-count : (v : ℕ) (vs : List ℕ) → contains v vs ≡ true → 0 < count v vs
contains-count v [] h = cc
contains-count v (w ∷ vs) h = ground (arith, contains-count v vs)

pub count-contains : (v : ℕ) (vs : List ℕ) → contains v vs ≡ false → count v vs ≡ 0
count-contains v [] h = refl
count-contains v (w ∷ vs) h = ground (arith, count-contains v vs)

pub count_pos : (v : ℕ) (vs : List ℕ) → 0 < count v vs → contains v vs ≡ true
count_pos v [] h = absurd (omega arith)
count_pos v (w ∷ vs) h = ground (arith, count_pos v vs)

pub occurs_none :
    (edges : List (ℕ × Edge)) (v e : ℕ) → has_key e edges ≡ false → occurs edges v e ≡ 0
occurs_none edges v e h = ground arith

pub empty_graph-IsWf : IsWf empty_graph
unfolding empty_graph
empty_graph-IsWf = record {
  vertex_old = λ i k. cc;
  edge_old = λ i k. cc;
  separate = λ i. refl;
  keyed = λ v. refl;
  attached = λ v e k. absurd (omega arith);
  incident = λ v e. refl;
}
