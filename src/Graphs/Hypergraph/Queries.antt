-- ===== src/Graphs/Hypergraph/Queries.antt =====
-- areParallelEdges, getConnEdgesCount and the lookups of edges.
use uncover.Base.{
  ap, ℕ, ◌≡◌, ◌↔◌, refl, List, [], ◌∷◌, Bool, true, false, not, ◌||◌, Option, none, some, arith,
  length, lookup, has_key, contains, insert_id, contains-insert_id, IsDistinct,
  insert_id-IsDistinct, ◌==◌, if◌then◌else◌, ltb,
}
use text.Mathlib.Text.{◌==◌ as str_eq}
use uncover.Graphs.Hypergraph.{
  Hypergraph, Edge, Result, ok, err, invalid_input, has_vertex, edges_at,
}
use uncover.Graphs.Hypergraph.Incidence.{IsWf, occurs, contains-count, count_pos}

-- getVerticesOfEdge; `none` is the null pointer.
abbrev pub vertices_of_edge : Hypergraph → ℕ → Option (List ℕ)
vertices_of_edge h e = elim (lookup e h.edges) [ none ↦ none | some ed ↦ some ed.vertices ]

-- getEdgeArity; `none` is the result -1.
abbrev pub edge_arity : Hypergraph → ℕ → Option ℕ
edge_arity h e = elim (lookup e h.edges) [ none ↦ none | some ed ↦ some (length ed.vertices) ]

-- The loop of areParallelEdges over two sequences of the same length.
abbrev pub same_nodes : List ℕ → List ℕ → Bool
same_nodes [] ws = true
same_nodes (v ∷ vs) [] = true
same_nodes (v ∷ vs) (w ∷ ws) = if v == w then same_nodes vs ws else false

abbrev pub parallel : Edge → Edge → Bool
parallel a b =
    if not (str_eq a.label b.label)
    then false
    else if not (length a.vertices == length b.vertices)
    then false
    else same_nodes a.vertices b.vertices

pub are_parallel_edges : Hypergraph → ℕ → ℕ → Result Bool
are_parallel_edges h i j = elim (lookup i h.edges) [
  | none ↦ err invalid_input
  | some a ↦ elim (lookup j h.edges) [ none ↦ err invalid_input | some b ↦ ok (parallel a b) ]
]

-- The loop of getConnEdgesCount that fills `uniqueIDs`.
pub unique_ids : List ℕ → List ℕ → List ℕ
unique_ids [] ids = ids
unique_ids (e ∷ es) ids = unique_ids es (insert_id e ids)

-- getConnEdgesCount; `none` is the result -1.
pub conn_edges_count : Hypergraph → ℕ → Option ℕ
unfolding unique_ids
conn_edges_count h v =
    if has_key v h.connected then some (length (unique_ids (edges_at h.connected v) [])) else none

same_nodes_iff : (vs ws : List ℕ) → length vs ≡ length ws → (same_nodes vs ws ≡ true) ↔ (vs ≡ ws)
same_nodes_iff [] [] l = (λ h. refl, λ e. refl)
same_nodes_iff [] (w ∷ ws) l = absurd (omega arith)
same_nodes_iff (v ∷ vs) [] l = absurd (omega arith)
same_nodes_iff (v ∷ vs) (w ∷ ws) l = ground (arith, same_nodes_iff vs ws)

-- areParallelEdges of two edges of the graph returns, and answers true if and only if they have
-- the same label and the same sequence of vertices.
pub are_parallel_edges_lem :
    (h : Hypergraph) (i j : ℕ) (a b : Edge)
    → lookup i h.edges ≡ some a
    → lookup j h.edges ≡ some b
    → (answer : Bool) × (are_parallel_edges h i j ≡ ok answer)
      × ((answer ≡ true) ↔ ((str_eq a.label b.label ≡ true) × (a.vertices ≡ b.vertices)))
unfolding are_parallel_edges
are_parallel_edges_lem h i j a b p q = (
  parallel a b,
  rw (p, q, are_parallel_edges),
  (
    λ k. ground (arith, same_nodes_iff a.vertices b.vertices),
    λ (l, e). ground (arith, same_nodes_iff a.vertices b.vertices, ap length e),
  ),
)

contains-unique_ids :
    (es ids : List ℕ) (i : ℕ) → contains i (unique_ids es ids) ≡ (contains i ids || contains i es)
unfolding unique_ids
contains-unique_ids [] ids i = ground arith
contains-unique_ids (e ∷ es) ids i =
    ground (arith, contains-unique_ids es (insert_id e ids) i, contains-insert_id e i ids)

unique_ids-IsDistinct : (es ids : List ℕ) → IsDistinct ids → IsDistinct (unique_ids es ids)
unfolding unique_ids
unique_ids-IsDistinct [] ids d = d
unique_ids-IsDistinct (e ∷ es) ids d =
    unique_ids-IsDistinct es (insert_id e ids) (insert_id-IsDistinct e ids d)

-- On a well-formed graph, getConnEdgesCount of a vertex returns the number of the edges that are
-- attached to it, each counted once however often it is attached.
pub conn_edges_count_lem :
    (h : Hypergraph) (v : ℕ)
    → IsWf h
    → has_vertex h v ≡ true
    → (es : List ℕ) × (conn_edges_count h v ≡ some (length es))
      × IsDistinct es
      × ((e : ℕ) → contains e es ≡ ltb 0 (occurs h.edges v e))
unfolding conn_edges_count
conn_edges_count_lem h v w k =
    let es = edges_at h.connected v in
    let keyed : has_key v h.connected ≡ true = ground (arith, w.keyed v) in
    (
      unique_ids es [],
      rw (keyed, conn_edges_count),
      unique_ids-IsDistinct es [] tt,
      λ e.
          ground (
            arith,
            contains-unique_ids es [] e,
            w.incident v e,
            contains-count e es,
            count_pos e es,
          ),
    )
