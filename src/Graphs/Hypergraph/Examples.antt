-- ===== src/Graphs/Hypergraph/Examples.antt =====
-- Two graphs with three vertices and two edges, built by the operations: in `fork` both edges leave
-- the vertex 1, in `chain` the second begins where the first ends.
use uncover.Graphs.Hypergraph.Pairs.{moved_all}
use uncover.Graphs.Hypergraph.Sets.{merge_vertex_set, Gathered, merge_vertex_set_lem}
use uncover.Graphs.Hypergraph.MergeEdges.{merge_edges-overlap, merge_edges_lem}
use uncover.Graphs.Hypergraph.Merge.{Merged, merge_vertices_lem}
use uncover.Graphs.Hypergraph.Delete.{delete_vertex_lem}
use uncover.Base.{
  insert, ℕ, ◌≡◌, refl, List, [], ◌∷◌, true, none, arith, lookup, contains, not, ◌&&◌, ◌||◌, ltb,
  ◌==◌, if◌then◌else◌, ◌+◌, all_of, ◌<◌, ◌^◌,
}
use uncover.Graphs.Hypergraph.{
  Hypergraph, empty_graph, add_vertex, delete_vertex, merge_edges, merge_vertices, ok, Edge, attach,
  err, has_vertex, invalid_input,
}
use uncover.Graphs.Hypergraph.Incidence.{IsWf, empty_graph-IsWf, occurs}
use uncover.Graphs.Hypergraph.Grow.{add_vertex-IsWf, with_edge-IsWf}

abbrev one_vertex : Hypergraph
one_vertex = (add_vertex empty_graph).0

abbrev points : Hypergraph
points = (add_vertex (add_vertex one_vertex).0).0

one_vertex-IsWf : IsWf one_vertex
unfolding empty_graph
one_vertex-IsWf = add_vertex-IsWf empty_graph empty_graph-IsWf (ground arith)

points-IsWf : IsWf points
unfolding empty_graph add_vertex insert
points-IsWf =
    add_vertex-IsWf (add_vertex one_vertex).0
      (add_vertex-IsWf one_vertex one_vertex-IsWf (ground arith)) (ground arith)

-- These are the vertices 1, 2 and 3, the edge 4 and the edge 5.
abbrev with_edges : List ℕ → List ℕ → Hypergraph
with_edges vs ws = record points {
  last_used_id = 5;
  edges =
      (4, record { id = 4; label = "A"; vertices = vs })
      ∷ (5, record { id = 5; label = "A"; vertices = ws })
      ∷ [];
  connected = attach 5 ws (attach 4 vs points.connected);
}

abbrev pub fork : Hypergraph
fork = with_edges (1 ∷ 2 ∷ []) (1 ∷ 3 ∷ [])

abbrev pub chain : Hypergraph
chain = with_edges (1 ∷ 2 ∷ []) (2 ∷ 3 ∷ [])

abbrev with_edge_4 : Hypergraph
with_edge_4 = record points {
  last_used_id = 4;
  edges = (4, record { id = 4; label = "A"; vertices = 1 ∷ 2 ∷ [] }) ∷ [];
  connected = attach 4 (1 ∷ 2 ∷ []) points.connected;
}

room_4 : points.last_used_id + 1 < 2 ^ 32
unfolding empty_graph add_vertex insert
room_4 = ground arith

room_5 : with_edge_4.last_used_id + 1 < 2 ^ 32
room_5 = ground arith

pub fork-IsWf : IsWf fork
unfolding empty_graph add_vertex insert
fork-IsWf =
    let there : all_of (has_vertex points) (1 ∷ 2 ∷ []) ≡ true = refl in
    let still : all_of (has_vertex with_edge_4) (1 ∷ 3 ∷ []) ≡ true = refl in
    with_edge-IsWf with_edge_4 (with_edge-IsWf points points-IsWf room_4 "A" (1 ∷ 2 ∷ []) there)
      room_5 "A" (1 ∷ 3 ∷ []) still

pub chain-IsWf : IsWf chain
unfolding empty_graph add_vertex insert
chain-IsWf =
    let there : all_of (has_vertex points) (1 ∷ 2 ∷ []) ≡ true = refl in
    let still : all_of (has_vertex with_edge_4) (2 ∷ 3 ∷ []) ≡ true = refl in
    with_edge-IsWf with_edge_4 (with_edge-IsWf points points-IsWf room_4 "A" (1 ∷ 2 ∷ []) there)
      room_5 "A" (2 ∷ 3 ∷ []) still

delete_vertex_lem_example :
    let (g, found, ids) = delete_vertex fork 3 [] in
    (found ≡ has_vertex fork 3)
    × (has_vertex g 5 ≡ (has_vertex fork 5 && not (3 == 5)))
    × (lookup 5 g.edges ≡ (if ltb 0 (occurs fork.edges 3 5) then none else lookup 5 fork.edges))
    × (contains 5 ids ≡ (ltb 0 (occurs fork.edges 3 5) || contains 5 []))
delete_vertex_lem_example = delete_vertex_lem fork 3 fork-IsWf [] 5

merge_vertices_lem_example :
    (g : Hypergraph) × (merge_vertices chain 1 3 ≡ ok (g, 1)) × Merged chain 1 3 g
unfolding empty_graph add_vertex insert
merge_vertices_lem_example = merge_vertices_lem chain 1 3 chain-IsWf refl refl

abbrev edge_of : ℕ → List ℕ → Edge
edge_of i vs = record { id = i; label = "A"; vertices = vs }

merge_edges_lem_example :
    (g : Hypergraph) × (merge_edges fork 4 5 ≡ ok (g, 4))
    × IsWf g
    × (lookup 4 g.edges
        ≡ (if 5 == 4 then none else moved_all (1 ∷ 2 ∷ []) (1 ∷ 3 ∷ []) (lookup 4 fork.edges)))
merge_edges_lem_example =
    merge_edges_lem fork 4 5 (edge_of 4 (1 ∷ 2 ∷ [])) (edge_of 5 (1 ∷ 3 ∷ [])) fork-IsWf refl refl
      refl refl refl 4 refl

merge_edges-overlap_example : merge_edges chain 4 5 ≡ err invalid_input
merge_edges-overlap_example =
    merge_edges-overlap chain 4 5 (edge_of 4 (1 ∷ 2 ∷ [])) (edge_of 5 (2 ∷ 3 ∷ [])) chain-IsWf refl
      refl refl refl refl refl

merge_vertex_set_lem_example :
    (g : Hypergraph) × (x : ℕ) × (ys : List ℕ) × (merge_vertex_set chain (1 ∷ 9 ∷ 3 ∷ [])
      ≡ ok (g, x))
    × ((i : ℕ) → contains i (x ∷ ys) ≡ (contains i (1 ∷ 9 ∷ 3 ∷ []) && has_vertex chain i))
    × Gathered chain x ys g
unfolding empty_graph add_vertex insert
merge_vertex_set_lem_example =
    merge_vertex_set_lem chain (1 ∷ 9 ∷ 3 ∷ []) chain-IsWf (refl, (refl, (refl, tt))) refl
