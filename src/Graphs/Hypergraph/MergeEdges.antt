-- ===== src/Graphs/Hypergraph/MergeEdges.antt =====
-- mergeEdges.
use uncover.Graphs.Hypergraph.Delete.{delete_edge-IsWf, delete_edge_lem}
use uncover.Base.{
  all_of-intro, if◌then◌else◌, ==_iff, ◌∙◌, ℕ, ◌≡◌, true, false, arith, lookup, contains, length,
  all_of, ◌==◌, some, none,
}
use uncover.Graphs.Hypergraph.{
  Hypergraph, Edge, ok, err, invalid_input, has_vertex, merge_pairs, merge_edges, str_eq,
  merge_found, delete_edge, Error,
}
use uncover.Graphs.Hypergraph.Incidence.{IsWf, contains-count}
use uncover.Graphs.Hypergraph.Pairs.{mergeable, moved_all, merge_pairs_lem, merge_pairs-overlap}

module _ (h : Hypergraph) (i j : ℕ) (a b : Edge) (wf : IsWf h) (is_a : lookup i h.edges ≡ some a)
    (is_b : lookup j h.edges ≡ some b) where
  merge_edges-found : merge_edges h i j ≡ merge_found h i j a b
  unfolding merge_edges
  merge_edges-found = rw (is_a, is_b, merge_edges)

  attached_there :
      (e : ℕ) (ed : Edge) → lookup e h.edges ≡ some ed → all_of (has_vertex h) ed.vertices ≡ true
  attached_there e ed is =
      let there : (v : ℕ) → contains v ed.vertices ≡ true → has_vertex h v ≡ true =
        λ v c. ground (arith, wf.attached v e, contains-count v ed.vertices, is) in
      all_of-intro (has_vertex h) ed.vertices there

  module _ (differ : (i == j) ≡ false) (same_label : str_eq a.label b.label ≡ true)
      (same_length : (length a.vertices == length b.vertices) ≡ true) where
    merge_edges-returned :
        (g : Hypergraph)
        → merge_pairs h a.vertices b.vertices ≡ ok g
        → merge_edges h i j ≡ ok ((delete_edge g j).0, i)
    unfolding merge_found
    merge_edges-returned g e =
        merge_edges-found ∙ rw (differ, same_label, same_length, e, merge_found)

    merge_edges-thrown :
        (x : Error) → merge_pairs h a.vertices b.vertices ≡ err x → merge_edges h i j ≡ err x
    unfolding merge_found
    merge_edges-thrown x e =
        merge_edges-found ∙ rw (differ, same_label, same_length, e, merge_found)

    -- On a well-formed graph, mergeEdges of two of its edges with the same label and the same
    -- number of vertices returns if no vertex of the second edge is needed again behind the pair
    -- that merges it away: the graph is well-formed again, the second edge is gone, and every
    -- other edge has its vertices replaced pair by pair.
    pub merge_edges_lem :
        (k : ℕ)
        → mergeable a.vertices b.vertices ≡ true
        → (g : Hypergraph) × (merge_edges h i j ≡ ok (g, i))
          × IsWf g
          × (lookup k g.edges
              ≡ (if j == k then none else moved_all a.vertices b.vertices (lookup k h.edges)))
    merge_edges_lem k fits =
        let (g, returned, m) =
          merge_pairs_lem h a.vertices b.vertices wf
            ((==_iff (length a.vertices) (length b.vertices)).0 same_length)
            (attached_there i a is_a) (attached_there j b is_b) fits in
        (
          (delete_edge g j).0,
          merge_edges-returned g returned,
          delete_edge-IsWf g j m.well_formed,
          ground (arith, delete_edge_lem g j k, m.edges k),
        )

    -- Otherwise mergeEdges of these edges throws an InvalidInputException.
    pub merge_edges-overlap :
        mergeable a.vertices b.vertices ≡ false → merge_edges h i j ≡ err invalid_input
    merge_edges-overlap fits = merge_edges-thrown invalid_input (
        merge_pairs-overlap h a.vertices b.vertices wf
          ((==_iff (length a.vertices) (length b.vertices)).0 same_length) (attached_there i a is_a)
          (attached_there j b is_b) fits)
