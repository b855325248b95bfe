-- ===== src/Graphs/Hypergraph/Delete.antt =====
-- deleteEdge and deleteVertex.
use uncover.Base.{
  ℕ, ◌≡◌, refl, List, [], ◌∷◌, ◌||◌, none, arith, Option-cases, inl, inr, lookup, erase,
  lookup-erase, contains, count, contains-insert_id, insert_id, ◌==◌, if◌then◌else◌, ltb, false,
  some, true, Bool-cases, ◌&&◌, not,
}
use uncover.Graphs.Hypergraph.{
  Hypergraph, Edge, has_edge, edges_at, detach, delete_edge, delete_edges, insert_all,
  delete_vertex, has_vertex,
}
use uncover.Graphs.Hypergraph.Incidence.{
  IsWf, occurs, has_key-erase, count-detach, has_key-detach, count_pos, contains-count,
  count-contains, edges_at-erase,
}

occurs-erase :
    (i : ℕ) (edges : List (ℕ × Edge)) (v e : ℕ)
    → occurs (erase i edges) v e ≡ (if i == e then 0 else occurs edges v e)
occurs-erase i edges v e = ground (arith, lookup-erase i e edges)

abbrev without_edge : Hypergraph → ℕ → Edge → Hypergraph
without_edge h i ed = record h {
  edges = erase i h.edges;
  connected = detach i ed.vertices h.connected;
}

delete_edge-none : (h : Hypergraph) (i : ℕ) → lookup i h.edges ≡ none → delete_edge h i ≡ (h, false)
unfolding delete_edge
delete_edge-none h i e = rw (e, delete_edge)

delete_edge-some :
    (h : Hypergraph) (i : ℕ) (ed : Edge)
    → lookup i h.edges ≡ some ed
    → delete_edge h i ≡ (without_edge h i ed, true)
unfolding delete_edge
delete_edge-some h i ed e = rw (e, delete_edge)

-- deleteEdge keeps the store well-formed, whether it finds the edge or not.
pub delete_edge-IsWf : (h : Hypergraph) (i : ℕ) → IsWf h → IsWf (delete_edge h i).0
delete_edge-IsWf h i w = elim (Option-cases (lookup i h.edges)) [
  | inl e ↦ rw (delete_edge-none h i e) w
  | inr (ed, this) ↦
      let at_edge : (v : ℕ) → occurs h.edges v i ≡ count v ed.vertices =
        λ v. ground (arith, this) in
      let closed : IsWf (without_edge h i ed) = record {
        vertex_old = w.vertex_old;
        edge_old = λ j k. ground (arith, has_key-erase i j h.edges, w.edge_old j);
        separate = λ j. ground (arith, has_key-erase i j h.edges, w.separate j);
        keyed = λ v. ground (
          arith,
          has_key-detach i ed.vertices h.connected v,
          w.keyed v,
          w.attached v i,
          at_edge v,
          contains-count v ed.vertices,
        );
        attached = λ v e k. ground (arith, occurs-erase i h.edges v e, w.attached v e);
        incident = λ v e. ground (
          arith,
          count-detach i ed.vertices h.connected v e,
          occurs-erase i h.edges v e,
          w.incident v e,
          at_edge v,
          count-contains v ed.vertices,
        );
      } in
      rw (delete_edge-some h i ed this) closed
]

-- deleteEdge removes the edge with the given ID, says whether there was one, and leaves the other
-- edges and every vertex.
pub delete_edge_lem :
    (h : Hypergraph) (i j : ℕ)
    → let (g, found) = delete_edge h i in
      (found ≡ has_edge h i)
      × (lookup j g.edges ≡ (if i == j then none else lookup j h.edges))
      × (g.vertices ≡ h.vertices)
      × (g.last_used_id ≡ h.last_used_id)
unfolding delete_edge
delete_edge_lem h i j = ground (arith, lookup-erase i j h.edges)

pub delete_edges-IsWf : (h : Hypergraph) (es : List ℕ) → IsWf h → IsWf (delete_edges h es)
unfolding delete_edges
delete_edges-IsWf h [] w = w
delete_edges-IsWf h (e ∷ es) w = delete_edges-IsWf (delete_edge h e).0 es (delete_edge-IsWf h e w)

pub delete_edges_lem :
    (h : Hypergraph) (es : List ℕ) (j : ℕ)
    → let g = delete_edges h es in
      (lookup j g.edges ≡ (if contains j es then none else lookup j h.edges))
      × (g.vertices ≡ h.vertices)
      × (g.last_used_id ≡ h.last_used_id)
unfolding delete_edges
delete_edges_lem h [] j = (refl, refl, refl)
delete_edges_lem h (e ∷ es) j =
    ground (arith, delete_edges_lem (delete_edge h e).0 es j, delete_edge_lem h e j)

insert_all-contains :
    (es s : List ℕ) (j : ℕ) → contains j (insert_all es s) ≡ (contains j es || contains j s)
unfolding insert_all
insert_all-contains [] s j = refl
insert_all-contains (e ∷ es) s j =
    ground (arith, insert_all-contains es (insert_id e s) j, contains-insert_id e j s)

module _ (h : Hypergraph) (v : ℕ) (w : IsWf h) where
  -- The multiset of a vertex holds the edges attached to it.
  incident_edges : (e : ℕ) → contains e (edges_at h.connected v) ≡ ltb 0 (occurs h.edges v e)
  incident_edges e = ground (
    arith,
    w.incident v e,
    count_pos e (edges_at h.connected v),
    contains-count e (edges_at h.connected v),
  )

  -- Once these are deleted, nothing is attached to the vertex.
  cut : Hypergraph
  cut = delete_edges h (edges_at h.connected v)

  occurs-cut :
      (u e : ℕ)
      → occurs cut.edges u e ≡ (if ltb 0 (occurs h.edges v e) then 0 else occurs h.edges u e)
  unfolding cut
  occurs-cut u e = ground (arith, delete_edges_lem h (edges_at h.connected v) e, incident_edges e)

  cut-IsWf : IsWf cut
  unfolding cut
  cut-IsWf = delete_edges-IsWf h (edges_at h.connected v) w

  abbrev cut_off : Hypergraph
  cut_off = record cut { vertices = erase v cut.vertices; connected = erase v cut.connected }

  cut_off-IsWf : IsWf cut_off
  cut_off-IsWf = record {
    vertex_old = λ i k. ground (arith, has_key-erase v i cut.vertices, cut-IsWf.vertex_old i);
    edge_old = cut-IsWf.edge_old;
    separate = λ i. ground (arith, has_key-erase v i cut.vertices, cut-IsWf.separate i);
    keyed = λ u.
        ground (
          arith,
          has_key-erase v u cut.vertices,
          has_key-erase v u cut.connected,
          cut-IsWf.keyed u,
        );
    attached = λ u e k.
        ground (arith, has_key-erase v u cut.vertices, occurs-cut u e, cut-IsWf.attached u e);
    incident = λ u e.
        ground (arith, edges_at-erase v u cut.connected, occurs-cut u e, cut-IsWf.incident u e);
  }

  -- deleteVertex keeps the store well-formed, whether it finds the vertex or not.
  pub delete_vertex-IsWf : (deleted : List ℕ) → IsWf (delete_vertex h v deleted).0
  unfolding delete_vertex cut
  delete_vertex-IsWf deleted = elim (Bool-cases (has_vertex h v)) [
    | inl e ↦ rw (e, delete_vertex) cut_off-IsWf
    | inr e ↦ rw (e, delete_vertex) w
  ]

  -- On a well-formed graph, deleteVertex says whether the vertex was there, removes it and exactly
  -- the edges that were attached to it, and adds exactly those edges to the set of deleted IDs.
  pub delete_vertex_lem :
      (deleted : List ℕ) (i : ℕ)
      → let (g, found, ids) = delete_vertex h v deleted in
        (found ≡ has_vertex h v)
        × (has_vertex g i ≡ (has_vertex h i && not (v == i)))
        × (lookup i g.edges ≡ (if ltb 0 (occurs h.edges v i) then none else lookup i h.edges))
        × (contains i ids ≡ (ltb 0 (occurs h.edges v i) || contains i deleted))
  unfolding delete_vertex
  delete_vertex_lem deleted i = ground (
    arith,
    delete_edges_lem h (edges_at h.connected v) i,
    has_key-erase v i (delete_edges h (edges_at h.connected v)).vertices,
    insert_all-contains (edges_at h.connected v) deleted i,
    incident_edges i,
    w.attached v i,
  )
