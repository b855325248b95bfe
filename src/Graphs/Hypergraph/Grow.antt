-- ===== src/Graphs/Hypergraph/Grow.antt =====
-- addVertex and addEdge.
use Prim.Native.String.{String}
use uncover.Base.{
  all_of-contains, ◌||◌, ℕ, ◌+◌, ◌^◌, ◌<◌, ◌≡◌, refl, List, [], true, false, arith, Bool-cases, inl,
  inr, insert, lookup-insert, count, all_of, ◌==◌, if◌then◌else◌, lookup, some,
}
use uncover.Graphs.Hypergraph.{
  Hypergraph, Vertex, Edge, ok, has_vertex, has_edge, edges_at, attach, next_id, add_vertex,
  add_edge,
}
use uncover.Graphs.Hypergraph.Incidence.{
  IsWf, occurs, has_key-insert, edges_at-insert, count-attach, has_key-attach, count_pos,
  occurs_none,
}

module _ (h : Hypergraph) (w : IsWf h) (room : h.last_used_id + 1 < 2 ^ 32) where
  next_id-suc : next_id h ≡ h.last_used_id + 1
  next_id-suc = omega arith

  pub no_vertex : has_vertex h (h.last_used_id + 1) ≡ false
  no_vertex = elim (Bool-cases (has_vertex h (h.last_used_id + 1))) [
    | inl e ↦ absurd (omega (arith, w.vertex_old (h.last_used_id + 1) e))
    | inr e ↦ e
  ]

  pub no_edge : has_edge h (h.last_used_id + 1) ≡ false
  no_edge = elim (Bool-cases (has_edge h (h.last_used_id + 1))) [
    | inl e ↦ absurd (omega (arith, w.edge_old (h.last_used_id + 1) e))
    | inr e ↦ e
  ]

  abbrev pub new_id : ℕ
  new_id = h.last_used_id + 1

  abbrev pub with_vertex : Hypergraph
  with_vertex = record h {
    last_used_id = new_id;
    vertices = insert new_id (record { id = new_id }) h.vertices;
    connected = insert new_id [] h.connected;
  }

  pub add_vertex-eq : add_vertex h ≡ (with_vertex, new_id)
  unfolding add_vertex
  add_vertex-eq = rw (next_id-suc, no_vertex)

  with_vertex-IsWf : IsWf with_vertex
  with_vertex-IsWf =
      let v0 : Vertex = record { id = new_id } in
      record {
        vertex_old = λ i k. ground (arith, has_key-insert new_id i v0 h.vertices, w.vertex_old i);
        edge_old = λ i k. omega (arith, w.edge_old i k);
        separate =
            λ i. ground (arith, has_key-insert new_id i v0 h.vertices, w.separate i, no_edge);
        keyed = λ v. ground (
          arith,
          has_key-insert new_id v v0 h.vertices,
          has_key-insert new_id v [] h.connected,
          w.keyed v,
        );
        attached = λ v e k. ground (arith, has_key-insert new_id v v0 h.vertices, w.attached v e k);
        incident = λ v e. ground (
          arith,
          edges_at-insert new_id v [] h.connected,
          w.incident v e,
          w.attached v e,
          no_vertex,
        );
      }

  -- addVertex keeps the store well-formed, while the counter of IDs does not overflow.
  pub add_vertex-IsWf : IsWf (add_vertex h).0
  add_vertex-IsWf = rw add_vertex-eq with_vertex-IsWf

  -- addVertex returns an ID that was neither a vertex nor an edge, and the graph then has the
  -- vertices from before and this one, and the same edges; no edge is attached to it.
  pub add_vertex-has :
      (i : ℕ)
      → let (g, v) = add_vertex h in
        (has_vertex h v ≡ false)
        × (has_edge h v ≡ false)
        × (has_vertex g i ≡ (v == i || has_vertex h i))
        × (g.edges ≡ h.edges)
        × (edges_at g.connected v ≡ [])
  add_vertex-has i =
      let v0 : Vertex = record { id = new_id } in
      rw add_vertex-eq (
        no_vertex,
        no_edge,
        ground (arith, has_key-insert new_id i v0 h.vertices),
        refl,
        ground (arith, edges_at-insert new_id new_id [] h.connected),
      )

  module _ (label : String) (vs : List ℕ) (there : all_of (has_vertex h) vs ≡ true) where
    abbrev pub with_edge : Hypergraph
    with_edge = record h {
      last_used_id = new_id;
      edges = insert new_id (record { id = new_id; label = label; vertices = vs }) h.edges;
      connected = attach new_id vs h.connected;
    }

    pub add_edge-eq : add_edge h label vs ≡ ok (with_edge, new_id)
    unfolding add_edge
    add_edge-eq = rw (next_id-suc, no_edge, there)

    occurs-with_edge :
        (v e : ℕ)
        → occurs with_edge.edges v e ≡ (if new_id == e then count v vs else occurs h.edges v e)
    occurs-with_edge v e = ground (
      arith,
      lookup-insert new_id e (record { id = new_id; label = label; vertices = vs }) h.edges,
    )

    pub with_edge-IsWf : IsWf with_edge
    with_edge-IsWf =
        let e0 : Edge = record { id = new_id; label = label; vertices = vs } in
        record {
          vertex_old = λ i k. omega (arith, w.vertex_old i k);
          edge_old = λ i k. ground (arith, has_key-insert new_id i e0 h.edges, w.edge_old i);
          separate =
              λ i. ground (arith, has_key-insert new_id i e0 h.edges, w.separate i, no_vertex);
          keyed = λ v. ground (
            arith,
            has_key-attach new_id vs h.connected v,
            all_of-contains (has_vertex h) vs v there,
            w.keyed v,
          );
          attached = λ v e k. ground (
            arith,
            occurs-with_edge v e,
            count_pos v vs,
            all_of-contains (has_vertex h) vs v there,
            w.attached v e,
          );
          incident = λ v e. ground (
            arith,
            count-attach new_id vs h.connected v e,
            occurs-with_edge v e,
            w.incident v e,
            occurs_none h.edges v e,
            no_edge,
          );
        }

    -- addEdge with vertices of the graph, which may repeat, returns an ID that was not in use; the
    -- graph then has this edge with its label and its vertices in their order, the other edges and
    -- the vertices as before, and is well-formed again. While the counter does not overflow.
    pub add_edge_lem :
        (i : ℕ)
        → (g : Hypergraph) × (e : ℕ) × (add_edge h label vs ≡ ok (g, e))
          × IsWf g
          × (has_vertex h e ≡ false)
          × (has_edge h e ≡ false)
          × (g.vertices ≡ h.vertices)
          × (lookup i g.edges ≡ (
              if e == i
              then some (record { id = e; label = label; vertices = vs })
              else lookup i h.edges))
    add_edge_lem i = (
      with_edge,
      new_id,
      add_edge-eq,
      with_edge-IsWf,
      no_vertex,
      no_edge,
      refl,
      lookup-insert new_id i (record { id = new_id; label = label; vertices = vs }) h.edges,
    )
