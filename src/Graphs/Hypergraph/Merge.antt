-- ===== src/Graphs/Hypergraph/Merge.antt =====
-- mergeVertices.
use uncover.Base.{
  sym, subst, ==_iff, ℕ, ◌+◌, ◌≡◌, refl, true, false, ◌&&◌, arith, lookup, has_key, contains, ◌==◌,
  if◌then◌else◌, Option-cases, inl, inr, ltb, erase, ◌||◌, not, Bool-cases,
}
use uncover.Graphs.Hypergraph.{
  Hypergraph, edges_at, redirect, has_edge, ok, merge_vertices, has_vertex,
}
use uncover.Graphs.Hypergraph.Incidence.{
  occurs, contains-count, IsWf, count_pos, has_key-erase, edges_at-erase,
}
use uncover.Graphs.Hypergraph.Redirect.{
  moved, moved-same, moved-fresh, Redirected, redirect_lem, count-renamed,
}

-- What mergeVertices leaves when it merges `w` into `v`.
pub record Merged (h : Hypergraph) (v w : ℕ) (g : Hypergraph) : Type 0 where
  pub well_formed : IsWf g
  -- `w` is gone, unless it is `v`, and every other vertex is still there
  pub vertices : (i : ℕ) → has_vertex g i ≡ (has_vertex h i && (v == w || not (w == i)))
  -- every edge keeps its ID and its label, and has `v` at the places where it had `w`
  pub edges : (i : ℕ) → lookup i g.edges ≡ moved w v (lookup i h.edges)
  pub counter : g.last_used_id ≡ h.last_used_id

module _ (h : Hypergraph) (v w : ℕ) (wf : IsWf h) where
  incident_edge : (e : ℕ) → contains e (edges_at h.connected w) ≡ ltb 0 (occurs h.edges w e)
  incident_edge e = ground (
    arith,
    wf.incident w e,
    count_pos e (edges_at h.connected w),
    contains-count e (edges_at h.connected w),
  )

  abbrev closed : Hypergraph → Hypergraph
  closed g = record g { vertices = erase w g.vertices; connected = erase w g.connected }

  module _ (differ : (w == v) ≡ false) (g : Hypergraph)
      (r : Redirected v w differ (edges_at h.connected w) h g) where
    g-edges : (i : ℕ) → lookup i g.edges ≡ moved w v (lookup i h.edges)
    g-edges i = ground (arith, r.edges i, incident_edge i, moved-fresh w v i h.edges)

    g-occurs :
        (u i : ℕ)
        → occurs g.edges u i ≡ (
            if w == u
            then 0
            else if v == u
            then occurs h.edges u i + occurs h.edges w i
            else occurs h.edges u i)
    g-occurs u i = elim (Option-cases (lookup i h.edges)) [
      | inl e ↦ ground (arith, g-edges i, e)
      | inr (ed, e) ↦ ground (arith, g-edges i, e, count-renamed w v u ed.vertices)
    ]

    g-has_edge : (i : ℕ) → has_edge g i ≡ has_edge h i
    g-has_edge i = ground (arith, g-edges i)

    closed-Merged : has_vertex h v ≡ true → Merged h v w (closed g)
    closed-Merged there = record {
      well_formed = record {
        vertex_old = λ i k.
            ground (arith, has_key-erase w i g.vertices, r.vertices, r.counter, wf.vertex_old i);
        edge_old = λ i k. ground (arith, g-has_edge i, r.counter, wf.edge_old i);
        separate = λ i.
            ground (arith, has_key-erase w i g.vertices, r.vertices, g-has_edge i, wf.separate i);
        keyed = λ u. ground (
          arith,
          has_key-erase w u g.vertices,
          has_key-erase w u g.connected,
          r.vertices,
          r.keyed u,
          wf.keyed u,
        );
        attached = λ u e k.
            ground (
              arith,
              has_key-erase w u g.vertices,
              r.vertices,
              g-occurs u e,
              wf.attached u e,
              there,
            );
        incident = λ u e. ground (
          arith,
          edges_at-erase w u g.connected,
          r.counts u e,
          g-occurs u e,
          incident_edge e,
          wf.incident u e,
        );
      };
      vertices = λ i. ground (arith, has_key-erase w i g.vertices, r.vertices);
      edges = g-edges;
      counter = r.counter;
    }

  same-Merged : (v == w) ≡ true → Merged h v w h
  same-Merged e = record {
    well_formed = wf;
    vertices = λ i. ground arith;
    edges = λ i. sym (
        subst (λ x. moved x v (lookup i h.edges) ≡ lookup i h.edges) ((==_iff v w).0 e)
          (moved-same v (lookup i h.edges)));
    counter = refl;
  }

  merge_vertices-same :
      has_vertex h v ≡ true
      → has_vertex h w ≡ true
      → (v == w) ≡ true
      → merge_vertices h v w ≡ ok (h, v)
  unfolding merge_vertices
  merge_vertices-same hv hw e = rw (hv, hw, e)

  merge_vertices-differ :
      (g : Hypergraph)
      → has_vertex h v ≡ true
      → has_vertex h w ≡ true
      → (v == w) ≡ false
      → redirect v w (edges_at h.connected w) h ≡ ok g
      → merge_vertices h v w ≡ ok (closed g, v)
  unfolding merge_vertices
  merge_vertices-differ g hv hw ne e = rw (hv, hw, ne, e)

  -- On a well-formed graph, mergeVertices of two of its vertices returns, with the first of them:
  -- the graph is well-formed again, the second vertex is gone, and exactly its occurrences in the
  -- edges are replaced by the first.
  pub merge_vertices_lem :
      has_vertex h v ≡ true
      → has_vertex h w ≡ true
      → (g : Hypergraph) × (merge_vertices h v w ≡ ok (g, v)) × Merged h v w g
  merge_vertices_lem hv hw = elim (Bool-cases (v == w)) [
    | inl same ↦ (h, merge_vertices-same hv hw same, same-Merged same)
    | inr other ↦
        let differ : (w == v) ≡ false = ground arith in
        let found : (i : ℕ) → contains i (edges_at h.connected w) ≡ true → has_edge h i ≡ true =
          λ i c. ground (arith, incident_edge i) in
        let keyed : has_key v h.connected ≡ true = ground (arith, wf.keyed v) in
        let (g, returned, r) = redirect_lem v w differ (edges_at h.connected w) h keyed found in
        (closed g, merge_vertices-differ g hv hw other returned, closed-Merged differ g r hv)
  ]
