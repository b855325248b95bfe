-- ===== src/Graphs/AnonRule/Splitting.antt =====
-- The loops of adjustSplitRule, and the constructor of the identity rule.
use uncover.Base.{
  ◌∙◌, ℕ, ◌≡◌, refl, List, [], ◌∷◌, Bool, false, not, ◌&&◌, ◌||◌, Option, none, some, arith, lookup,
  insert, lookup-insert, insert-IsOrdered, some_of, contains, insert_id, contains-insert_id,
  IsOrdered, ltb, if◌then◌else◌, Bool-cases, Option-cases, inl, inr, all_of, true, all_of-contains,
  all_of-fails, some_of-contains,
}
use uncover.Graphs.Hypergraph.{Hypergraph, Edge, has_vertex, delete_edge, delete_vertex}
use uncover.Graphs.Hypergraph.Incidence.{IsWf, occurs, contains-count, count-contains}
use uncover.Graphs.Hypergraph.Delete.{
  delete_edge-IsWf, delete_edge_lem, delete_vertex-IsWf, delete_vertex_lem,
}
use uncover.Graphs.Mapping.{Mapping, has_src, get_tar}
use uncover.Graphs.AnonRule.{Split, identity_on, split_edges, split_vertices}

pub identity_on-get_tar :
    (is : List ℕ) (m : Mapping) (i : ℕ)
    → get_tar (identity_on is m) i ≡ (if contains i is then some i else get_tar m i)
unfolding identity_on
identity_on-get_tar [] m i = refl
identity_on-get_tar (j ∷ is) m i =
    ground (arith, identity_on-get_tar is (insert j j m) i, lookup-insert j i j m)

pub identity_on-IsOrdered : (is : List ℕ) (m : Mapping) → IsOrdered m → IsOrdered (identity_on is m)
unfolding identity_on
identity_on-IsOrdered [] m o = o
identity_on-IsOrdered (j ∷ is) m o =
    identity_on-IsOrdered is (insert j j m) (insert-IsOrdered j j m o)

-- The two rules are changed in the same way.
abbrev pub twin : Hypergraph → List ℕ → Split
twin g ids = record { right = g; left = g; deleted = ids }

-- Whether an unmapped vertex of the list is attached to the edge.
abbrev pub touched : Mapping → List ℕ → Option Edge → Bool
touched m vs none = false
touched m vs (some ed) = some_of (λ v. not (has_src m v) && contains v ed.vertices) vs

module _ (m : Mapping) where
  pub record EdgesGone (es : List ℕ) (g : Hypergraph) (ids : List ℕ) (s : Split) : Type 0 where
    pub same : s ≡ twin s.right s.deleted
    pub well_formed : IsWf s.right
    pub edges :
        (e : ℕ)
        → lookup e s.right.edges
          ≡ (if contains e es && not (has_src m e) then none else lookup e g.edges)
    pub vertices : s.right.vertices ≡ g.vertices
    pub deleted :
        (i : ℕ) → contains i s.deleted ≡ (contains i ids || contains i es && not (has_src m i))

  pub split_edges_lem :
      (es : List ℕ) (g : Hypergraph) (ids : List ℕ)
      → IsWf g
      → EdgesGone es g ids (split_edges m es (twin g ids))
  unfolding split_edges
  split_edges_lem [] g ids w = record {
    same = refl;
    well_formed = w;
    edges = λ e. refl;
    vertices = refl;
    deleted = λ i. ground arith;
  }
  split_edges_lem (x ∷ es) g ids w = elim (Bool-cases (has_src m x)) [
    | inl mapped ↦
        let r = split_edges_lem es g ids w in
        rw mapped (record {
          same = r.same;
          well_formed = r.well_formed;
          edges = λ e. ground (arith, r.edges e);
          vertices = r.vertices;
          deleted = λ i. ground (arith, r.deleted i);
        })
    | inr unmapped ↦
        let r = split_edges_lem es (delete_edge g x).0 (insert_id x ids) (delete_edge-IsWf g x w) in
        rw unmapped (record {
          same = r.same;
          well_formed = r.well_formed;
          edges = λ e. ground (arith, r.edges e, delete_edge_lem g x e);
          vertices = r.vertices ∙ (delete_edge_lem g x x).2;
          deleted = λ i. ground (arith, r.deleted i, contains-insert_id x i ids);
        })
  ]

  pub record VerticesGone (vs : List ℕ) (g : Hypergraph) (ids : List ℕ) (s : Split) : Type 0 where
    pub same : s ≡ twin s.right s.deleted
    pub well_formed : IsWf s.right
    pub edges :
        (e : ℕ)
        → lookup e s.right.edges
          ≡ (if touched m vs (lookup e g.edges) then none else lookup e g.edges)
    pub vertices :
        (v : ℕ)
        → has_vertex s.right v ≡ (has_vertex g v && not (contains v vs && not (has_src m v)))
    pub deleted :
        (i : ℕ) → contains i s.deleted ≡ (contains i ids || contains i vs && not (has_src m i))

  attached_at :
      (edges : List (ℕ × Edge)) (v e : ℕ)
      → ltb 0 (occurs edges v e)
        ≡ (elim (lookup e edges) [ none ↦ false | some ed ↦ contains v ed.vertices ])
  attached_at edges v e = elim (Option-cases (lookup e edges)) [
    | inl is ↦ ground (arith, is)
    | inr (ed, is) ↦ ground (arith, is, contains-count v ed.vertices, count-contains v ed.vertices)
  ]

  pub split_vertices_lem :
      (vs : List ℕ) (g : Hypergraph) (ids : List ℕ)
      → IsWf g
      → VerticesGone vs g ids (split_vertices m vs (twin g ids))
  unfolding split_vertices
  split_vertices_lem [] g ids w = record {
    same = refl;
    well_formed = w;
    edges = λ e. ground arith;
    vertices = λ v. ground arith;
    deleted = λ i. ground arith;
  }
  split_vertices_lem (x ∷ vs) g ids w = elim (Bool-cases (has_src m x)) [
    | inl mapped ↦
        let r = split_vertices_lem vs g ids w in
        rw mapped (record {
          same = r.same;
          well_formed = r.well_formed;
          edges = λ e. ground (arith, r.edges e);
          vertices = λ v. ground (arith, r.vertices v);
          deleted = λ i. ground (arith, r.deleted i);
        })
    | inr unmapped ↦
        let r =
          split_vertices_lem vs (delete_vertex g x []).0 (insert_id x ids)
            (delete_vertex-IsWf g x w []) in
        rw unmapped (record {
          same = r.same;
          well_formed = r.well_formed;
          edges =
              λ e. ground (arith, r.edges e, delete_vertex_lem g x w [] e, attached_at g.edges x e);
          vertices = λ v. ground (arith, r.vertices v, delete_vertex_lem g x w [] v);
          deleted = λ i. ground (arith, r.deleted i, contains-insert_id x i ids);
        })
  ]

  some_of-mapped :
      (us vs : List ℕ)
      → all_of (has_src m) us ≡ true
      → some_of (λ v. not (has_src m v) && contains v us) vs ≡ false
  some_of-mapped us [] a = refl
  some_of-mapped us (v ∷ vs) a =
      ground (arith, some_of-mapped us vs a, all_of-contains (has_src m) us v a)

  pub some_of-unmapped :
      (us vs : List ℕ)
      → ((u : ℕ) → contains u us ≡ true → contains u vs ≡ true)
      → some_of (λ v. not (has_src m v) && contains v us) vs ≡ not (all_of (has_src m) us)
  some_of-unmapped us vs f = elim (Bool-cases (all_of (has_src m) us)) [
    | inl e ↦ rw e (some_of-mapped us vs e)
    | inr e ↦
        let (u, c, d) = all_of-fails (has_src m) us e in
        rw e
          (some_of-contains (λ v. not (has_src m v) && contains v us) vs u (f u c) (ground arith))
  ]
