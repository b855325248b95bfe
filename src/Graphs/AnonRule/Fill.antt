-- ===== src/Graphs/AnonRule/Fill.antt =====
-- fillSplitRule.
use uncover.Graphs.Mapping.Delete.{del_tars_lem}
use uncover.Base.{
  subst, ℕ, ◌≡◌, refl, [], ◌&&◌, ◌||◌, Option, none, some, arith, lookup, contains, IsOrdered,
  if◌then◌else◌, Option-cases, inl, inr, all_of, true, keys, sym, ap, contains-keys,
}
use uncover.Graphs.Hypergraph.{Edge, has_vertex, has_edge}
use uncover.Graphs.Hypergraph.Incidence.{IsWf, contains-count}
use uncover.Graphs.Mapping.{Mapping, has_src, get_tar}
use uncover.Graphs.AnonRule.{
  identity_on, split_edges, split_vertices, fill_split_rule, AnonRule, adjust_split_rule,
  identity_rule,
}
use uncover.Graphs.AnonRule.Splitting.{
  identity_on-get_tar, identity_on-IsOrdered, twin, split_edges_lem, VerticesGone,
  split_vertices_lem, some_of-unmapped,
}

-- What is left of an edge by its ID and its vertices: it is there if all of these are mapped.
abbrev pub surviving : Mapping → ℕ → Option Edge → Option Edge
surviving m e none = none
surviving m e (some ed) = if has_src m e && all_of (has_src m) ed.vertices then some ed else none

-- What fillSplitRule makes of a rule: `p` deletes and `t` does the rest.
pub record SplitInto (r : AnonRule) (p t : AnonRule) : Type 0 where
  pub well_formed : IsWf p.right
  -- the graphs in the middle are equal, the outer ones and the map of `t` are those of the rule
  pub middle : t.left ≡ p.right
  pub left : p.left ≡ r.left
  pub right : t.right ≡ r.right
  pub total : t.interface ≡ r.interface
  -- in the middle are the mapped vertices of the left side, and its mapped edges between those
  pub vertices : (v : ℕ) → has_vertex p.right v ≡ (has_vertex r.left v && has_src r.interface v)
  pub edges : (e : ℕ) → lookup e p.right.edges ≡ surviving r.interface e (lookup e r.left.edges)
  -- `p` is the identity on the mapped elements of the left side
  pub partial :
      (i : ℕ)
      → get_tar p.interface i ≡ (
          if (has_vertex r.left i || has_edge r.left i) && has_src r.interface i
          then some i
          else none)

-- fillSplitRule splits a rule with a well-formed left side into one that deletes exactly what the
-- rule does not map, along with the edges at deleted vertices, and one that maps all the rest as
-- the rule does.
pub fill_split_rule_lem :
    (r : AnonRule) → IsWf r.left → let (p, t) = fill_split_rule r in SplitInto r p t
unfolding fill_split_rule adjust_split_rule identity_rule
fill_split_rule_lem r w =
    let m = r.interface in
    let vs = keys r.left.vertices in
    let es = keys r.left.edges in
    let ea = split_edges_lem m es r.left [] w in
    let mid = split_edges m es (twin r.left []) in
    let va : VerticesGone m vs mid.right mid.deleted (split_vertices m vs mid) =
      subst (λ z. VerticesGone m vs mid.right mid.deleted (split_vertices m vs z)) (sym ea.same)
        (split_vertices_lem m vs mid.right mid.deleted ea.well_formed) in
    let s = split_vertices m vs mid in
    let identity = identity_on es (identity_on vs []) in
    let ordered : IsOrdered identity =
      identity_on-IsOrdered es (identity_on vs []) (identity_on-IsOrdered vs [] tt) in
    record {
      well_formed = va.well_formed;
      middle = ap (λ z. z.left) va.same;
      left = refl;
      right = refl;
      total = refl;
      vertices = λ v. ground (arith, va.vertices v, ea.vertices, contains-keys v r.left.vertices);
      edges = λ e. elim (Option-cases (lookup e r.left.edges)) [
        | inl none_there ↦ ground (arith, va.edges e, ea.edges e, none_there)
        | inr (ed, there) ↦
            let attached : (u : ℕ) → contains u ed.vertices ≡ true → contains u vs ≡ true = λ u c.
              ground (
                arith,
                w.attached u e,
                there,
                contains-count u ed.vertices,
                contains-keys u r.left.vertices,
              ) in
            ground (
              arith,
              va.edges e,
              ea.edges e,
              there,
              some_of-unmapped m ed.vertices vs attached,
              contains-keys e r.left.edges,
            )
      ];
      partial = λ i. ground (
        arith,
        del_tars_lem identity s.deleted i ordered,
        identity_on-get_tar es (identity_on vs []) i,
        identity_on-get_tar vs [] i,
        va.deleted i,
        ea.deleted i,
        contains-keys i r.left.vertices,
        contains-keys i r.left.edges,
      );
    }
