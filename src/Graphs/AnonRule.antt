-- ===== src/Graphs/AnonRule.antt =====
-- src/graphs/AnonRule.h and AnonRule.cpp: a rule is a partial map between two graphs, with the
-- conditions under which it can be applied and the split into a partial and a total rule. The name
-- and the printing of a rule are left out.
pub mod Conflicts
pub mod Backward
pub mod Splitting
pub mod Fill
pub mod Examples
use uncover.Base.{
  ℕ, ◌+◌, List, [], ◌∷◌, Bool, true, false, not, ◌&&◌, ◌||◌, Option, none, some, length, keys,
  all_of, contains, insert_id, insert, ltb, if◌then◌else◌,
}
use uncover.Graphs.Hypergraph.{
  Hypergraph, Result, ok, err, out_of_range, ◌>>=◌, edges_at, delete_edge, delete_vertex,
}
use uncover.Graphs.Mapping.{Mapping, get_tar, has_src, inverse, is_injective, del_tars}

pub record AnonRule : Type 0 where
  pub left : Hypergraph
  pub right : Hypergraph
  pub interface : Mapping

-- The sets `RwithPre` and `GwithPre`: the targets of a map, entry by entry.
pub targets_into : Mapping → List ℕ → List ℕ
targets_into [] ids = ids
targets_into ((s, t) ∷ m) ids = targets_into m (insert_id t ids)

pub targets : Mapping → List ℕ
unfolding targets_into
targets m = targets_into m []

-- The loop of isBackApplicable over the vertices of the right side.
pub dangling_free : List ℕ → List ℕ → Hypergraph → Mapping → List ℕ → Result Bool
dangling_free r_with_pre g_with_pre graph match [] = ok true
dangling_free r_with_pre g_with_pre graph match (v ∷ vs) =
    let rest = dangling_free r_with_pre g_with_pre graph match vs in
    let checked = (λ (x : ℕ).
      if all_of (λ e. contains e g_with_pre) (edges_at graph.connected x)
      then rest
      else ok false) in
    if contains v r_with_pre
    then rest
    else elim (get_tar match v) [ none ↦ err out_of_range | some x ↦ checked x ]

-- The loop of isBackApplicable over the inverse of the match.
abbrev pub identifies_old : List ℕ → List (ℕ × List ℕ) → Bool
identifies_old r_with_pre inv =
    all_of (λ p. if ltb 1 (length p.1) then all_of (λ s. contains s r_with_pre) p.1 else true) inv

pub is_back_applicable : AnonRule → Hypergraph → Mapping → Result Bool
unfolding targets dangling_free
is_back_applicable r graph match =
    let r_with_pre = targets r.interface in
    do
      no_dangling ← dangling_free r_with_pre (targets match) graph match (keys r.right.vertices)
      ok (if no_dangling then identifies_old r_with_pre (inverse match) else false)

-- One class of sources that the match identifies.
abbrev pub same_defined : Mapping → List ℕ → Bool
same_defined interface [] = true
same_defined interface (s ∷ ss) =
    let defined = has_src interface s in
    all_of (λ x. if defined then has_src interface x else not (has_src interface x)) ss

pub is_conflict_free : AnonRule → Mapping → Bool
is_conflict_free r match =
    all_of (λ p. if ltb 1 (length p.1) then same_defined r.interface p.1 else true) (inverse match)

-- AnonRule::isInjective
abbrev pub is_injective_rule : AnonRule → Bool
is_injective_rule r = is_injective r.interface

-- The constructor of the identity rule on a graph.
pub identity_on : List ℕ → Mapping → Mapping
identity_on [] m = m
identity_on (i ∷ is) m = identity_on is (insert i i m)

pub identity_rule : Hypergraph → AnonRule
unfolding identity_on
identity_rule g = record {
  left = g;
  right = g;
  interface = identity_on (keys g.edges) (identity_on (keys g.vertices) []);
}

-- What the two loops of adjustSplitRule have changed so far: the right side of the partial rule,
-- the left side of the total rule, and `deletedElements`.
pub record Split : Type 0 where
  pub right : Hypergraph
  pub left : Hypergraph
  pub deleted : List ℕ

pub split_edges : Mapping → List ℕ → Split → Split
split_edges m [] s = s
split_edges m (e ∷ es) s =
    let gone : Split = record {
      right = (delete_edge s.right e).0;
      left = (delete_edge s.left e).0;
      deleted = insert_id e s.deleted;
    } in
    split_edges m es (if has_src m e then s else gone)

pub split_vertices : Mapping → List ℕ → Split → Split
split_vertices m [] s = s
split_vertices m (v ∷ vs) s =
    let gone : Split = record {
      right = (delete_vertex s.right v []).0;
      left = (delete_vertex s.left v []).0;
      deleted = insert_id v s.deleted;
    } in
    split_vertices m vs (if has_src m v then s else gone)

-- adjustSplitRule for a rule with the given left side and map, on the partial and the total rule.
pub adjust_split_rule : Hypergraph → Mapping → AnonRule → AnonRule → AnonRule × AnonRule
unfolding split_edges split_vertices
adjust_split_rule old_left old_map partial total =
    let s0 : Split = record { right = partial.right; left = total.left; deleted = [] } in
    let s =
      split_vertices old_map (keys old_left.vertices)
        (split_edges old_map (keys old_left.edges) s0) in
    (
      record partial { right = s.right; interface = (del_tars partial.interface s.deleted).0 },
      record total { left = s.left },
    )

-- fillSplitRule
pub fill_split_rule : AnonRule → AnonRule × AnonRule
unfolding adjust_split_rule identity_rule
fill_split_rule r = adjust_split_rule r.left r.interface (identity_rule r.left) r
