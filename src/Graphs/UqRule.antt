-- ===== src/Graphs/UqRule.antt =====
-- src/graphs/UQRule.h and UQRule.cpp, with UQRuleInstance.h and UQRuleInstance.cpp: a rule with
-- universal quantifications, each a rule that extends the main rule, and its instances. The ID, the
-- name and the printing of a rule are left out.
pub mod Create
pub mod Growth
pub mod Right
pub mod Left
pub mod LeftEdges
pub mod Copy
pub mod Copies
pub mod Extended
pub mod Steps
pub mod Created
pub mod Marked
pub mod Instance
pub mod Examples
use uncover.Base.{
  ℕ, List, [], ◌∷◌, Option, none, some, keys, lookup, insert_id, if◌then◌else◌, ◌++◌, length,
  get_elem?, false, suc, ◌==◌, Bool,
}
use uncover.Graphs.Hypergraph.{
  Hypergraph, Edge, Result, ok, err, out_of_range, ◌>>=◌, add_vertex, add_edge,
}
use uncover.Graphs.Mapping.{Mapping, get_tar, has_src, set_tar, set_at, inverse}
use uncover.Graphs.AnonRule.{AnonRule}

-- A rule and a map from its left side to the left side of the main rule.
pub record Quantification : Type 0 where
  pub rule : AnonRule
  pub inter : Mapping

pub record UqRule : Type 0 where
  pub main_rule : AnonRule
  pub quantifications : List Quantification
  pub left_uq : List ℕ
  pub right_uq : List ℕ

pub record UqRuleInstance : Type 0 where
  pub rule : AnonRule
  pub left_uq : List ℕ
  pub right_uq : List ℕ

-- The loop of addQuantification over the left vertices of the quantification; the two sets are the
-- `leftUQVertices` and the `rightUQVertices` so far.
pub mark_vertices : Mapping → Mapping → List ℕ → List ℕ → List ℕ → List ℕ × List ℕ
mark_vertices inter main [] ls rs = (ls, rs)
mark_vertices inter main (v ∷ vs) ls rs =
    let skipped = mark_vertices inter main vs ls rs in
    let marked : (ℕ → List ℕ × List ℕ) = λ t.
      mark_vertices inter main vs (insert_id t ls)
        (elim (get_tar main t) [ none ↦ rs | some u ↦ insert_id u rs ]) in
    elim (get_tar inter v) [ none ↦ skipped | some t ↦ marked t ]

pub add_quantification : UqRule → Quantification → UqRule
unfolding mark_vertices
add_quantification r q =
    let (ls, rs) =
      mark_vertices q.inter r.main_rule.interface (keys q.rule.left.vertices) r.left_uq
        r.right_uq in
    record r { quantifications = r.quantifications ++ q ∷ []; left_uq = ls; right_uq = rs }

-- The loop of checkVertices: `none` is the answer false.
pub mapped_vertices : Mapping → List ℕ → Option (List ℕ)
mapped_vertices m [] = some []
mapped_vertices m (v ∷ vs) =
    let rest = mapped_vertices m vs in
    elim (get_tar m v) [
      | none ↦ none
      | some t ↦ elim rest [ none ↦ none | some ts ↦ some (t ∷ ts) ]
    ]

-- The element with exactly one preimage under the map of the quantification.
pub single_preimage : Mapping → ℕ → Option ℕ
single_preimage m x = elim (set_at (inverse m) x) [
  | [] ↦ none
  | p ∷ [] ↦ some p
  | p ∷ p' ∷ ps ↦ none
]

-- What steps 1 and 2 do with an element of the right side of the quantification: it is added, it is
-- an element of the rule already, or it has no image.
pub data Place : Type 0 where
  fresh : Place
  present : ℕ → Place
  absent : Place

pub place : Quantification → Mapping → ℕ → Place
unfolding single_preimage
place q rule_map x = elim (single_preimage q.rule.interface x) [
  | none ↦ fresh
  | some p ↦ elim (get_tar q.inter p) [
    | none ↦ fresh
    | some t ↦ elim (get_tar rule_map t) [ none ↦ absent | some u ↦ present u ]
  ]
]

-- The right side of the rule, the map `r2r` and the set `genRight->at(quantID)`.
pub record RightSide : Type 0 where
  pub graph : Hypergraph
  pub map : Mapping
  pub gen : List ℕ

pub right_vertices : Quantification → Mapping → List ℕ → RightSide → RightSide
unfolding place
right_vertices q rule_map [] s = s
right_vertices q rule_map (v ∷ vs) s =
    let (h, i) = add_vertex s.graph in
    let added : RightSide = record {
      graph = h;
      map = set_tar s.map v i;
      gen = insert_id i s.gen;
    } in
    let s' : RightSide = elim (place q rule_map v) [
      | fresh ↦ added
      | present u ↦ record s { map = set_tar s.map v u }
      | absent ↦ s
    ] in
    right_vertices q rule_map vs s'

-- The body of steps 2 for an edge that is added.
pub copy_right_edge : ℕ → Edge → RightSide → Result RightSide
unfolding mapped_vertices
copy_right_edge e ed s =
    let copied : (List ℕ → Result RightSide) = λ ts. (do
      (h, i) ← add_edge s.graph ed.label ts
      ok (record { graph = h; map = set_tar s.map e i; gen = insert_id i s.gen })) in
    elim (mapped_vertices s.map ed.vertices) [ none ↦ ok s | some ts ↦ copied ts ]

pub right_edge : Quantification → Mapping → ℕ → Edge → RightSide → Result RightSide
unfolding place copy_right_edge
right_edge q rule_map e ed s = elim (place q rule_map e) [
  | fresh ↦ copy_right_edge e ed s
  | present u ↦ ok (record s { map = set_tar s.map e u })
  | absent ↦ ok s
]

-- The edges are looked up by the keys of the map that holds them.
pub right_edges : Quantification → Mapping → List ℕ → RightSide → Result RightSide
unfolding right_edge
right_edges q rule_map [] s = ok s
right_edges q rule_map (e ∷ es) s =
    let next : (Edge → Result RightSide) =
      λ ed. (do s' ← right_edge q rule_map e ed s; right_edges q rule_map es s') in
    elim (lookup e q.rule.right.edges) [ none ↦ err out_of_range | some ed ↦ next ed ]

-- The left side of the rule, the map `l2l`, the map of the rule and `genLeft->at(quantID)`.
pub record LeftSide : Type 0 where
  pub graph : Hypergraph
  pub map : Mapping
  pub rule_map : Mapping
  pub gen : List ℕ

-- `rMap[i] = ...` for the copy `i` of an element, if it has an image.
pub map_copy : Quantification → Mapping → ℕ → ℕ → Mapping → Mapping
map_copy q r2r x i rule_map = elim (get_tar q.rule.interface x) [
  | none ↦ rule_map
  | some y ↦ elim (get_tar r2r y) [ none ↦ rule_map | some u ↦ set_tar rule_map i u ]
]

pub left_vertices : Quantification → Mapping → List ℕ → LeftSide → LeftSide
unfolding map_copy
left_vertices q r2r [] s = s
left_vertices q r2r (v ∷ vs) s =
    let (h, i) = add_vertex s.graph in
    let added : LeftSide = record {
      graph = h;
      map = set_tar s.map v i;
      rule_map = map_copy q r2r v i s.rule_map;
      gen = insert_id i s.gen;
    } in
    left_vertices q r2r vs (if has_src q.inter v then s else added)

-- When the check fails, `l2l[e]` is entered with the value 0 if the edge has an image.
pub map_unattached : Quantification → Mapping → ℕ → LeftSide → LeftSide
unfolding map_copy
map_unattached q r2r e s =
    let mapped : Bool = elim (get_tar q.rule.interface e) [
      | none ↦ false
      | some y ↦ has_src r2r y
    ] in
    if mapped
    then record s { map = set_tar s.map e 0; rule_map = map_copy q r2r e 0 s.rule_map }
    else s

pub copy_left_edge : Quantification → Mapping → ℕ → Edge → LeftSide → Result LeftSide
unfolding mapped_vertices map_copy map_unattached
copy_left_edge q r2r e ed s =
    let copied : (List ℕ → Result LeftSide) = λ ts. (do
      (h, i) ← add_edge s.graph ed.label ts
      ok (record {
        graph = h;
        map = set_tar s.map e i;
        rule_map = map_copy q r2r e i s.rule_map;
        gen = insert_id i s.gen;
      })) in
    elim (mapped_vertices s.map ed.vertices) [
      | none ↦ ok (map_unattached q r2r e s)
      | some ts ↦ copied ts
    ]

pub left_edges : Quantification → Mapping → List ℕ → LeftSide → Result LeftSide
unfolding copy_left_edge
left_edges q r2r [] s = ok s
left_edges q r2r (e ∷ es) s =
    let next : (Edge → Result LeftSide) = λ ed. (do
      s' ← if has_src q.inter e then ok s else copy_left_edge q r2r e ed s
      left_edges q r2r es s') in
    elim (lookup e q.rule.left.edges) [ none ↦ err out_of_range | some ed ↦ next ed ]

-- Steps 1 and 2 on the right side of a rule, with the set of generated IDs so far.
pub extend_right : Quantification → AnonRule → List ℕ → Result RightSide
unfolding right_vertices right_edges
extend_right q r gen =
    let s0 : RightSide = record { graph = r.right; map = []; gen = gen } in
    right_edges q r.interface (keys q.rule.right.edges)
      (right_vertices q r.interface (keys q.rule.right.vertices) s0)

-- Steps 3 and 4 on its left side and its map.
pub extend_left : Quantification → AnonRule → Mapping → List ℕ → Result LeftSide
unfolding left_vertices left_edges
extend_left q r r2r gen =
    let s0 : LeftSide = record {
      graph = r.left;
      map = q.inter;
      rule_map = r.interface;
      gen = gen;
    } in
    left_edges q r2r (keys q.rule.left.edges) (left_vertices q r2r (keys q.rule.left.vertices) s0)

-- The rule that is extended, with the sets `genLeft->at(quantID)` and `genRight->at(quantID)`.
pub record UqExtension : Type 0 where
  pub instance_of : UqRuleInstance
  pub gen_left : List ℕ
  pub gen_right : List ℕ

-- extendRuleByUQ
pub extend_rule_by_uq : Quantification → UqExtension → Result UqExtension
unfolding extend_right extend_left
extend_rule_by_uq q x =
    let r = x.instance_of.rule in
    do
      right ← extend_right q r x.gen_right
      left ← extend_left q r right.map x.gen_left
      ok (record {
        instance_of = record x.instance_of {
          rule = record { left = left.graph; right = right.graph; interface = left.rule_map };
        };
        gen_left = left.gen;
        gen_right = right.gen;
      })
