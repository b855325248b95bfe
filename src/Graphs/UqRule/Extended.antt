-- ===== src/Graphs/UqRule/Extended.antt =====
-- What extendRuleByUQ makes of a rule.
use uncover.Base.{
  false, Bool-cases, inl, inr, ℕ, ◌+◌, ◌≤◌, ◌<◌, ◌^◌, ◌≡◌, refl, List, [], ◌∷◌, true, arith,
  has_key, all_of, all_of-intro, length, keys, contains-keys, ◌||◌, some,
}
use uncover.Graphs.Hypergraph.{Hypergraph, ok, has_vertex, has_edge}
use uncover.Graphs.Mapping.{Mapping, get_tar, has_src}
use uncover.Graphs.AnonRule.{AnonRule}
use uncover.Graphs.UqRule.{
  Quantification, UqExtension, RightSide, LeftSide, extend_right, extend_left, extend_rule_by_uq,
  right_vertices, left_vertices,
}
use uncover.Graphs.UqRule.Copy.{Copy}
use uncover.Graphs.UqRule.Copies.{left_vertices-Copy, left_edges-Copy}
use uncover.Graphs.UqRule.Growth.{Grown, Grown-refl, IsTyped, IsTyped-Grown}
use uncover.Graphs.UqRule.Right.{Fits, RightInv, right_vertices-RightInv, right_edges-RightDone}
use uncover.Graphs.UqRule.Left.{LeftInv, left_vertices-LeftInv}
use uncover.Graphs.UqRule.LeftEdges.{left_edges-LeftDone}

all_of-keys : {V : Type 0} (m : List (ℕ × V)) → all_of (λ k. has_key k m) (keys m) ≡ true
all_of-keys m = all_of-intro (λ k. has_key k m) (keys m) (λ k c. ground (arith, contains-keys k m))

length-keys : {V : Type 0} (m : List (ℕ × V)) → length (keys m) ≡ length m
length-keys [] = refl
length-keys (p ∷ m) = omega (arith, length-keys m)

-- How many elements a graph has.
abbrev pub element_count : Hypergraph → ℕ
element_count h = length h.vertices + length h.edges

-- The second rule has the elements of the first, mapped as before, and others.
pub record Extends (r r' : AnonRule) : Type 0 where
  pub left : Grown r.left r'.left
  pub right : Grown r.right r'.right
  -- vertices are mapped to vertices and edges to edges
  pub typed : IsTyped r'.interface r'.left r'.right
  pub kept :
      (i : ℕ)
      → (has_vertex r.left i || has_edge r.left i) ≡ true
      → get_tar r'.interface i ≡ get_tar r.interface i

-- Where steps 3 and 4 begin.
abbrev left_start : Quantification → AnonRule → List ℕ → LeftSide
left_start q r gen = record { graph = r.left; map = q.inter; rule_map = r.interface; gen = gen }

module _ (q : Quantification) (r : AnonRule) (f : Fits q r) where
  extend_right_lem :
      (gen : List ℕ)
      → r.right.last_used_id + element_count q.rule.right < 2 ^ 32
      → (s : RightSide) × (extend_right q r gen ≡ ok s)
        × Grown r.right s.graph
        × IsTyped s.map q.rule.right s.graph
        × (s.graph.last_used_id ≤ r.right.last_used_id + element_count q.rule.right)
  unfolding extend_right
  extend_right_lem gen small =
      let limit = r.right.last_used_id + element_count q.rule.right in
      let vs = keys q.rule.right.vertices in
      let es = keys q.rule.right.edges in
      let s0 : RightSide = record { graph = r.right; map = []; gen = gen } in
      let start : RightInv q r f limit (length vs + (length es + 0)) s0 = record {
        grows = Grown-refl r.right f.right;
        typed = λ s t e. ground arith;
        counted = omega (arith, length-keys q.rule.right.vertices, length-keys q.rule.right.edges);
      } in
      let i =
        right_vertices-RightInv q r f limit small vs (length es + 0) s0
          (all_of-keys q.rule.right.vertices) start in
      let (s, e, j) =
        right_edges-RightDone q r f limit small es 0 (right_vertices q r.interface vs s0)
          (all_of-keys q.rule.right.edges) i in
      (s, e, j.grows, j.typed, omega (arith, j.counted))

  module _ (g : Hypergraph) (r2r : Mapping) (above : Grown r.right g)
      (images : IsTyped r2r q.rule.right g) (gen : List ℕ) where
    left_start-LeftInv :
        let limit = r.left.last_used_id + element_count q.rule.left in
        let room = length (keys q.rule.left.vertices) + (length (keys q.rule.left.edges) + 0) in
        LeftInv q r f g r2r above images limit room (left_start q r gen)
    left_start-LeftInv = record {
      grows = Grown-refl r.left f.left;
      typed = f.inter;
      rule_typed = IsTyped-Grown r.interface r.left r.right g f.map above;
      kept = λ i k. refl;
      defined = λ x k. k;
      fresh = λ x i n k. absurd (ground arith);
      distinct = λ x y i n n' k k'. absurd (ground arith);
      counted = omega (arith, length-keys q.rule.left.vertices, length-keys q.rule.left.edges);
    }

  extend_left_lem :
      (g : Hypergraph) (r2r : Mapping) (gen : List ℕ)
      → Grown r.right g
      → IsTyped r2r q.rule.right g
      → r.left.last_used_id + element_count q.rule.left < 2 ^ 32
      → (s : LeftSide) × (extend_left q r r2r gen ≡ ok s)
        × Grown r.left s.graph
        × IsTyped s.rule_map s.graph g
        × ((i : ℕ) → i ≤ r.left.last_used_id → get_tar s.rule_map i ≡ get_tar r.interface i)
        × (s.graph.last_used_id ≤ r.left.last_used_id + element_count q.rule.left)
  unfolding extend_left
  extend_left_lem g r2r gen above images small =
      let limit = r.left.last_used_id + element_count q.rule.left in
      let vs = keys q.rule.left.vertices in
      let es = keys q.rule.left.edges in
      let s0 : LeftSide = left_start q r gen in
      let start = left_start-LeftInv g r2r above images gen in
      let (i, c) =
        left_vertices-LeftInv q r f g r2r above images limit small vs (length es + 0) s0
          (all_of-keys q.rule.left.vertices) start in
      let all : (v : ℕ)
          → has_vertex q.rule.left v ≡ true
          → has_src (left_vertices q r2r vs s0).map v ≡ true =
        λ v k. c v (ground (arith, contains-keys v q.rule.left.vertices)) in
      let (s, e, j, _) =
        left_edges-LeftDone q r f g r2r above images limit small es 0 (left_vertices q r2r vs s0)
          (all_of-keys q.rule.left.edges) all i in
      (s, e, j.grows, j.rule_typed, j.kept, omega (arith, j.counted))

-- The counters of both sides have room for so many more elements.
abbrev pub HasRoom : AnonRule → ℕ → ℕ → Type 0
HasRoom r m n = (r.left.last_used_id + m < 2 ^ 32) × (r.right.last_used_id + n < 2 ^ 32)

-- extendRuleByUQ succeeds on a rule that the quantification belongs to, while the counters have
-- room for the elements of the quantification: the rule keeps its elements and what they are
-- mapped to, its map sends vertices to vertices and edges to edges of two well-formed graphs, and
-- the vertices marked as quantified are the same.
pub extend_rule_by_uq_lem :
    (q : Quantification) (x : UqExtension)
    → Fits q x.instance_of.rule
    → HasRoom x.instance_of.rule (element_count q.rule.left) (element_count q.rule.right)
    → (x' : UqExtension) × (extend_rule_by_uq q x ≡ ok x')
      × Extends x.instance_of.rule x'.instance_of.rule
      × (x'.instance_of.left_uq ≡ x.instance_of.left_uq)
      × (x'.instance_of.right_uq ≡ x.instance_of.right_uq)
      × (x'.instance_of.rule.left.last_used_id
          ≤ x.instance_of.rule.left.last_used_id + element_count q.rule.left)
      × (x'.instance_of.rule.right.last_used_id
          ≤ x.instance_of.rule.right.last_used_id + element_count q.rule.right)
unfolding extend_rule_by_uq
extend_rule_by_uq_lem q x f (room_left, room_right) =
    let r = x.instance_of.rule in
    let (s, e, grown, images, c) = extend_right_lem q r f x.gen_right room_right in
    let (s', e', grown', typed, kept, c') =
      extend_left_lem q r f s.graph s.map x.gen_left grown images room_left in
    rw (e, e')
      (
        _,
        refl,
        record {
          left = grown';
          right = grown;
          typed = typed;
          kept = λ i k. kept i (ground (arith, f.left.vertex_old i, f.left.edge_old i));
        },
        refl,
        refl,
        c',
        c,
      )

-- The new elements of the quantification have gone to elements that the left side did not have, a
-- vertex to a vertex and an edge to an edge, no two of them to the same one.
pub record AreNew (q : Quantification) (r : AnonRule) (s : LeftSide) : Type 0 where
  pub typed : IsTyped s.map q.rule.left s.graph
  pub fresh :
      (x i : ℕ)
      → has_src q.inter x ≡ false
      → get_tar s.map x ≡ some i
      → (has_vertex r.left i || has_edge r.left i) ≡ false
  pub distinct :
      (x y i : ℕ)
      → has_src q.inter x ≡ false
      → has_src q.inter y ≡ false
      → get_tar s.map x ≡ some i
      → get_tar s.map y ≡ some i
      → x ≡ y

pub extend_left-Copy :
    (q : Quantification) (r : AnonRule) (gen_left gen_right : List ℕ)
    → Fits q r
    → HasRoom r (element_count q.rule.left) (element_count q.rule.right)
    → (s : RightSide) × (s' : LeftSide) × (extend_right q r gen_right ≡ ok s)
      × (extend_left q r s.map gen_left ≡ ok s')
      × AreNew q r s'
      × ((x : ℕ)
          → (has_vertex q.rule.left x || has_edge q.rule.left x) ≡ true
          → has_src q.inter x ≡ false
          → Copy q s.map x s')
unfolding extend_left
extend_left-Copy q r gen_left gen_right f (room_left, room_right) =
    let (s, e, above, images, _) = extend_right_lem q r f gen_right room_right in
    let g = s.graph in
    let limit = r.left.last_used_id + element_count q.rule.left in
    let vs = keys q.rule.left.vertices in
    let es = keys q.rule.left.edges in
    let s0 : LeftSide = left_start q r gen_left in
    let start = left_start-LeftInv q r f g s.map above images gen_left in
    let (i, c) =
      left_vertices-LeftInv q r f g s.map above images limit room_left vs (length es + 0) s0
        (all_of-keys q.rule.left.vertices) start in
    let s1 = left_vertices q s.map vs s0 in
    let all : (v : ℕ) → has_vertex q.rule.left v ≡ true → has_src s1.map v ≡ true =
      λ v k. c v (ground (arith, contains-keys v q.rule.left.vertices)) in
    let (s', e', j, d) =
      left_edges-Copy q r f g s.map above images limit room_left es 0 s1
        (all_of-keys q.rule.left.edges) all i in
    (
      s,
      s',
      e,
      e',
      record {
        typed = j.typed;
        fresh = λ x i' n k.
            let new = j.fresh x i' n k in
            ground (arith, new, f.left.vertex_old i', f.left.edge_old i');
        distinct = j.distinct;
      },
      λ x k n. elim (Bool-cases (has_vertex q.rule.left x)) [
        | inl p ↦ d x n (
            inr (
              left_vertices-Copy q r f g s.map above images limit room_left vs (length es + 0) s0
                (all_of-keys q.rule.left.vertices) start x p n
                (inl (ground (arith, contains-keys x q.rule.left.vertices)))))
        | inr p ↦ d x n (inl (ground (arith, p, contains-keys x q.rule.left.edges)))
      ],
    )
