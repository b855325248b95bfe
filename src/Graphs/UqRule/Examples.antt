-- ===== src/Graphs/UqRule/Examples.antt =====
-- A rule from the graph `fork` to the graph `chain`, with a quantification that adds a copy of the
-- vertex 3 and of the edge 5 to each side.
use uncover.Base.{
  ℕ, ◌+◌, ◌≤◌, ◌≡◌, ◌↔◌, ◌⊎◌, refl, List, [], ◌∷◌, Bool, true, false, ◌&&◌, some, arith, insert,
  IsOrdered, keys, contains, length,
}
use uncover.Graphs.Hypergraph.{ok, add_vertex, empty_graph, has_vertex}
use uncover.Graphs.Hypergraph.Examples.{fork, chain, fork-IsWf, chain-IsWf}
use uncover.Graphs.Mapping.{Mapping, has_src, has_tar}
use uncover.Graphs.AnonRule.{AnonRule}
use uncover.Graphs.AnonRule.Backward.{NoDangling, IdentifiesOld}
use uncover.Graphs.AnonRule.Fill.{SplitInto}
use uncover.Graphs.UqRule.{
  Quantification, UqRule, UqRuleInstance, UqExtension, extend_rule_by_uq, add_quantification,
}
use uncover.Graphs.UqRule.Create.{create_instance}
use uncover.Graphs.UqRule.Growth.{IsTyped}
use uncover.Graphs.UqRule.Right.{Fits}
use uncover.Graphs.UqRule.Copy.{Copy}
use uncover.Graphs.UqRule.Extended.{element_count, Extends, extend_rule_by_uq_lem}
use uncover.Graphs.UqRule.Steps.{UsedOn}
use uncover.Graphs.UqRule.Created.{
  IsRule, Made, all_copies, left_size, right_size, create_instance_lem,
}
use uncover.Graphs.UqRule.Marked.{Sent, SentOn, add_quantification_lem}
use uncover.Graphs.UqRule.Instance.{
  is_back_applicable_instance, SameNeighbours, is_back_applicable_instance_lem, fill_split_instance,
  fill_split_instance_lem,
}

abbrev pub main : AnonRule
main = record { left = fork; right = chain; interface = (1, 1) ∷ (2, 2) ∷ (3, 3) ∷ (4, 4) ∷ [] }

abbrev shared : Mapping
shared = (1, 1) ∷ (2, 2) ∷ (4, 4) ∷ []

abbrev pub quantification : Quantification
quantification = record {
  rule = record { left = fork; right = chain; interface = shared };
  inter = shared;
}

abbrev pub rule : UqRule
rule = record {
  main_rule = main;
  quantifications = quantification ∷ [];
  left_uq = 1 ∷ 2 ∷ [];
  right_uq = 1 ∷ 2 ∷ [];
}

abbrev pub zero_instance : UqExtension
zero_instance = record {
  instance_of = record { rule = main; left_uq = 1 ∷ 2 ∷ []; right_uq = 1 ∷ 2 ∷ [] };
  gen_left = [];
  gen_right = [];
}

pub three_vertices : length fork.vertices ≡ 3
unfolding add_vertex empty_graph insert
three_vertices = refl

main-IsTyped : IsTyped main.interface fork chain
unfolding add_vertex empty_graph insert
main-IsTyped s t e = ground arith

shared-IsTyped : IsTyped shared fork chain
unfolding add_vertex empty_graph insert
shared-IsTyped s t e = ground arith

shared-IsTyped-fork : IsTyped shared fork fork
unfolding add_vertex empty_graph insert
shared-IsTyped-fork s t e = ground arith

pub quantification-Fits : Fits quantification main
quantification-Fits = record {
  quant_left = fork-IsWf;
  quant_right = chain-IsWf;
  quant_map = shared-IsTyped;
  ordered = (refl, (refl, (refl, tt)));
  inter = shared-IsTyped-fork;
  left = fork-IsWf;
  right = chain-IsWf;
  map = main-IsTyped;
}

pub main-IsRule : IsRule main
main-IsRule = record { left = fork-IsWf; right = chain-IsWf; map = main-IsTyped }

extend_rule_by_uq_lem_example :
    (x' : UqExtension) × (extend_rule_by_uq quantification zero_instance ≡ ok x')
    × Extends main x'.instance_of.rule
    × (x'.instance_of.left_uq ≡ 1 ∷ 2 ∷ [])
    × (x'.instance_of.right_uq ≡ 1 ∷ 2 ∷ [])
    × (x'.instance_of.rule.left.last_used_id ≤ 5 + element_count fork)
    × (x'.instance_of.rule.right.last_used_id ≤ 5 + element_count chain)
extend_rule_by_uq_lem_example =
    extend_rule_by_uq_lem quantification zero_instance quantification-Fits
      (omega (arith, three_vertices), omega (arith, three_vertices))

create_instance_lem_example :
    (i : UqRuleInstance) × (ls : List (List ℕ)) × (rs : List (List ℕ)) × (create_instance rule
        (2 ∷ [])
      ≡ ok (some (i, ls, rs)))
    × Made
        (all_copies left_size (quantification ∷ []) (2 ∷ []))
        (all_copies right_size (quantification ∷ []) (2 ∷ []))
        zero_instance.instance_of
        i
    × UsedOn (quantification ∷ quantification ∷ []) zero_instance.instance_of i
create_instance_lem_example =
    create_instance_lem rule (2 ∷ []) main-IsRule (quantification-Fits, tt) refl
      (omega (arith, three_vertices), omega (arith, three_vertices))

abbrev match : Mapping
match = (1, 1) ∷ (2, 2) ∷ (3, 3) ∷ (4, 4) ∷ (5, 5) ∷ []

match-IsOrdered : IsOrdered match
match-IsOrdered = (refl, (refl, (refl, (refl, (refl, tt)))))

created_defined :
    (v : ℕ) → has_vertex chain v ≡ true → has_tar main.interface v ≡ false → has_src match v ≡ true
unfolding add_vertex empty_graph insert
created_defined v h k = ground arith

is_back_applicable_instance_lem_example :
    (b : Bool) × (is_back_applicable_instance zero_instance.instance_of chain match ≡ ok b)
    × ((b ≡ true) ↔ (
        NoDangling main chain match
        × IdentifiesOld main match
        × ((v : ℕ) → contains v (1 ∷ 2 ∷ []) ≡ true → SameNeighbours chain chain match v)))
is_back_applicable_instance_lem_example =
    is_back_applicable_instance_lem zero_instance.instance_of chain match match-IsOrdered
      created_defined

fill_split_instance_lem_example :
    let (p, t) = fill_split_instance zero_instance.instance_of in
    SplitInto main p.rule t.rule
    × (p.left_uq ≡ 1 ∷ 2 ∷ [])
    × (t.right_uq ≡ 1 ∷ 2 ∷ [])
    × (t.left_uq ≡ p.right_uq)
    × ((v : ℕ)
        → contains v p.right_uq
          ≡ (has_vertex fork v && has_src main.interface v && contains v (1 ∷ 2 ∷ [])))
fill_split_instance_lem_example = fill_split_instance_lem zero_instance.instance_of fork-IsWf

add_quantification_lem_example :
    let r' = add_quantification rule quantification in
    let vs = keys fork.vertices in
    (r'.quantifications ≡ quantification ∷ quantification ∷ [])
    × ((contains 3 r'.left_uq ≡ true) ↔ ((contains 3 (1 ∷ 2 ∷ []) ≡ true) ⊎ Sent shared vs 3))
    × ((contains 3 r'.right_uq ≡ true)
        ↔ ((contains 3 (1 ∷ 2 ∷ []) ≡ true) ⊎ SentOn shared main.interface vs 3))
add_quantification_lem_example = add_quantification_lem rule quantification 3
