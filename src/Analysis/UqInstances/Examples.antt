-- ===== src/Analysis/UqInstances/Examples.antt =====
-- Runs of the iterator with two quantifications and the bound 2.
use uncover.Base.{
  ◌+◌, ℕ, zero, suc, ◌≤◌, ◌≡◌, ◌↔◌, refl, List, [], ◌∷◌, false, some, arith, length, In,
}
use uncover.Base.{Option, none, ap, ◌*◌}
use uncover.Graphs.Hypergraph.{Result, ok, err}
use uncover.Graphs.Hypergraph.Examples.{fork}
use uncover.Graphs.UqRule.{UqRule, UqRuleInstance}
use uncover.Graphs.UqRule.Create.{create_instance, create_loop, extend_times, create_zero_instance}
use uncover.Graphs.UqRule.Extended.{HasRoom}
use uncover.Graphs.UqRule.Created.{copies, all_copies, left_size, right_size}
use uncover.Graphs.UqRule.Examples.{
  rule, main, quantification, zero_instance, quantification-Fits, main-IsRule, three_vertices,
}
use uncover.Analysis.UqInstances.Rules.{
  begin_uq_instances, IsMade, IsBounded, Instantiates, begin_uq_instances_lem,
}
use uncover.Analysis.UqInstances.{
  no_quantities, served, ◌>>=◌, Iterator, load_next_rule, all_instances,
}
use uncover.Analysis.UqInstances.Order.{total, later}
use uncover.Analysis.UqInstances.Returns.{IsWithin, load_next_rule-IsWithin}
use uncover.Analysis.UqInstances.Complete.{batches, all_instances_lem}

-- Each vector is its own only instance, but for the vector (1, 1), which has another one.
abbrev two_rules : List ℕ → List (List ℕ)
two_rules (suc zero ∷ suc zero ∷ []) = (1 ∷ 1 ∷ []) ∷ (7 ∷ []) ∷ []
two_rules v = v ∷ []

test-all_instances :
    all_instances two_rules 1 9 2
    ≡ some ((0 ∷ 0 ∷ []) ∷ (1 ∷ 0 ∷ []) ∷ (0 ∷ 0 ∷ []) ∷ (0 ∷ 1 ∷ []) ∷ (0 ∷ 0 ∷ []) ∷ [])
unfolding all_instances
test-all_instances = refl

-- Without quantifications, no instance is handed out.
test-no_quantification : all_instances two_rules 4 2 0 ≡ some []
unfolding all_instances
test-no_quantification = refl

-- Only the vector (1, 1) has an instance.
abbrev only_one : List ℕ → List ℕ
only_one (suc zero ∷ suc zero ∷ []) = 5 ∷ []
only_one v = []

-- It is not met, since after the carry to the second quantity this one keeps growing.
test-skipped : all_instances only_one 2 9 2 ≡ some []
unfolding all_instances
test-skipped = refl

all_instances_lem_example :
    (fuel : ℕ) × (all_instances two_rules 2 fuel 2
      ≡ some ((0 ∷ 0 ∷ []) ∷ batches two_rules (0 ∷ 0 ∷ []) (later 2 2)))
all_instances_lem_example = all_instances_lem two_rules 2 (omega arith) 1 (0 ∷ 0 ∷ []) [] refl

load_next_rule-IsWithin_example :
    (it : Iterator ℕ) × (load_next_rule only_one 2 false
        (record { quant = 2 ∷ 0 ∷ []; stored = [] })
      ≡ some it)
    × IsWithin 2 2 it
load_next_rule-IsWithin_example =
    load_next_rule-IsWithin only_one 2 (omega arith) false (2 ∷ 0 ∷ []) [] (omega arith)

-- A preparation that leaves an instance as it is, for the rule of UqRule/Examples.
abbrev unchanged : UqRuleInstance → List UqRuleInstance
unchanged i = i ∷ []

copies-bounded : (n k : ℕ) → k ≤ 5 → copies n k ≤ 5 * n
copies-bounded zero k h = omega arith
copies-bounded (suc n) k h = omega (arith, copies-bounded n k h)

rule-HasRoom :
    (w : List ℕ)
    → total w ≤ length fork.vertices + length fork.edges
    → HasRoom main
        (all_copies left_size rule.quantifications w)
        (all_copies right_size rule.quantifications w)
rule-HasRoom [] h = (omega arith, omega arith)
rule-HasRoom (n ∷ w) h =
    let bounded = copies-bounded n (left_size quantification) (omega (arith, three_vertices)) in
    (omega (arith, three_vertices, bounded), omega (arith, three_vertices, bounded))

-- What is inserted with this preparation.
abbrev first_made :
    Result (Option (UqRuleInstance × List (List ℕ) × List (List ℕ))) → List UqRuleInstance
first_made (ok (some (i, _, _))) = unchanged i
first_made (ok none) = []
first_made (err e) = []

abbrev made_prepared : UqRule → List ℕ → List UqRuleInstance
made_prepared r v = first_made (create_instance r v)

zero_prepared : made_prepared rule (no_quantities 1) ≡ zero_instance.instance_of ∷ []
unfolding create_instance create_loop extend_times create_zero_instance
zero_prepared = refl

begin_uq_instances_lem_example :
    let bound = length fork.vertices + length fork.edges in
    ((w : List ℕ) → IsBounded rule bound w → (i : UqRuleInstance) × IsMade rule w i)
    × (o : Option (Iterator UqRuleInstance)) × (begin_uq_instances made_prepared
          ((8, rule) ∷ [])
          8
          fork
        ≡ ok o)
    × (fuel : ℕ) × (out : List UqRuleInstance) × ((o >>= served (made_prepared rule) bound fuel)
        ≡ some out)
    × ((r : UqRuleInstance) → In r out ↔ ((w : List ℕ) × Instantiates rule unchanged bound w r))
begin_uq_instances_lem_example =
    begin_uq_instances_lem made_prepared unchanged ((8, rule) ∷ []) 8 0 fork rule
      zero_instance.instance_of [] refl refl main-IsRule (quantification-Fits, tt) rule-HasRoom
      (omega (arith, three_vertices)) (λ w i b (ls, rs, made). ap first_made made) zero_prepared
