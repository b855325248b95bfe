-- ===== src/Analysis/UqInstances/Rules.antt =====
-- beginUQInstances: the iterator on the instances that createInstance makes of a rule.
use uncover.Base.{
  ℕ, suc, ◌+◌, ◌%◌, ◌^◌, ◌≤◌, ◌<◌, ◌≡◌, ◌↔◌, refl, List, ◌∷◌, Option, none, some, arith, length,
  lookup, In, subst, sym, ◌∙◌,
}
use native.Mathlib.Nat.{mod-eq_of_lt}
use uncover.Graphs.Hypergraph.{Hypergraph, Result, ok, err, out_of_range}
use uncover.Graphs.UqRule.{UqRule, UqRuleInstance}
use uncover.Graphs.UqRule.Create.{create_instance}
use uncover.Graphs.UqRule.Extended.{HasRoom}
use uncover.Graphs.UqRule.Created.{
  IsRule, AllFit, all_copies, left_size, right_size, create_instance_lem,
}
use uncover.Analysis.UqInstances.{
  Iterator, no_quantities, begin_instances, served, all_instances, ◌>>=◌,
}
use uncover.Analysis.UqInstances.Order.{total}
use uncover.Analysis.UqInstances.Complete.{all_instances_complete}

-- `prepared rule v` is what the loop inserts into `currentInstances` for the vector `v`, where
-- createInstance makes an instance. The bound, a size_t, is stored as an unsigned int.
pub begin_uq_instances :
    (UqRule → List ℕ → List UqRuleInstance)
    → List (ℕ × UqRule)
    → ℕ
    → Hypergraph
    → Result (Option (Iterator UqRuleInstance))
begin_uq_instances prepared uq_rules rule_id graph =
    let bound = (length graph.vertices + length graph.edges) % 2 ^ 32 in
    elim (lookup rule_id uq_rules) [
      | none ↦ err out_of_range
      | some rule ↦ ok (begin_instances (prepared rule) bound (length rule.quantifications))
    ]

-- createInstance makes an instance for the vector, and is neither null nor fails.
abbrev pub IsMade : UqRule → List ℕ → UqRuleInstance → Type 0
IsMade rule w i =
    (ls : List (List ℕ)) × (rs : List (List ℕ)) × (create_instance rule w ≡ ok (some (i, ls, rs)))

-- A vector with a quantity for each quantification, and a total of at most the bound.
abbrev pub IsBounded : UqRule → ℕ → List ℕ → Type 0
IsBounded rule bound w = (length w ≡ length rule.quantifications) × (total w ≤ bound)

-- A prepared instance of the vector.
abbrev pub Instantiates :
    UqRule → (UqRuleInstance → List UqRuleInstance) → ℕ → List ℕ → UqRuleInstance → Type 0
Instantiates rule prepare bound w r =
    IsBounded rule bound w × (i : UqRuleInstance) × IsMade rule w i × In r (prepare i)

-- beginUQInstances for a known rule with a quantification, all of whose parts belong together:
-- createInstance makes an instance for each vector whose total is at most the number of elements of
-- the graph, and the iterator ends, and has then handed out exactly the prepared instances of the
-- instances made for these vectors. This holds if what the loop inserts for such a vector is what
-- the preparer makes of the vector's instance, and the zero vector has a prepared instance, while
-- the counters have room for all copies and the number of elements lies below the largest unsigned
-- int.
pub begin_uq_instances_lem :
    (prepared : UqRule → List ℕ → List UqRuleInstance)
    (prepare : UqRuleInstance → List UqRuleInstance) (uq_rules : List (ℕ × UqRule)) (rule_id n : ℕ)
    (graph : Hypergraph) (rule : UqRule) (a : UqRuleInstance) (rs : List UqRuleInstance)
    → let bound = length graph.vertices + length graph.edges in
      lookup rule_id uq_rules ≡ some rule
      → length rule.quantifications ≡ suc n
      → IsRule rule.main_rule
      → AllFit rule.quantifications rule.main_rule
      → ((w : List ℕ)
          → total w ≤ bound
          → HasRoom rule.main_rule
              (all_copies left_size rule.quantifications w)
              (all_copies right_size rule.quantifications w))
      → bound + 1 < 2 ^ 32
      → ((w : List ℕ) (i : UqRuleInstance)
          → IsBounded rule bound w
          → IsMade rule w i
          → prepared rule w ≡ prepare i)
      → prepared rule (no_quantities (suc n)) ≡ a ∷ rs
      → ((w : List ℕ) → IsBounded rule bound w → (i : UqRuleInstance) × IsMade rule w i)
        × (o : Option (Iterator UqRuleInstance)) × (begin_uq_instances prepared uq_rules rule_id
              graph
            ≡ ok o)
        × (fuel : ℕ) × (out : List UqRuleInstance) × ((o >>= served (prepared rule) bound fuel)
            ≡ some out)
        × ((r : UqRuleInstance) → In r out ↔ ((w : List ℕ) × Instantiates rule prepare bound w r))
unfolding begin_uq_instances all_instances
begin_uq_instances_lem prepared prepare uq_rules rule_id n graph rule a rs known size w fs room
      small p e =
    let bound = length graph.vertices + length graph.edges in
    let fits : bound % 2 ^ 32 ≡ bound = mod-eq_of_lt (omega arith) in
    let (fuel, out, run, all) = all_instances_complete (prepared rule) bound n a rs small e in
    let makes : (v : List ℕ) → IsBounded rule bound v → (i : UqRuleInstance) × IsMade rule v i =
      λ v (l, t).
        let (i, ls, rs', made, _, _) = create_instance_lem rule v w fs l (room v t) in
        (i, (ls, rs', made)) in
    (
      makes,
      begin_instances (prepared rule) bound (suc n),
      rw (begin_uq_instances, known, fits, size) refl,
      fuel,
      out,
      run,
      λ r. (
        λ h.
            let (v, l, t, k) = (all r).0 h in
            let within : IsBounded rule bound v = (l ∙ sym size, t) in
            let (i, made) = makes v within in
            (v, (within, i, made, subst (λ xs. In r xs) (p v i within made) k)),
        λ (v, (within, i, made, k)).
            let (l, t) = within in
            (all r).1 (v, l ∙ size, t, subst (λ xs. In r xs) (sym (p v i within made)) k),
      ),
    )
