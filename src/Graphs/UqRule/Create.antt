-- ===== src/Graphs/UqRule/Create.antt =====
-- createInstance, createZeroInstance, createOneInstance and extendInstance of UQRule.cpp.
use uncover.Base.{
  ℕ, zero, suc, List, [], ◌∷◌, Option, none, some, length, get_elem?, ◌==◌, if◌then◌else◌,
}
use uncover.Graphs.Hypergraph.{Result, ok, err, out_of_range, ◌>>=◌}
use uncover.Graphs.UqRule.{Quantification, UqRule, UqRuleInstance, UqExtension, extend_rule_by_uq}

unfoldable pub create_zero_instance : UqRule → UqRuleInstance
create_zero_instance r = record { rule = r.main_rule; left_uq = r.left_uq; right_uq = r.right_uq }

-- The inner loop of createInstance.
unfoldable pub extend_times : ℕ → Quantification → UqExtension → Result UqExtension
extend_times zero q x = ok x
extend_times (suc n) q x = do x' ← extend_rule_by_uq q x; extend_times n q x'

-- The outer loop, with the sets of generated IDs of all quantifications.
unfoldable pub create_loop :
    List Quantification
    → List ℕ
    → UqRuleInstance
    → Result (UqRuleInstance × List (List ℕ) × List (List ℕ))
unfolding extend_times
create_loop [] ns i = ok (i, [], [])
create_loop (q ∷ qs) [] i = ok (i, [], [])
create_loop (q ∷ qs) (n ∷ ns) i = do
  x ← extend_times n q (record { instance_of = i; gen_left = []; gen_right = [] })
  (i', ls, rs) ← create_loop qs ns x.instance_of
  ok (i', x.gen_left ∷ ls, x.gen_right ∷ rs)

-- createInstance; `none` is the null pointer.
unfoldable pub create_instance :
    UqRule → List ℕ → Result (Option (UqRuleInstance × List (List ℕ) × List (List ℕ)))
unfolding create_loop create_zero_instance
create_instance r quantities =
    let created = (do
      x ← create_loop r.quantifications quantities (create_zero_instance r)
      ok (some x)) in
    if length quantities == length r.quantifications then created else ok none

abbrev pub ones : List Quantification → List ℕ
ones [] = []
ones (q ∷ qs) = 1 ∷ ones qs

-- createOneInstance
pub create_one_instance : UqRule → Result (Option (UqRuleInstance × List (List ℕ) × List (List ℕ)))
unfolding create_instance
create_one_instance r = create_instance r (ones r.quantifications)

-- extendInstance; the sets of the result are those of the quantification, the others are empty.
pub extend_instance : UqRule → UqRuleInstance → ℕ → Result UqExtension
unfolding extend_rule_by_uq
extend_instance r i quant_id =
    let extended = λ (q : Quantification).
      extend_rule_by_uq q (record { instance_of = i; gen_left = []; gen_right = [] }) in
    elim (get_elem? r.quantifications quant_id) [ none ↦ err out_of_range | some q ↦ extended q ]
