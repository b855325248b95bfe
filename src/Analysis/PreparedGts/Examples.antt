-- ===== src/Analysis/PreparedGts/Examples.antt =====
-- A rule is its ID; the rule 1 is prepared to 1 and 5, the rule 2 to 5.
use uncover.Base.{
  ℕ, List, [], ◌∷◌, Bool, true, some, ◌==◌, ◌≡◌, ◌↔◌, refl, lookup, In, if◌then◌else◌,
}
use uncover.Analysis.PreparedGts.{
  get_original_rules, prepare_gts, has_rule_id, get_original_rules_lem,
}

abbrev own_id : ℕ → ℕ
own_id r = r

abbrev with_five : Bool → ℕ → List ℕ
with_five opt r = if r == 1 then 1 ∷ 5 ∷ [] else 5 ∷ []

abbrev two_rules : List (ℕ × ℕ)
two_rules = (1, 1) ∷ (2, 2) ∷ []

get_original_rules_lem_example :
    In 2 (get_original_rules (prepare_gts own_id (some with_five) true two_rules) 5)
    ↔ ((k : ℕ) × (lookup k two_rules ≡ some 2) × (has_rule_id own_id 5 (with_five true 2) ≡ true))
get_original_rules_lem_example =
    get_original_rules_lem own_id with_five true two_rules 5 2 (refl, (refl, tt))
