-- ===== src/Graphs/Gts.antt =====
-- src/graphs/GTS.h and GTS.cpp: a graph transformation system holds its initial graphs, its rules
-- and its universally quantified rules, the rules under their IDs. The graphs and the rules are
-- types with an ID; `none` is the null pointer.
pub mod Ids
use uncover.Base.{
  ℕ, List, [], ◌∷◌, ◌++◌, Bool, true, false, Option, none, some, length, some_of, has_key, insert,
  ◌==◌, if◌then◌else◌,
}

pub record Gts (G R U : Type 0) : Type 0 where
  pub initial_graphs : List G
  pub std_rules : List (ℕ × R)
  pub uq_rules : List (ℕ × U)

-- addStdRule and addUQRule on the map that they change.
pub add_rule : {R : Type 0} → (R → ℕ) → List (ℕ × R) → Option R → List (ℕ × R) × Bool
add_rule get_id rules none = (rules, false)
add_rule get_id rules (some r) =
    if has_key (get_id r) rules then (rules, false) else (insert (get_id r) r rules, true)

module _ {G R U : Type 0} where
  pub add_std_rule : (R → ℕ) → Gts G R U → Option R → Gts G R U × Bool
  unfolding add_rule
  add_std_rule get_id s rule =
      let (rules, added) = add_rule get_id s.std_rules rule in
      (record s { std_rules = rules }, added)

  pub add_uq_rule : (U → ℕ) → Gts G R U → Option U → Gts G R U × Bool
  unfolding add_rule
  add_uq_rule get_id s rule =
      let (rules, added) = add_rule get_id s.uq_rules rule in (record s { uq_rules = rules }, added)

  pub add_initial_graph : (G → ℕ) → Gts G R U → Option G → Gts G R U × Bool
  add_initial_graph get_id s none = (s, false)
  add_initial_graph get_id s (some g) =
      if some_of (λ x. get_id x == get_id g) s.initial_graphs
      then (s, false)
      else (record s { initial_graphs = s.initial_graphs ++ g ∷ [] }, true)

  abbrev pub std_rule_count : Gts G R U → ℕ
  std_rule_count s = length s.std_rules

  abbrev pub uq_rule_count : Gts G R U → ℕ
  uq_rule_count s = length s.uq_rules

  abbrev pub initial_count : Gts G R U → ℕ
  initial_count s = length s.initial_graphs
