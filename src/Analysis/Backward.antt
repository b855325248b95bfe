-- ===== src/Analysis/Backward.antt =====
-- src/analysis/BackwardAnalysis.h and BackwardAnalysis.cpp: the backward search. The interfaces
-- that it works with (Order, MinPOCEnumerator, the prepared rules, the clock) are the fields of
-- `Parts`; what their documentation promises is stated in `Backward/Laws`.
pub mod Laws
pub mod Step
pub mod Loop
pub mod Rounds
pub mod Search
pub mod Correct
pub mod Returns
pub mod Examples
use uncover.Base.{
  ℕ, zero, suc, ◌+◌, List, [], ◌∷◌, ◌++◌, Bool, true, false, not, ◌&&◌, map, reverse, Option, none,
  some, some_of, if◌then◌else◌,
}
use uncover.Graphs.MinGraphList.{MinList, Addition, add_graph, add_graphs, list_of, empty_list}
use uncover.Graphs.MinGraphList.Ids.{has_id}

-- `G` are the graphs, `R` the rules with the ID under which the enumerator is reset (instances of
-- universally quantified rules included), `E` the states of the enumerator of pushout complements.
pub record Parts (G R E : Type 0) : Type 0 where
  pub get_id : G → ℕ
  pub has_name : G → Bool
  -- setName with the text "EG" and the ID
  pub set_default_name : G → G
  -- Order::isLessOrEq
  pub leq : G → G → Bool
  pub reset_with : E → R → G → E
  pub ended : E → Bool
  pub current : E → G
  pub next : E → E
  -- how many calls of operator++ are left at most
  pub left : E → ℕ
  -- the standard rules of the prepared GTS, and behind them the instances of each universally
  -- quantified rule for the graph, in the order of the two `for` loops
  pub std_rules : List R
  pub uq_instances : G → List R
  pub initial_graphs : List G
  pub check_initial : Bool
  -- what the n-th call of timer->outOfTime() answers; without a timer, false
  pub out_of_time : ℕ → Bool

-- The state of the search: `minimalGraphs`, `newGraphs` (the head of the list is the back of the
-- vector), the enumerator, and how often the timer was read.
pub record Run (G E : Type 0) : Type 0 where
  pub min : MinList G
  pub new : List G
  pub poc : E
  pub ticks : ℕ

-- How a loop ends: it goes on, it makes performAnalysis return at once, or the model has run out of
-- fuel.
pub data Flow (G E : Type 0) : Type 0 where
  going stopped : Run G E → Flow G E
  out_of_fuel : Flow G E

-- What performAnalysis returns: all found graphs once nothing is left to do, or the graphs found so
-- far, here with how often the timer was read. `unfinished` means that the model has run out of
-- fuel.
pub data Outcome (G : Type 0) : Type 0 where
  finished : List G → Outcome G
  aborted : List G → ℕ → Outcome G
  unfinished : Outcome G

-- A loop that made performAnalysis return ends all loops around it.
infixl 5 ◌>>=◌
abbrev pub ◌>>=◌ : {G E : Type 0} → Flow G E → (Run G E → Flow G E) → Flow G E
going s >>= f = f s
stopped s >>= f = stopped s
out_of_fuel >>= f = out_of_fuel

-- How a round of the outer loop ends it, or leads to the next one.
abbrev pub settle : {G E : Type 0} → Flow G E → (Run G E → Outcome G) → Outcome G
settle (going s) f = f s
settle (stopped s) f = aborted s.min.graphs s.ticks
settle out_of_fuel f = unfinished

module _ {G R E : Type 0} (p : Parts G R E) where
  open p use {leq, get_id, ended, current, next, left, reset_with, out_of_time}

  -- The call of addGraph, and the `push_back` behind it.
  pub offer : Run G E → G → Run G E
  offer s g =
      let a = add_graph leq get_id s.min g in
      record s { min = list_of leq get_id a; new = if a.added then g ∷ s.new else s.new }

  -- The search through the initial graphs for one that the new graph covers.
  pub covers_initial : G → Bool
  covers_initial g = some_of (λ i. leq g i) p.initial_graphs

  -- Whether applyOne returns true before it reads the timer.
  pub hits_initial : Run G E → G → Bool
  hits_initial s g = (add_graph leq get_id s.min g).added && (p.check_initial && covers_initial g)

  -- One round of the loop of applyOne, up to the call of operator++.
  pub deliver : Run G E → G → Flow G E
  deliver s g =
      let s' = offer s g in
      let read = record s' { ticks = s'.ticks + 1 } in
      if hits_initial s g
      then stopped s'
      else if out_of_time s'.ticks
      then stopped read
      else going (record read { poc = next s.poc })

  pub apply_loop : ℕ → Run G E → Flow G E
  unfolding deliver
  apply_loop zero s = if ended s.poc then going s else out_of_fuel
  apply_loop (suc fuel) s = elim (ended s.poc) [
    | true ↦ going s
    | false ↦ do s' ← deliver s (current s.poc); apply_loop fuel s'
  ]

  pub apply_one : Run G E → Flow G E
  unfolding apply_loop
  apply_one s = apply_loop (left s.poc) s

  -- The two `for` loops over the rules, for one graph.
  pub apply_rules : List R → G → Run G E → Flow G E
  unfolding apply_one
  apply_rules [] g s = going s
  apply_rules (r ∷ rs) g s = do
    s' ← apply_one (record s { poc = reset_with s.poc r g })
    apply_rules rs g s'

  abbrev pub rules_for : G → List R
  rules_for g = p.std_rules ++ p.uq_instances g

  -- What the inner `while` loop does with the graph that it took from `todoGraphs`.
  pub process : G → Run G E → Flow G E
  unfolding apply_rules
  process g s = if has_id get_id s.min (get_id g) then apply_rules (rules_for g) g s else going s

  pub process_all : List G → Run G E → Flow G E
  unfolding process
  process_all [] s = going s
  process_all (g ∷ todo) s = do s' ← process g s; process_all todo s'

  -- The names that performAnalysis gives to the graphs of its result.
  pub name_result : List G → List G
  name_result = map (λ g. if p.has_name g then g else p.set_default_name g)

  -- The outer `while` loop; the fuel bounds the search depth.
  pub search : ℕ → List G → Run G E → Outcome G
  unfolding process_all name_result
  search fuel [] s = finished (name_result s.min.graphs)
  search zero (g ∷ todo) s = unfinished
  search (suc fuel) (g ∷ todo) s =
      settle (process_all (g ∷ todo) (record s { new = [] })) (λ t. search fuel t.new t)

  abbrev pub start : List G → E → Run G E
  start errors poc = record {
    min = (add_graphs leq get_id empty_list errors).0;
    new = [];
    poc = poc;
    ticks = 1;
  }

  -- performAnalysis behind its checks of the parameters, from the state that the enumerator has.
  pub perform_analysis : ℕ → List G → E → Outcome G
  unfolding search
  perform_analysis fuel errors poc =
      let s = start errors poc in
      let result = search fuel (reverse errors) s in
      if out_of_time 0 then aborted s.min.graphs s.ticks else result

-- The exceptions that performAnalysis throws for a null pointer, in the order of the checks.
pub data Missing : Type 0 where
  no_gts no_error_graphs no_order no_rule_preparer no_poc_enumerator : Missing

-- Which of the five pointers are given.
pub record Given : Type 0 where
  pub gts : Bool
  pub error_graphs : Bool
  pub order : Bool
  pub rule_preparer : Bool
  pub poc_enumerator : Bool

pub check_parameters : Given → Option Missing
check_parameters g =
    if not g.gts
    then some no_gts
    else if not g.error_graphs
    then some no_error_graphs
    else if not g.order
    then some no_order
    else if not g.rule_preparer
    then some no_rule_preparer
    else if not g.poc_enumerator
    then some no_poc_enumerator
    else none
