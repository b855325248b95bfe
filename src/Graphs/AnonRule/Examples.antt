-- ===== src/Graphs/AnonRule/Examples.antt =====
-- A rule from the graph `fork` to the graph `chain`: it deletes the vertex 3 and the edge 5, and
-- creates others under these IDs.
use uncover.Base.{ℕ, ◌≡◌, ◌↔◌, refl, [], ◌∷◌, Bool, true, false, arith, insert, IsOrdered}
use uncover.Graphs.Hypergraph.{ok, has_vertex, add_vertex, empty_graph}
use uncover.Graphs.Hypergraph.Examples.{fork, chain, fork-IsWf}
use uncover.Graphs.Mapping.{Mapping, has_src, has_tar}
use uncover.Graphs.Mapping.Inverse.{sends}
use uncover.Graphs.AnonRule.{AnonRule, is_back_applicable, is_conflict_free, fill_split_rule}
use uncover.Graphs.AnonRule.Conflicts.{is_conflict_free_iff}
use uncover.Graphs.AnonRule.Backward.{NoDangling, IdentifiesOld, is_back_applicable_lem}
use uncover.Graphs.AnonRule.Fill.{SplitInto, fill_split_rule_lem}

abbrev rule : AnonRule
rule = record { left = fork; right = chain; interface = (1, 1) ∷ (2, 2) ∷ (4, 4) ∷ [] }

abbrev match : Mapping
match = (1, 1) ∷ (2, 2) ∷ (3, 2) ∷ (4, 4) ∷ (5, 5) ∷ []

match-IsOrdered : IsOrdered match
match-IsOrdered = (refl, (refl, (refl, (refl, (refl, tt)))))

created_defined :
    (v : ℕ) → has_vertex chain v ≡ true → has_tar rule.interface v ≡ false → has_src match v ≡ true
unfolding add_vertex empty_graph insert
created_defined v h k = ground arith

is_back_applicable_lem_example :
    (b : Bool) × (is_back_applicable rule chain match ≡ ok b)
    × ((b ≡ true) ↔ (NoDangling rule chain match × IdentifiesOld rule match))
is_back_applicable_lem_example =
    is_back_applicable_lem rule chain match match-IsOrdered created_defined

is_conflict_free_iff_example : (is_conflict_free rule match ≡ true) ↔ (
    (s s' t : ℕ)
    → sends match s t ≡ true
    → sends match s' t ≡ true
    → has_src rule.interface s ≡ has_src rule.interface s')
is_conflict_free_iff_example = is_conflict_free_iff rule match match-IsOrdered

fill_split_rule_lem_example : let (p, t) = fill_split_rule rule in SplitInto rule p t
fill_split_rule_lem_example = fill_split_rule_lem rule fork-IsWf
