-- ===== src/Graphs/MinGraphList/Examples.antt =====
-- A list of pairs of numbers.
use uncover.Base.{ℕ, ◌≡◌, refl, [], ◌∷◌, true, arith, leb, ◌*◌, Bool, ◌+◌, ◌&&◌}
use uncover.Graphs.MinGraphList.{MinList, add_graph}
use uncover.Graphs.MinGraphList.Spec.{IsMinimal, Result, add_graph_lem}
use uncover.Graphs.MinGraphList.Ids.{IsIndexed}

-- Pairs of numbers under the order in both places; the ID of a pair is its first number times ten
-- plus its second.
abbrev below : ℕ × ℕ → ℕ × ℕ → Bool
below a b = leb a.0 b.0 && leb a.1 b.1

abbrev id_of : ℕ × ℕ → ℕ
id_of a = 10 * a.0 + a.1

below_trans : (a b c : ℕ × ℕ) → below a b ≡ true → below b c ≡ true → below a c ≡ true
below_trans a b c h k = ground arith

abbrev two : MinList (ℕ × ℕ)
two = record { graphs = (1, 3) ∷ (3, 1) ∷ []; ids_in_list = 13 ∷ 31 ∷ [] }

two-IsMinimal : IsMinimal below two.graphs
two-IsMinimal = (refl, (refl, tt))

two-IsIndexed : IsIndexed id_of two
two-IsIndexed = record { cached = λ i. refl; distinct = (refl, (refl, tt)) }

add_graph_lem_example : Result below (0, 2) two.graphs (add_graph below id_of two (0, 2))
add_graph_lem_example = add_graph_lem below id_of below_trans two (0, 2) two-IsMinimal
