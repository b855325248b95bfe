-- ===== src/Basic/IdPartition/Examples.antt =====
-- Two partitions whose closure has two classes.
use uncover.Base.{ℕ, ◌≡◌, ◌↔◌, refl, List, [], ◌∷◌, true, arith}
use uncover.Basic.IdPartition.{closure}
use uncover.Basic.IdPartition.Disjoint.{together, IsDisjoint}
use uncover.Basic.IdPartition.Closure.{Linked, closure_iff}

abbrev pairs : List (List ℕ)
pairs = (1 ∷ 2 ∷ []) ∷ (3 ∷ 4 ∷ []) ∷ (5 ∷ []) ∷ []

abbrev bridge : List (List ℕ)
bridge = (2 ∷ 3 ∷ []) ∷ []

pairs-IsDisjoint : IsDisjoint pairs
pairs-IsDisjoint = (λ x h. ground arith, (λ x h. ground arith, (λ x h. refl, tt)))

closure_iff_example : (together (closure pairs bridge) 1 4 ≡ true) ↔ Linked pairs bridge 1 4
closure_iff_example = closure_iff pairs bridge 1 4 pairs-IsDisjoint
