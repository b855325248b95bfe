-- ===== src/Graphs/PathChecker/Examples.antt =====
-- The graph of two consecutive edges.
use uncover.Base.{ℕ, ◌≡◌, ◌↔◌, [], ◌∷◌, true}
use uncover.Graphs.Hypergraph.{has_vertex}
use uncover.Graphs.Hypergraph.Examples.{chain}
use uncover.Graphs.PathChecker.{has_path}
use uncover.Graphs.PathChecker.Correct.{PathFrom, has_path_iff}

has_path_iff_example :
    (has_path chain 2 ≡ true)
    ↔ ((v : ℕ) × (has_vertex chain v ≡ true) × PathFrom chain 2 v (v ∷ []))
has_path_iff_example = has_path_iff chain 2
