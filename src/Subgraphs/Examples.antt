-- ===== src/Subgraphs/Examples.antt =====
-- Comparisons of the graphs `fork` and `chain`, and of an edge with a loop.
use uncover.Base.{
  ℕ, ◌≡◌, refl, List, [], ◌∷◌, Bool, true, false, insert, insert_id, erase_id, erase,
}
use uncover.Graphs.Hypergraph.{Hypergraph, empty_graph, add_vertex, attach}
use uncover.Graphs.Hypergraph.Examples.{fork, chain}
use uncover.Graphs.Mapping.{Mapping, del_all, del_src}
use uncover.Engine.MatchFinder.{ok}
use uncover.Engine.MatchFinder.Partial.{IsMorphism, IsInjective}
use uncover.Engine.MatchFinder.Examples.{fork_to_chain-Input, fork_to_chain-Enough}
use uncover.Subgraphs.{IsEmbedding, is_less_or_eq, is_less_or_eq_lem}

-- Two vertices, and one edge between the given ones.
abbrev with_edge : ℕ → ℕ → List (ℕ × List ℕ) → Hypergraph
with_edge v w connected = record {
  last_used_id = 3;
  vertices = (1, record { id = 1 }) ∷ (2, record { id = 2 }) ∷ [];
  edges = (3, record { id = 3; label = "A"; vertices = v ∷ w ∷ [] }) ∷ [];
  connected = connected;
}

abbrev edge : Hypergraph
edge = with_edge 1 2 ((1, 3 ∷ []) ∷ (2, 3 ∷ []) ∷ [])

abbrev loop : Hypergraph
loop = with_edge 1 1 ((1, 3 ∷ 3 ∷ []) ∷ (2, []) ∷ [])

-- The edge counts as a subgraph of the loop: one edge may map two vertices to one.
edge-loop : is_less_or_eq 0 edge loop ≡ ok true
unfolding is_less_or_eq insert insert_id erase_id erase del_all del_src
edge-loop = refl

fork-chain : is_less_or_eq 0 fork chain ≡ ok false
unfolding is_less_or_eq empty_graph add_vertex insert attach insert_id erase_id erase del_all
    del_src
fork-chain = refl

is_less_or_eq_lem_example :
    (b : Bool) × (is_less_or_eq 27 fork chain ≡ ok b)
    × (b ≡ true → (m : Mapping) × IsEmbedding fork chain m)
    × ((f : Mapping) → IsMorphism fork chain f → IsInjective f → b ≡ true)
is_less_or_eq_lem_example =
    is_less_or_eq_lem 27 fork chain (fork_to_chain-Input true true) (fork_to_chain-Enough true true)
