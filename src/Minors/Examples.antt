-- ===== src/Minors/Examples.antt =====
-- An edge of a chain is contracted, and the other one is kept.
use Prim.Native.String.{String}
use uncover.Base.{
  ℕ, ◌≡◌, ◌↔◌, refl, List, [], ◌∷◌, true, some, arith, length, leb, insert, insert_id, Bool,
}
use uncover.Graphs.Hypergraph.{Hypergraph, Edge, empty_graph, add_vertex, attach}
use uncover.Graphs.Hypergraph.Examples.{chain}
use uncover.Graphs.Mapping.{Mapping, get_tar, inverse}
use uncover.Basic.IdPartition.Disjoint.{together}
use uncover.Engine.MatchFinder.{ok}
use uncover.Engine.MatchFinder.Partial.{Extends}
use uncover.Minors.{pos, negsuc, is_finer, is_included_in, enough_isolated}
use uncover.Minors.Included.{contraction_iff}
use uncover.Minors.Isolation.{free_classes, enough_isolated_lem}
use uncover.Minors.Mapp.{chosen_edge, GraphPair, Filled, generate_mapp}
use uncover.Minors.Chosen.{SendsAll, generate_mapp_lem}

-- The edge 3 from the vertex 1 to the vertex 2.
abbrev edge_3 : Edge
edge_3 = record { id = 3; label = "A"; vertices = 1 ∷ 2 ∷ [] }

abbrev one_edge : Hypergraph
one_edge = record {
  last_used_id = 3;
  vertices = (1, record { id = 1 }) ∷ (2, record { id = 2 }) ∷ [];
  edges = (3, edge_3) ∷ [];
  connected = (1, 3 ∷ []) ∷ (2, 3 ∷ []) ∷ [];
}

abbrev edge_in_chain : GraphPair
edge_in_chain = record {
  smaller = one_edge;
  bigger = chain;
  edges_s = ("A", 3 ∷ []) ∷ [];
  edges_b = ("A", 4 ∷ 5 ∷ []) ∷ [];
}

-- The second edge of the chain is chosen.
abbrev choice : List (String × List ℕ)
choice = ("A", 1 ∷ []) ∷ []

abbrev pairs : List (List (Edge × Edge))
pairs = ((edge_3, record { id = 5; label = "A"; vertices = 2 ∷ 3 ∷ [] }) ∷ []) ∷ []

generate_mapp-run :
    generate_mapp edge_in_chain choice
    ≡ ok (record { node_map = (2, 1) ∷ (3, 2) ∷ []; preserved = 5 ∷ []; consistent = true })
unfolding generate_mapp empty_graph add_vertex insert insert_id attach
generate_mapp-run = refl

generate_mapp_lem_example :
    (x : Filled) × (generate_mapp edge_in_chain choice ≡ ok x)
    × (x.consistent ≡ true → SendsAll pairs x.node_map)
    × ((f : Mapping) → SendsAll pairs f → (x.consistent ≡ true) × Extends f x.node_map)
unfolding chosen_edge empty_graph add_vertex insert attach
generate_mapp_lem_example =
    generate_mapp_lem edge_in_chain choice pairs ((refl, refl, tt), tt) ((refl, tt), tt)

-- Two vertices are merged, as the map demands.
abbrev merged : List (List ℕ)
merged = (1 ∷ 2 ∷ []) ∷ (3 ∷ []) ∷ []

abbrev map_to : Mapping
map_to = (1, 5) ∷ (2, 5) ∷ (3, 6) ∷ []

contraction_iff_example :
    (b : Bool) × (is_included_in merged (inverse map_to) ≡ some b)
    × (((is_finer merged map_to ≡ true) × (b ≡ true)) ↔ (
        (x y s t : ℕ)
        → get_tar map_to x ≡ some s
        → get_tar map_to y ≡ some t
        → (together merged x y ≡ true) ↔ (s ≡ t)))
contraction_iff_example =
    contraction_iff merged map_to (refl, (refl, (refl, tt))) (λ x t h. ground (arith, h))
      ((λ x c. ground (arith, c)), ((λ x c. refl), tt))

enough_isolated_lem_example :
    (enough_isolated merged map_to (pos 1) ≡ leb 1 (length (free_classes merged map_to)))
    × (enough_isolated merged map_to (negsuc 1) ≡ true)
enough_isolated_lem_example = enough_isolated_lem merged map_to 1
