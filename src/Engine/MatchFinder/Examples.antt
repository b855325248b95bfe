-- ===== src/Engine/MatchFinder/Examples.antt =====
-- A search on two graphs with two edges each: both edges of `fork` leave one vertex, so without the
-- demand that a match is injective both go to either edge of `chain`.
use uncover.Engine.MatchFinder.First.{Enough}
use uncover.Engine.MatchFinder.Total.{Answers, find_matches_lem}
use uncover.Engine.MatchFinder.{Extension, extend, undo, is_map_possible}
use uncover.Engine.MatchFinder.Undo.{Same}
use uncover.Engine.MatchFinder.Round.{extend-undo}
use uncover.Engine.MatchFinder.Choose.{Choice, choose_lem}
use uncover.Engine.MatchFinder.Isolated.{Enumeration, enum_inj, enum_non_inj, map_free}
use uncover.Engine.MatchFinder.Inj.{Enumerated, Any, enum_inj_lem}
use uncover.Engine.MatchFinder.Added.{Listed, enum_non_inj-Listed}
use uncover.Engine.MatchFinder.Free.{IsFresh, map_free_lem}
use uncover.Engine.MatchFinder.Filled.{IsFilled}
use uncover.Graphs.Hypergraph.{Vertex}
use uncover.Base.{
  Bool, insert_id, erase_id, erase, ◌≡◌, ◌≢◌, refl, List, [], ◌∷◌, true, false, arith, In, length,
  all_of, IsOrdered, ◌==◌, all_of-entries, insert, ℕ,
}
use uncover.Graphs.Hypergraph.{attach, Hypergraph, Edge, empty_graph, add_vertex, attach}
use uncover.Graphs.Hypergraph.Examples.{fork, chain, fork-IsWf, chain-IsWf}
use uncover.Graphs.Mapping.{del_all, del_src, Mapping}
use uncover.Engine.MatchFinder.{ok, Problem, Search, map_edges}
use uncover.Engine.MatchFinder.Possible.{SameArity}
use uncover.Engine.MatchFinder.Invariant.{Input}
use uncover.Engine.MatchFinder.Targets.{IsEdgeMatch, IsCandidate, Hit, Promise}
use uncover.Engine.MatchFinder.Edges.{map_edges_lem}
use uncover.Engine.MatchFinder.Find.{empty_search, match_edges, find_matches}
use uncover.Engine.MatchFinder.Matches.{empty_search-Invariant, match_edges_lem}

-- Graphs whose edges all have two vertices.
all_binary-SameArity :
    (source target : Hypergraph)
    → IsOrdered source.edges
    → IsOrdered target.edges
    → all_of (λ k. length k.1.vertices == 2) source.edges ≡ true
    → all_of (λ k. length k.1.vertices == 2) target.edges ≡ true
    → SameArity source target
all_binary-SameArity source target o o' h h' e t a b is_a is_b l =
    let first =
      (all_of-entries (λ (k : Edge). length k.vertices == 2) source.edges o).0 h e a is_a in
    let second =
      (all_of-entries (λ (k : Edge). length k.vertices == 2) target.edges o').0 h' t b is_b in
    ground (arith, first, second)

abbrev pub fork_to_chain : Bool → Bool → Problem
fork_to_chain injective stop = record {
  injective = injective;
  stop_on_first = stop;
  source = fork;
  target = chain;
}

abbrev fork_in_chain : Problem
fork_in_chain = fork_to_chain false false

pub fork_to_chain-Input : (injective stop : Bool) → Input (fork_to_chain injective stop)
unfolding empty_graph add_vertex insert
fork_to_chain-Input injective stop = record {
  source_wf = fork-IsWf;
  target_wf = chain-IsWf;
  ordered = (refl, (refl, tt));
  source_ordered = (refl, (refl, (refl, tt)));
  target_ordered = (refl, (refl, (refl, tt)));
  target_edges_ordered = (refl, (refl, tt));
  same_arity = all_binary-SameArity fork chain (refl, (refl, tt)) (refl, (refl, tt)) refl refl;
}

-- Both matches of the edges, and no injective one.
match_edges-run :
    match_edges fork_in_chain
    ≡ ok (
        (((1, 1) ∷ (2, 2) ∷ (3, 2) ∷ (4, 4) ∷ (5, 4) ∷ []))
        ∷ (((1, 2) ∷ (2, 3) ∷ (3, 3) ∷ (4, 5) ∷ (5, 5) ∷ []))
        ∷ [])
unfolding match_edges empty_graph add_vertex insert attach insert_id erase_id erase del_all del_src
match_edges-run = refl

find_matches-run : find_matches 0 (record fork_in_chain { injective = true }) ≡ ok []
unfolding find_matches empty_graph add_vertex insert attach insert_id erase_id erase del_all del_src
find_matches-run = refl

map_edges_lem_example :
    (s : Search) × (map_edges fork_in_chain 2 empty_search ≡ ok s)
    × Promise fork_in_chain empty_search s
map_edges_lem_example =
    map_edges_lem fork_in_chain 2 empty_search (fork_to_chain-Input false false)
      (empty_search-Invariant fork_in_chain)

match_edges_lem_example :
    (ms : List Mapping) × (match_edges fork_in_chain ≡ ok ms)
    × ((m : Mapping) → In m ms → IsEdgeMatch fork_in_chain m)
    × ((f : Mapping)
        → IsCandidate fork_in_chain f
        → (ms ≢ []) × (fork_in_chain.stop_on_first ≡ false → Hit f ms))
match_edges_lem_example = match_edges_lem fork_in_chain (fork_to_chain-Input false false)

-- Three vertices to three vertices need at most 27 sequences.
pub fork_to_chain-Enough : (injective stop : Bool) → Enough (fork_to_chain injective stop) 27
unfolding empty_graph add_vertex insert
fork_to_chain-Enough injective stop = record {
  small = ground arith;
  fuel = ground arith;
  target = λ i s. ground arith;
}

find_matches_lem_example :
    (ms : List Mapping) × (find_matches 27 fork_in_chain ≡ ok ms) × Answers fork_in_chain ms
find_matches_lem_example =
    find_matches_lem fork_in_chain 27 (fork_to_chain-Input false false)
      (fork_to_chain-Enough false false)

choose_lem_example : (e : ℕ) × (ts : List ℕ) × Choice fork_in_chain empty_search e ts
choose_lem_example =
    choose_lem fork_in_chain 1 empty_search (fork_to_chain-Input false false)
      (empty_search-Invariant fork_in_chain)

extend-undo_example :
    (x : Extension) × (extend fork_in_chain empty_search 4 5 ≡ ok x)
    × Same empty_search (undo x x.state)
unfolding is_map_possible empty_graph add_vertex insert
extend-undo_example =
    extend-undo fork_in_chain 1 4 5 empty_search (fork_to_chain-Input false false)
      (empty_search-Invariant fork_in_chain) refl refl refl

-- The vertices 1 and 2 to the targets 6 and 7, while the edge 4 is mapped.
abbrev edge_4 : Mapping
edge_4 = (4, 9) ∷ []

abbrev nothing_taken : Enumeration
nothing_taken = record { no_targets = []; current = edge_4; all = [] }

enum_inj_lem_example :
    Enumerated
      (6 ∷ 7 ∷ [])
      (1 ∷ 2 ∷ [])
      Any
      nothing_taken
      (enum_inj (6 ∷ 7 ∷ []) (1 ∷ 2 ∷ []) nothing_taken)
enum_inj_lem_example = enum_inj_lem (6 ∷ 7 ∷ []) (1 ∷ 2 ∷ []) nothing_taken (refl, (refl, tt))

enum_non_inj-Listed_example :
    (all : List Mapping) × (enum_non_inj 4 (1 ∷ 2 ∷ []) (6 ∷ 7 ∷ []) edge_4 [] ≡ ok all)
    × Listed (1 ∷ 2 ∷ []) (6 ∷ 7 ∷ []) edge_4 [] all
enum_non_inj-Listed_example =
    enum_non_inj-Listed 4 1 (2 ∷ []) (6 ∷ 7 ∷ []) edge_4 [] (refl, (refl, tt)) (ground arith)
      (ground arith)

-- The vertex 6 is in use.
abbrev three_vertices : List (ℕ × Vertex)
three_vertices = (6, record { id = 6 }) ∷ (7, record { id = 7 }) ∷ (8, record { id = 8 }) ∷ []

map_free_lem_example :
    (m : Mapping) × (map_free (1 ∷ 2 ∷ []) three_vertices ((3, 6) ∷ []) ≡ ok (m ∷ []))
    × IsFilled (1 ∷ 2 ∷ []) (6 ∷ 7 ∷ 8 ∷ []) ((3, 6) ∷ []) m
    × IsFresh (1 ∷ 2 ∷ []) ((3, 6) ∷ []) m
map_free_lem_example =
    map_free_lem (1 ∷ 2 ∷ []) three_vertices ((3, 6) ∷ []) (refl, (refl, tt))
      (λ i c. ground (arith, c)) (refl, (refl, (refl, tt))) (ground arith)
