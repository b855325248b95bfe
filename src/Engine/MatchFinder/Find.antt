-- ===== src/Engine/MatchFinder/Find.antt =====
-- src/rule_engine/StdMatchFinder.cpp, findMatches.
use uncover.Base.{ℕ, zero, suc, List, [], Bool, ◌&&◌, ◌||◌, length, ltb, if◌then◌else◌, ◌∷◌}
use uncover.Graphs.Mapping.{Mapping}
use uncover.Engine.MatchFinder.{Result, ◌>>=◌, Problem, Search, map_edges, ok}
use uncover.Engine.MatchFinder.Isolated.{map_isolated_nodes}

abbrev pub empty_search : Search
empty_search = record { mappable = []; current = []; rev_current = []; found = [] }

abbrev pub too_big : Problem → Bool
too_big p =
    p.injective
    && (ltb (length p.target.vertices) (length p.source.vertices)
        || ltb (length p.target.edges) (length p.source.edges))

-- The matches of the edges, before the isolated vertices are mapped.
unfoldable pub match_edges : Problem → Result (List Mapping)
unfolding map_edges
match_edges p = elim (length p.source.edges) [
  | zero ↦ ok ([] ∷ [])
  | suc n ↦ do s ← map_edges p (suc n) empty_search; ok s.found
]

unfoldable pub find_matches : ℕ → Problem → Result (List Mapping)
unfolding match_edges map_isolated_nodes
find_matches n p =
    let search = match_edges p >>= map_isolated_nodes n p in if too_big p then ok [] else search
