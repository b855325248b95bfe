-- ===== src/Graphs/PathChecker.antt =====
-- src/graphs/PathChecker.h and PathChecker.cpp: the search for a path of a given length that uses
-- no vertex and no edge twice. The recursion is on the length that is left.
pub mod Correct
pub mod Examples
use uncover.Base.{
  ℕ, zero, suc, List, [], ◌∷◌, Bool, true, false, not, ◌&&◌, ◌||◌, none, some, some_of, keys,
  lookup, contains, insert_id, if◌then◌else◌,
}
use uncover.Graphs.Hypergraph.{Hypergraph, edges_at}

-- `getVerticesOfEdge`; the null pointer of a missing edge is taken for an edge without vertices,
-- a well-formed graph has none at a vertex.
abbrev pub nodes_of : Hypergraph → ℕ → List ℕ
nodes_of h e = elim (lookup e h.edges) [ none ↦ [] | some ed ↦ ed.vertices ]

-- The inner loop of findPath: `go` is the recursive call with the node marked in `visited`, and
-- `multi` is `multiNodes`.
pub try_nodes : (ℕ → List ℕ → Bool) → List ℕ → List ℕ → List ℕ → Bool
try_nodes go visited multi [] = false
try_nodes go visited multi (w ∷ ws) =
    let next = try_nodes go visited (insert_id w multi) ws in
    let skipped = try_nodes go visited multi ws in
    if not (contains w visited) && not (contains w multi)
    then (if go w (insert_id w visited) then true else next)
    else skipped

-- findPath, by the number of edges that the path still needs.
pub find_path : Hypergraph → ℕ → ℕ → List ℕ → Bool
unfolding try_nodes
find_path h zero v visited = true
find_path h (suc n) v visited =
    some_of
      (λ e.
        if contains e visited
        then false
        else try_nodes (find_path h n) (insert_id e visited) [] (nodes_of h e))
      (edges_at h.connected v)

pub has_path : Hypergraph → ℕ → Bool
unfolding find_path
has_path h length = some_of (λ v. find_path h length v (v ∷ [])) (keys h.vertices)
