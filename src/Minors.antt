-- ===== src/Minors.antt =====
-- src/minors/MinorOrder.cpp: the checks of the minor order on one choice of edges and contractions.
-- `is_finer`, `is_included_in` and `enough_isolated` compare a partition of the bigger graph's
-- vertices, which an edge contraction merges, with the map to the vertices of the smaller graph.
pub mod Contraction
pub mod Included
pub mod Isolation
pub mod Mapp
pub mod Chosen
pub mod Examples
use uncover.Base.{
  ℕ, zero, suc, ◌+◌, ◌-◌, List, [], ◌∷◌, Bool, true, false, not, ◌&&◌, ◌||◌, Option, none, some,
  length, some_of, all_of, lookup, insert, insert_id, contains, get_elem?, ◌==◌, ltb, if◌then◌else◌,
}
use uncover.Graphs.Hypergraph.{Hypergraph, Edge}
use uncover.Graphs.Mapping.{Mapping, has_src, get_tar}

-- The loop of isFiner over one class; the last argument is `id`, with 0 for no image so far.
pub finer_class : Mapping → List ℕ → ℕ → Bool
finer_class m [] id = true
finer_class m (x ∷ xs) id =
    let kept = finer_class m xs id in
    let started = (λ (t : ℕ). finer_class m xs t) in
    elim (get_tar m x) [
      | none ↦ kept
      | some t ↦ if id == 0 then started t else if id == t then kept else false
    ]

pub is_finer : List (List ℕ) → Mapping → Bool
unfolding finer_class
is_finer part m = all_of (λ c. finer_class m c 0) part

-- The first class that contains an ID.
pub find_class : ℕ → List (List ℕ) → Option (List ℕ)
find_class x [] = none
find_class x (c ∷ part) = let rest = find_class x part in if contains x c then some c else rest

-- isIncludedIn, for an inversion; `none` is the read of the first element of an empty set.
pub is_included_in : List (List ℕ) → List (ℕ × List ℕ) → Option Bool
unfolding find_class
is_included_in part [] = some true
is_included_in part ((t, []) ∷ inv) = none
is_included_in part ((t, x ∷ xs) ∷ inv) =
    let rest = is_included_in part inv in
    elim (find_class x part) [
      | none ↦ some false
      | some c ↦ if all_of (λ y. contains y c) xs then rest else some false
    ]

-- An `int`.
pub data ℤ : Type 0 where
  pos negsuc : ℕ → ℤ

-- The loop of enoughIsolated, for a positive number.
pub isolated_loop : List (List ℕ) → Mapping → ℕ → Bool
isolated_loop [] m num = false
isolated_loop (c ∷ part) m num =
    let left = (if some_of (has_src m) c then num + 1 else num) - 1 in
    let rest = isolated_loop part m left in if ltb 0 left then rest else true

pub enough_isolated : List (List ℕ) → Mapping → ℤ → Bool
unfolding isolated_loop
enough_isolated part m (negsuc n) = true
enough_isolated part m (pos zero) = true
enough_isolated part m (pos (suc n)) = isolated_loop part m (suc n)
