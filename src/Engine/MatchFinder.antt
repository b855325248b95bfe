-- ===== src/Engine/MatchFinder.antt =====
-- src/rule_engine/StdMatchFinder.h and StdMatchFinder.cpp: the search for all matches of one graph
-- in another. This file maps the edges with the vertices attached to them, `Isolated` the vertices
-- that are left, and `Find` puts both together.
pub mod Possible
pub mod Partial
pub mod Extend
pub mod Undo
pub mod Nodes
pub mod Invariant
pub mod After
pub mod Round
pub mod Choose
pub mod Stable
pub mod Targets
pub mod Edges
pub mod Isolated
pub mod Find
pub mod Matches
pub mod Filled
pub mod Inj
pub mod Assign
pub mod NonInj
pub mod Free
pub mod Added
pub mod Every
pub mod Morphism
pub mod First
pub mod Total
pub mod Examples
use text.Mathlib.Text.{◌==◌ as str_eq}
use uncover.Base.{
  ℕ, zero, suc, List, [], ◌∷◌, ◌++◌, Bool, true, false, not, ◌&&◌, ◌||◌, Option, none, some, length,
  select, lookup, has_key, insert, keys, contains, insert_id, erase_id, ◌==◌, ltb, if◌then◌else◌,
}
use uncover.Graphs.Hypergraph.{Hypergraph, Edge, edges_at}
use uncover.Graphs.Mapping.{Mapping, has_src, get_tar, set_tar, del_all}

-- RunException, the std::out_of_range of `at`, and what the C++ standard leaves undefined: reading
-- behind the end of a container or through a null pointer. The last stands for fuel that runs out.
pub data Fault : Type 0 where
  run_exception out_of_range undefined_behaviour out_of_fuel : Fault

pub data Result (A : Type 0) : Type 0 where
  ok : A → Result A
  err : Fault → Result A

infixl 5 ◌>>=◌
abbrev pub ◌>>=◌ : {A B : Type 0} → Result A → (A → Result B) → Result B
ok a >>= f = f a
err e >>= f = err e

-- What the calls of mapEdges share: `mappableEdges`, `currentMapping`, `revCurrentMapping` and
-- `foundMappings`.
pub record Search : Type 0 where
  pub mappable : List ℕ
  pub current : Mapping
  pub rev_current : Mapping
  pub found : List Mapping

-- The state while an edge is mapped, with the three lists of differences.
pub record Extension : Type 0 where
  pub state : Search
  pub current_diff : List ℕ
  pub rev_diff : List ℕ
  pub mappable_diff : List ℕ

-- The members `matchInjective` and `stopOnFirstFind`, and the two graphs of a call of findMatches.
pub record Problem : Type 0 where
  pub injective : Bool
  pub stop_on_first : Bool
  pub source : Hypergraph
  pub target : Hypergraph

-- A mapping that has an entry for the source, and another one than the target.
abbrev pub clashes : Mapping → ℕ → ℕ → Bool
clashes m s t = elim (get_tar m s) [ none ↦ false | some u ↦ not (u == t) ]

-- `arity > lastArity`, where `none` is the initial -1.
abbrev pub is_better : Option (ℕ × ℕ) → ℕ → Bool
is_better none n = true
is_better (some (arity, _)) n = ltb arity n

-- The loop of getNewEntryPoint: the arity and the ID of the best edge so far.
pub entry_loop : Mapping → List (ℕ × Edge) → Option (ℕ × ℕ) → Option (ℕ × ℕ)
entry_loop current [] best = best
entry_loop current ((e, a) ∷ rest) best = entry_loop current rest (
    if not (has_src current e) && is_better best (length a.vertices)
    then some (length a.vertices, e)
    else best)

-- The target of the first vertex that is mapped.
pub first_mapped : Mapping → List ℕ → Option ℕ
first_mapped current [] = none
first_mapped current (v ∷ vs) =
    let rest = first_mapped current vs in elim (get_tar current v) [ none ↦ rest | some x ↦ some x ]

-- The loop with `dublicationCheck`.
pub unique_possible : (ℕ → Bool) → List ℕ → List ℕ → List ℕ
unique_possible p seen [] = []
unique_possible p seen (t ∷ ts) =
    let taken = unique_possible p (insert_id t seen) ts in
    let passed = unique_possible p seen ts in
    if not (contains t seen) && p t then t ∷ taken else passed

-- The loop over the edges at a vertex that has just been mapped.
pub mark_edges : List ℕ → Extension → Extension
mark_edges [] x = x
mark_edges (e ∷ es) x =
    let s = x.state in
    let marked : Extension = record x {
      state = record s { mappable = insert_id e s.mappable };
      mappable_diff = x.mappable_diff ++ e ∷ [];
    } in
    mark_edges es (if not (has_src s.current e) && not (contains e s.mappable) then marked else x)

pub erase_all : List ℕ → List ℕ → List ℕ
erase_all [] ids = ids
erase_all (e ∷ es) ids = erase_all es (erase_id e ids)

-- The state after a round is undone, with the differences of that round.
pub undo : Extension → Search → Search
unfolding erase_all
undo x s = record s {
  mappable = erase_all x.mappable_diff s.mappable;
  current = del_all s.current x.current_diff;
  rev_current = del_all s.rev_current x.rev_diff;
}

module _ (p : Problem) where
  open p use {injective, stop_on_first, source, target}

  -- The loop of isMapPossible over the attached vertices; the first argument is `tempMapping`.
  pub check_nodes : Mapping → Mapping → Mapping → List ℕ → List ℕ → Bool
  check_nodes temp current rev [] ts = true
  check_nodes temp current rev (s ∷ ss) [] = true
  check_nodes temp current rev (s ∷ ss) (t ∷ ts) =
      let rest = check_nodes (insert s t temp) current rev ss ts in
      if clashes current s t
      then false
      else if injective && clashes rev t s
      then false
      else if clashes temp s t
      then false
      else rest

  abbrev pub is_edge_possible : Mapping → Mapping → Edge → ℕ → Edge → Bool
  is_edge_possible current rev a t b =
      if not (injective && has_src rev t) && str_eq a.label b.label
      then (if length a.vertices == length b.vertices
          then check_nodes [] current rev a.vertices b.vertices
          else true)
      else false

  -- The IDs come from the two graphs; for others the code would use a null pointer.
  pub is_map_possible : ℕ → ℕ → Mapping → Mapping → Bool
  unfolding check_nodes
  is_map_possible e t current rev = elim (lookup e source.edges) [
    | none ↦ false
    | some a ↦ elim (lookup t target.edges) [
      | none ↦ false
      | some b ↦ is_edge_possible current rev a t b
    ]
  ]

  pub get_new_entry_point : Mapping → Result ℕ
  unfolding entry_loop
  get_new_entry_point current = elim (entry_loop current source.edges none) [
    | none ↦ err run_exception
    | some (_, e) ↦ ok e
  ]

  -- The two ways to find the edge that is mapped next, with its possible targets.
  pub from_new_entry : Search → Result (ℕ × List ℕ)
  unfolding is_map_possible get_new_entry_point
  from_new_entry s = do
    e ← get_new_entry_point s.current
    ok (e, select (λ t. is_map_possible e t s.current s.rev_current) (keys target.edges))

  pub from_node : ℕ → Search → Result (ℕ × List ℕ)
  unfolding is_map_possible first_mapped unique_possible
  from_node e s = elim (lookup e source.edges) [
    | none ↦ err undefined_behaviour
    | some a ↦ elim (first_mapped s.current a.vertices) [
      | none ↦ err run_exception
      | some x ↦
          if has_key x target.connected
          then ok (
            e,
            unique_possible (λ t. is_map_possible e t s.current s.rev_current) []
                (edges_at target.connected x),
          )
          else err run_exception
    ]
  ]

  pub choose : Search → Result (ℕ × List ℕ)
  unfolding from_new_entry from_node
  choose s = elim s.mappable [ [] ↦ from_new_entry s | e ∷ _ ↦ from_node e s ]

  -- `revCurrentMapping[t] = s` in the injective case.
  abbrev pub set_rev : ℕ → ℕ → Mapping → Mapping
  set_rev t s m = if injective then insert t s m else m

  abbrev pub add_rev_diff : ℕ → List ℕ → List ℕ
  add_rev_diff t ts = if injective then ts ++ t ∷ [] else ts

  -- One entry, for a vertex or an edge.
  abbrev pub map_one : ℕ → ℕ → Extension → Extension
  map_one s t x = record x {
    state = record x.state {
      current = insert s t x.state.current;
      rev_current = set_rev t s x.state.rev_current;
    };
    current_diff = x.current_diff ++ s ∷ [];
    rev_diff = add_rev_diff t x.rev_diff;
  }

  -- The loop over the attached vertices, which all have a set of edges, if only an empty one.
  pub map_nodes : List ℕ → List ℕ → Extension → Extension
  unfolding mark_edges
  map_nodes [] ts x = x
  map_nodes (s ∷ ss) [] x = x
  map_nodes (s ∷ ss) (t ∷ ts) x =
      let fresh = mark_edges (edges_at source.connected s) (map_one s t x) in
      map_nodes ss ts (if has_src x.state.current s then x else fresh)

  -- The changes of one round. If the source edge has more vertices than the target, the loop runs
  -- over the end of the latter.
  pub extend : Search → ℕ → ℕ → Result Extension
  unfolding map_nodes
  extend s e t =
      let x : Extension = record {
        state = s;
        current_diff = [];
        rev_diff = [];
        mappable_diff = [];
      } in
      elim (lookup e source.edges) [
        | none ↦ err undefined_behaviour
        | some a ↦ elim (lookup t target.edges) [
          | none ↦ err undefined_behaviour
          | some b ↦
              if ltb (length b.vertices) (length a.vertices)
              then err undefined_behaviour
              else ok (map_nodes a.vertices b.vertices (map_one e t x))
        ]
      ]

  -- The test after the recursive call.
  abbrev pub stops : Search → Bool
  stops s = stop_on_first && elim s.found [ [] ↦ false | _ ∷ _ ↦ true ]

  -- The loop over the possible targets, with the recursive call as `go`; the flag says that it has
  -- returned from mapEdges.
  pub try_targets : (Search → Result Search) → ℕ → List ℕ → Search → Result (Search × Bool)
  unfolding extend undo
  try_targets go e [] s = ok (s, false)
  try_targets go e (t ∷ ts) s = do
    x ← extend s e t
    s' ← go x.state
    elim (stops s') [ true ↦ ok (s', true) | false ↦ try_targets go e ts (undo x s') ]

  -- mapEdges, by `edgesToGo`.
  pub map_edges : ℕ → Search → Result Search
  unfolding choose try_targets
  map_edges zero s = ok (record s { found = s.found ++ s.current ∷ [] })
  map_edges (suc n) s = do
    (e, possible) ← choose s
    let deleted = contains e s.mappable
    (s', returned) ←
        try_targets (map_edges n) e possible (record s { mappable = erase_id e s.mappable })
    ok (if returned || not deleted then s' else record s' { mappable = insert_id e s'.mappable })
