-- ===== src/Engine/MatchFinder/Isolated.antt =====
-- src/rule_engine/StdMatchFinder.cpp, mapIsolatedNodes and the two enumerations that it calls: the
-- vertices of the source without an edge are mapped in addition to the edges.
use uncover.Base.{
  ℕ, zero, suc, List, [], ◌∷◌, ◌++◌, true, false, not, none, some, length, select, insert, keys,
  contains, insert_id, erase_id, get_elem?, if◌then◌else◌,
}
use uncover.Graphs.Hypergraph.{Vertex}
use uncover.Graphs.Mapping.{Mapping, has_src, has_tar}
use uncover.Engine.ExpEnumerator.{ExpEnumerator, new_enumerator, can_count_up, next}
use uncover.Engine.MatchFinder.{
  Result, ◌>>=◌, Problem, err, ok, undefined_behaviour, out_of_range, out_of_fuel,
}

-- What the calls of enumAllIsoNodesInj share: `noTargets`, `currentMapping` and `allMappings`.
pub record Enumeration : Type 0 where
  pub no_targets : List ℕ
  pub current : Mapping
  pub all : List Mapping

-- The loop over the targets, with the recursive call as `go`.
unfoldable pub inj_targets : (Enumeration → Enumeration) → ℕ → List ℕ → Enumeration → Enumeration
inj_targets go i [] s = s
inj_targets go i (t ∷ ts) s =
    let entered : Enumeration = record s {
      no_targets = insert_id t s.no_targets;
      current = insert i t s.current;
    } in
    let left : Enumeration = go entered in
    let done : Enumeration = record left { no_targets = erase_id t left.no_targets } in
    inj_targets go i ts (if contains t s.no_targets then s else done)

-- enumAllIsoNodesInj, for the isolated vertices from some position on.
unfoldable pub enum_inj : List ℕ → List ℕ → Enumeration → Enumeration
unfolding inj_targets
enum_inj targets [] s = record s { all = s.all ++ s.current ∷ [] }
enum_inj targets (i ∷ is) s = inj_targets (enum_inj targets is) i targets s

-- The loop over the isolated vertices with the digits of the enumerator.
unfoldable pub assign : List ℕ → List ℕ → List ℕ → Mapping → Result Mapping
assign [] ds targets m = ok m
assign (i ∷ is) [] targets m = err undefined_behaviour
assign (i ∷ is) (d ∷ ds) targets m = elim (get_elem? targets d) [
  | none ↦ err out_of_range
  | some t ↦ assign is ds targets (insert i t m)
]

-- The loop of enumAllIsoNodesNonInj, on fuel.
unfoldable pub non_inj_loop :
    ℕ → List ℕ → List ℕ → ExpEnumerator → Mapping → List Mapping → Result (List Mapping)
unfolding assign can_count_up next
non_inj_loop zero is targets e m all = err out_of_fuel
non_inj_loop (suc n) is targets e m all = do
  m' ← assign is e.data_values targets m
  elim (can_count_up e) [
    | true ↦ non_inj_loop n is targets (next e) m' (all ++ m' ∷ [])
    | false ↦ ok (all ++ m' ∷ [])
  ]

unfoldable pub enum_non_inj : ℕ → List ℕ → List ℕ → Mapping → List Mapping → Result (List Mapping)
unfolding non_inj_loop new_enumerator
enum_non_inj n is [] m all = ok all
enum_non_inj n is (t ∷ ts) m all =
    let targets = t ∷ ts in
    non_inj_loop n is targets (new_enumerator (length targets) (length is)) m all

-- The inner loop of the injective case; its test reads through the iterator before it compares that
-- with the end.
unfoldable pub skip_used : Mapping → List (ℕ × Vertex) → Result (List (ℕ × Vertex))
skip_used m [] = err undefined_behaviour
skip_used m ((v, x) ∷ vs) = if has_tar m v then skip_used m vs else ok ((v, x) ∷ vs)

-- The outer loop; `none` is the return of the empty list.
unfoldable pub map_free : List ℕ → List (ℕ × Vertex) → Mapping → Result (List Mapping)
unfolding skip_used
map_free [] vs m = ok (m ∷ [])
map_free (i ∷ is) vs m = do
  rest ← skip_used m vs
  elim rest [ [] ↦ ok [] | (v, x) ∷ left ↦ map_free is ((v, x) ∷ left) (insert i v m) ]

unfoldable pub map_all_to : List ℕ → ℕ → Mapping → Mapping
map_all_to [] t m = m
map_all_to (i ∷ is) t m = map_all_to is t (insert i t m)

-- The loop over the mappings that were found, for one of them.
unfoldable pub extend_found : ℕ → Problem → List ℕ → Mapping → List Mapping → Result (List Mapping)
unfolding enum_inj enum_non_inj
extend_found n p isolated m all =
    let vertices = keys p.target.vertices in
    let start : Enumeration = record { no_targets = []; current = m; all = all } in
    if p.injective
    then ok (enum_inj (select (λ v. not (has_tar m v)) vertices) isolated start).all
    else enum_non_inj n isolated vertices m all

unfoldable pub extend_all :
    ℕ → Problem → List ℕ → List Mapping → List Mapping → Result (List Mapping)
unfolding extend_found
extend_all n p isolated [] all = ok all
extend_all n p isolated (m ∷ ms) all = do
  all' ← extend_found n p isolated m all
  extend_all n p isolated ms all'

-- The case of stopOnFirstFind.
unfoldable pub extend_first : Problem → List ℕ → Mapping → Result (List Mapping)
unfolding map_free map_all_to
extend_first p isolated m =
    if p.injective then map_free isolated p.target.vertices m else elim p.target.vertices [
      | [] ↦ err undefined_behaviour
      | (t, _) ∷ _ ↦ ok (map_all_to isolated t m ∷ [])
    ]

-- mapIsolatedNodes; the first argument is the fuel of the non-injective enumeration.
unfoldable pub map_isolated_nodes : ℕ → Problem → List Mapping → Result (List Mapping)
unfolding extend_first extend_all
map_isolated_nodes n p [] = ok []
map_isolated_nodes n p (m ∷ ms) =
    let isolated : List ℕ = select (λ v. not (has_src m v)) (keys p.source.vertices) in
    elim isolated [
      | [] ↦ ok (m ∷ ms)
      | i ∷ is ↦
          if p.stop_on_first then extend_first p (i ∷ is) m else extend_all n p (i ∷ is) (m ∷ ms) []
    ]
