-- ===== src/Graphs/MinGraphList/Covers.antt =====
-- The set of graphs that a MinGraphList stands for, the upward closure of its elements, and the
-- minimality of the list.
use uncover.Base.{
  ℕ, List, [], ◌∷◌, ◌++◌, ◌≡◌, refl, Bool, true, false, not, ◌||◌, arith, all_of, select,
  Bool-cases, inl, inr, In, ◌⊎◌, erase_id,
}
use uncover.Graphs.MinGraphList.{MinList, scan, add_graph, add_graphs, list_of}
use uncover.Graphs.MinGraphList.Spec.{covers, apart, IsMinimal, add_graph_lem}

module _ {G : Type 0} (leq : G → G → Bool) where
  all_of-select-concat :
      (p q : G → Bool) (g : G) (l : List G)
      → all_of p l ≡ true
      → p g ≡ true
      → all_of p (select q l ++ g ∷ []) ≡ true
  all_of-select-concat p q g [] a h = ground arith
  all_of-select-concat p q g (x ∷ l) a h = ground (arith, all_of-select-concat p q g l)

  -- What is left beside a graph that the list does not cover has no comparable pair either.
  pub select-IsMinimal :
      (g : G) (l : List G)
      → IsMinimal leq l
      → covers leq l g ≡ false
      → IsMinimal leq (select (λ x. not (leq g x)) l ++ g ∷ [])
  select-IsMinimal g [] m c = (refl, tt)
  select-IsMinimal g (x ∷ l) m c = ground (
    arith,
    select-IsMinimal g l m.1,
    all_of-select-concat (apart leq x) (λ y. not (leq g y)) g l m.0,
  )

module _ {G : Type 0} (leq : G → G → Bool) (get_id : G → ℕ)
    (leq_trans : (a b c : G) → leq a b ≡ true → leq b c ≡ true → leq a c ≡ true) where
  pub covers_trans :
      (g x : G) (l : List G) → covers leq l g ≡ true → leq g x ≡ true → covers leq l x ≡ true
  covers_trans g x [] c h = cc
  covers_trans g x (y ∷ l) c h = ground (arith, covers_trans g x l, leq_trans y g x)

  scan-covers :
      (g x : G) (b : Bool) (l : List G) (ids : List ℕ)
      → covers leq (scan leq get_id g b l ids).graphs x ≡ (covers leq l x || leq g x)
  unfolding scan
  scan-covers g x b [] ids = ground arith
  scan-covers g x b (y ∷ l) ids = ground (
    arith,
    scan-covers g x b l ids,
    scan-covers g x false l (erase_id (get_id y) ids),
    leq_trans g y x,
    leq_trans y g x,
  )

  -- addGraph adds to the graphs that the list covers exactly those above the given graph, whether
  -- it stores the graph or not, whatever the list was. For a transitive order.
  pub covers-add_graph :
      (m : MinList G) (g x : G)
      → covers leq (add_graph leq get_id m g).graphs x ≡ (covers leq m.graphs x || leq g x)
  unfolding add_graph
  covers-add_graph m g x = scan-covers g x true m.graphs m.ids_in_list

  -- addGraph keeps the list free of comparable graphs. For a transitive order.
  pub add_graph-IsMinimal :
      (m : MinList G) (g : G)
      → IsMinimal leq m.graphs
      → IsMinimal leq (add_graph leq get_id m g).graphs
  add_graph-IsMinimal m g h =
      let r = add_graph_lem leq get_id leq_trans m g h in
      rw r.graphs (elim (Bool-cases (covers leq m.graphs g)) [
        | inl e ↦ rw e h
        | inr e ↦ rw e (select-IsMinimal leq g m.graphs h e)
      ])

  -- After addGraphs the list covers exactly what it covered before and what lies above one of the
  -- given graphs, whatever the order in which they came. For a transitive order.
  pub covers-add_graphs :
      (m : MinList G) (gs : List G) (x : G)
      → covers leq (add_graphs leq get_id m gs).0.graphs x
        ≡ (covers leq m.graphs x || covers leq gs x)
  unfolding add_graphs
  covers-add_graphs m [] x = ground arith
  covers-add_graphs m (g ∷ gs) x = ground (
    arith,
    covers-add_graphs (list_of leq get_id (add_graph leq get_id m g)) gs x,
    covers-add_graph m g x,
  )

  -- addGraphs keeps the list free of comparable graphs. For a transitive order.
  pub add_graphs-IsMinimal :
      (m : MinList G) (gs : List G)
      → IsMinimal leq m.graphs
      → IsMinimal leq (add_graphs leq get_id m gs).0.graphs
  unfolding add_graphs
  add_graphs-IsMinimal m [] h = h
  add_graphs-IsMinimal m (g ∷ gs) h =
      add_graphs-IsMinimal (list_of leq get_id (add_graph leq get_id m g)) gs
        (add_graph-IsMinimal m g h)

module _ {G : Type 0} (leq : G → G → Bool) (get_id : G → ℕ) where
  scan-In :
      (g x : G) (b : Bool) (l : List G) (ids : List ℕ)
      → In x (scan leq get_id g b l ids).graphs
      → In x l ⊎ (x ≡ g) × ((scan leq get_id g b l ids).added ≡ true)
  unfolding scan
  scan-In g x b [] ids h = ground arith
  scan-In g x b (y ∷ l) ids h =
      ground (arith, scan-In g x b l ids, scan-In g x false l (erase_id (get_id y) ids))

  -- addGraph invents no graph, and stores a new one only if it says so.
  pub add_graph-In :
      (m : MinList G) (g x : G)
      → In x (add_graph leq get_id m g).graphs
      → In x m.graphs ⊎ (x ≡ g) × ((add_graph leq get_id m g).added ≡ true)
  unfolding add_graph
  add_graph-In m g x h = scan-In g x true m.graphs m.ids_in_list h

  scan-added :
      (g : G) (b : Bool) (l : List G) (ids : List ℕ)
      → (scan leq get_id g b l ids).added ≡ true
      → In g (scan leq get_id g b l ids).graphs
  unfolding scan
  scan-added g b [] ids h = ground arith
  scan-added g b (y ∷ l) ids h =
      ground (arith, scan-added g b l ids, scan-added g false l (erase_id (get_id y) ids))

  -- A call that returns true has stored the graph.
  pub add_graph-added :
      (m : MinList G) (g : G)
      → (add_graph leq get_id m g).added ≡ true
      → In g (add_graph leq get_id m g).graphs
  unfolding add_graph
  add_graph-added m g h = scan-added g true m.graphs m.ids_in_list h

  pub add_graphs-In :
      (m : MinList G) (gs : List G) (x : G)
      → In x (add_graphs leq get_id m gs).0.graphs
      → In x m.graphs ⊎ In x gs
  unfolding add_graphs
  add_graphs-In m [] x h = inl h
  add_graphs-In m (g ∷ gs) x h = ground (
    arith,
    add_graphs-In (list_of leq get_id (add_graph leq get_id m g)) gs x h,
    add_graph-In m g x,
  )

-- A graph of the list is covered by it, if the order is reflexive.
pub covers_member :
    {G : Type 0} (leq : G → G → Bool) (refl_leq : (a : G) → leq a a ≡ true) (l : List G) (x : G)
    → In x l
    → covers leq l x ≡ true
covers_member leq refl_leq [] x h = absurd h
covers_member leq refl_leq (y ∷ l) x h = ground (arith, covers_member leq refl_leq l x, refl_leq x)

pub covers-cases :
    {G : Type 0} (leq : G → G → Bool) (l : List G) (x : G)
    → covers leq l x ≡ true
    → (y : G) × In y l × (leq y x ≡ true)
covers-cases leq [] x h = cc
covers-cases leq (y ∷ l) x h = elim (Bool-cases (leq y x)) [
  | inl e ↦ (y, inl refl, e)
  | inr ne ↦ let (z, i, e) = covers-cases leq l x (rw ne at h) in (z, inr i, e)
]
