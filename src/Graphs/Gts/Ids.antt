-- ===== src/Graphs/Gts/Ids.antt =====
-- The IDs of the parts of a system differ.
use uncover.Base.{
  ℕ, ◌≡◌, refl, List, [], ◌∷◌, ◌++◌, true, false, not, ◌||◌, some, arith, contains, some_of, ◌==◌,
  Bool-cases, inl, inr,
}
use uncover.Graphs.MinGraphList.Ids.{HasDistinctIds, ids_of}
use uncover.Graphs.Gts.{Gts, add_initial_graph}

module _ {G : Type 0} (get_id : G → ℕ) where
  some_of-ids : (i : ℕ) (l : List G) → some_of (λ x. get_id x == i) l ≡ contains i (ids_of get_id l)
  some_of-ids i [] = refl
  some_of-ids i (x ∷ l) = ground (arith, some_of-ids i l)

  ids_of-back :
      (i : ℕ) (l : List G) (g : G)
      → contains i (ids_of get_id (l ++ g ∷ [])) ≡ (contains i (ids_of get_id l) || get_id g == i)
  ids_of-back i [] g = ground arith
  ids_of-back i (x ∷ l) g = ground (arith, ids_of-back i l g)

  HasDistinctIds-back :
      (l : List G) (g : G)
      → HasDistinctIds get_id l
      → contains (get_id g) (ids_of get_id l) ≡ false
      → HasDistinctIds get_id (l ++ g ∷ [])
  HasDistinctIds-back [] g d c = (refl, tt)
  HasDistinctIds-back (x ∷ l) g d c =
      ground (arith, HasDistinctIds-back l g d.1, ids_of-back (get_id x) l g)

module _ {G R U : Type 0} (get_id : G → ℕ) where
  -- addInitialGraph keeps the IDs of the initial graphs distinct, adds a graph exactly if its ID
  -- is new, and says so; either way an initial graph with the ID is there afterwards.
  pub add_initial_graph_lem :
      (s : Gts G R U) (g : G)
      → HasDistinctIds get_id s.initial_graphs
      → let (t, added) = add_initial_graph get_id s (some g) in
        HasDistinctIds get_id t.initial_graphs
        × (added ≡ not (contains (get_id g) (ids_of get_id s.initial_graphs)))
        × (contains (get_id g) (ids_of get_id t.initial_graphs) ≡ true)
  unfolding add_initial_graph
  add_initial_graph_lem s g d =
      elim (Bool-cases (some_of (λ x. get_id x == get_id g) s.initial_graphs)) [
        | inl e ↦ rw e (
          d,
          ground (arith, some_of-ids get_id (get_id g) s.initial_graphs),
          ground (arith, some_of-ids get_id (get_id g) s.initial_graphs),
        )
        | inr e ↦ rw e (
          HasDistinctIds-back get_id s.initial_graphs g d
              (ground (arith, some_of-ids get_id (get_id g) s.initial_graphs)),
          ground (arith, some_of-ids get_id (get_id g) s.initial_graphs),
          ground (arith, ids_of-back get_id (get_id g) s.initial_graphs g),
        )
      ]
