-- ===== src/Graphs/MinGraphList/Spec.antt =====
-- What addGraph does, without its flag: a reference definition that scans the list twice.
use uncover.Base.{
  ℕ, List, [], ◌∷◌, ◌++◌, ◌≡◌, refl, Bool, true, false, not, ◌&&◌, arith, some_of, all_of, select,
  if◌then◌else◌, erase_id,
}
use uncover.Graphs.MinGraphList.{MinList, Addition, scan, add_graph}

module _ {G : Type 0} (leq : G → G → Bool) where
  -- Some element of the list is less than or equal to the graph.
  abbrev pub covers : List G → G → Bool
  covers l x = some_of (λ y. leq y x) l

  abbrev pub apart : G → G → Bool
  apart x y = not (leq x y) && not (leq y x)

  -- No two graphs of the list are comparable.
  abbrev pub IsMinimal : List G → Type 0
  IsMinimal [] = Unit
  IsMinimal (x ∷ xs) = (all_of (apart x) xs ≡ true) × IsMinimal xs

  -- What one call leaves, deletes and returns, in one record.
  pub record Result (g : G) (l : List G) (a : Addition G) : Type 0 where
    pub graphs : a.graphs ≡ (if covers l g then l else select (λ x. not (leq g x)) l ++ g ∷ [])
    pub deleted : a.deleted ≡ (if covers l g then [] else select (leq g) l)
    pub added : a.added ≡ not (covers l g)

module _ {G : Type 0} (leq : G → G → Bool) (get_id : G → ℕ)
    (leq_trans : (a b c : G) → leq a b ≡ true → leq b c ≡ true → leq a c ≡ true) where
  -- Behind a deleted graph `d` nothing is below `g`: it would be below `d`.
  pub not_below :
      (g d : G) (l : List G)
      → leq g d ≡ true
      → all_of (apart leq d) l ≡ true
      → covers leq l g ≡ false
  not_below g d [] h a = refl
  not_below g d (x ∷ l) h a = ground (arith, not_below g d l h, leq_trans x g d)

  -- Once the flag is cleared, every graph above `g` goes and `g` comes last.
  scan_cleared :
      (g : G) (l : List G) (ids : List ℕ)
      → ((scan leq get_id g false l ids).graphs ≡ select (λ x. not (leq g x)) l ++ g ∷ [])
        × ((scan leq get_id g false l ids).deleted ≡ select (leq g) l)
        × ((scan leq get_id g false l ids).added ≡ true)
  unfolding scan
  scan_cleared g [] ids = (refl, refl, refl)
  scan_cleared g (x ∷ l) ids =
      ground (arith, scan_cleared g l ids, scan_cleared g l (erase_id (get_id x) ids))

  scan_lem :
      (g : G) (l : List G) (ids : List ℕ)
      → IsMinimal leq l
      → Result leq g l (scan leq get_id g true l ids)
  unfolding scan
  scan_lem g [] ids m = record { graphs = refl; deleted = refl; added = refl }
  scan_lem g (x ∷ l) ids m =
      ground
        (arith, scan_lem g l ids m.1, scan_cleared g l (erase_id (get_id x) ids), not_below g x l)

  -- On a list without comparable graphs, addGraph refuses exactly the graphs that the list covers
  -- and then changes nothing; any other graph it appends, after it has deleted exactly the graphs
  -- above it, in their order. For a transitive order.
  pub add_graph_lem :
      (m : MinList G) (g : G)
      → IsMinimal leq m.graphs
      → Result leq g m.graphs (add_graph leq get_id m g)
  unfolding add_graph
  add_graph_lem m g h = scan_lem g m.graphs m.ids_in_list h
