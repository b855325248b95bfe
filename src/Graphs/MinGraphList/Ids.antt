-- ===== src/Graphs/MinGraphList/Ids.antt =====
-- The cache `idsInList`, and the method `contains` that reads it.
use uncover.Base.{
  sym, Bool-cases, inl, inr, true, ◌∙◌, ℕ, List, [], ◌∷◌, ◌≡◌, refl, Bool, true, false, not, ◌&&◌,
  ◌||◌, ◌==◌, arith, map, contains, contains-insert_id, contains-erase_id, erase_id, In,
}
use uncover.Graphs.MinGraphList.{empty_list, MinList, scan, add_graph, add_graphs, list_of}

module _ {G : Type 0} (get_id : G → ℕ) where
  -- MinGraphList::contains.
  unfoldable pub has_id : MinList G → ℕ → Bool
  has_id m i = contains i m.ids_in_list

  abbrev pub ids_of : List G → List ℕ
  ids_of = map get_id

  abbrev pub HasDistinctIds : List G → Type 0
  HasDistinctIds [] = Unit
  HasDistinctIds (x ∷ xs) = (contains (get_id x) (ids_of xs) ≡ false) × HasDistinctIds xs

  -- The cache holds the IDs of the stored graphs, and those differ.
  pub record IsIndexed (m : MinList G) : Type 0 where
    pub cached : (i : ℕ) → contains i m.ids_in_list ≡ contains i (ids_of m.graphs)
    pub distinct : HasDistinctIds m.graphs

module _ {G : Type 0} (get_id : G → ℕ) where
  pub contains-member : (l : List G) (g : G) → In g l → contains (get_id g) (ids_of get_id l) ≡ true
  contains-member [] g h = absurd h
  contains-member (x ∷ l) g h = ground (arith, contains-member l g)

  -- `contains` finds every stored graph.
  pub has_id-member :
      (m : MinList G) (g : G)
      → IsIndexed get_id m
      → In g m.graphs
      → has_id get_id m (get_id g) ≡ true
  unfolding has_id
  has_id-member m g v h = v.cached (get_id g) ∙ contains-member m.graphs g h

module _ {G : Type 0} (leq : G → G → Bool) (get_id : G → ℕ) where
  scan-ids :
      (g : G) (b : Bool) (l : List G) (ids : List ℕ) (i : ℕ)
      → let a = scan leq get_id g b l ids in
        contains i a.ids_in_list
        ≡ (contains i ids && not (contains i (ids_of get_id a.deleted)) || a.added && get_id g == i)
  unfolding scan
  scan-ids g b [] ids i = ground (arith, contains-insert_id (get_id g) i ids)
  scan-ids g b (x ∷ l) ids i = ground (
    arith,
    scan-ids g b l ids i,
    scan-ids g false l (erase_id (get_id x) ids) i,
    contains-erase_id (get_id x) i ids,
  )

  deleted-ids :
      (g : G) (b : Bool) (l : List G) (ids : List ℕ) (i : ℕ)
      → contains i (ids_of get_id l) ≡ false
      → contains i (ids_of get_id (scan leq get_id g b l ids).deleted) ≡ false
  unfolding scan
  deleted-ids g b [] ids i h = refl
  deleted-ids g b (x ∷ l) ids i h =
      ground (arith, deleted-ids g b l ids i, deleted-ids g false l (erase_id (get_id x) ids) i)

  graphs-ids :
      (g : G) (b : Bool) (l : List G) (ids : List ℕ) (i : ℕ)
      → HasDistinctIds get_id l
      → let a = scan leq get_id g b l ids in
        contains i (ids_of get_id a.graphs) ≡ (
          contains i (ids_of get_id l) && not (contains i (ids_of get_id a.deleted))
          || a.added && get_id g == i)
  unfolding scan
  graphs-ids g b [] ids i d = ground arith
  graphs-ids g b (x ∷ l) ids i d = ground (
    arith,
    graphs-ids g b l ids i d.1,
    graphs-ids g false l (erase_id (get_id x) ids) i d.1,
    deleted-ids g b l ids (get_id x) d.0,
    deleted-ids g false l (erase_id (get_id x) ids) (get_id x) d.0,
  )

  scan-HasDistinctIds :
      (g : G) (b : Bool) (l : List G) (ids : List ℕ)
      → HasDistinctIds get_id l
      → contains (get_id g) (ids_of get_id l) ≡ false
      → HasDistinctIds get_id (scan leq get_id g b l ids).graphs
  unfolding scan
  scan-HasDistinctIds g b [] ids d h = (refl, tt)
  scan-HasDistinctIds g b (x ∷ l) ids d h = ground (
    arith,
    scan-HasDistinctIds g b l ids d.1,
    scan-HasDistinctIds g false l (erase_id (get_id x) ids) d.1,
    graphs-ids g b l ids (get_id x) d.1,
  )

  -- addGraph keeps the cache of IDs in step with the list, given a graph whose ID is new.
  pub add_graph-IsIndexed :
      (m : MinList G) (g : G)
      → IsIndexed get_id m
      → has_id get_id m (get_id g) ≡ false
      → IsIndexed get_id (list_of leq get_id (add_graph leq get_id m g))
  unfolding add_graph has_id
  add_graph-IsIndexed m g v h = record {
    cached = λ i. ground (
      arith,
      scan-ids g true m.graphs m.ids_in_list i,
      graphs-ids g true m.graphs m.ids_in_list i v.distinct,
      v.cached i,
    );
    distinct =
        scan-HasDistinctIds g true m.graphs m.ids_in_list v.distinct
          (ground (arith, v.cached (get_id g)));
  }

  pub add_graph-has_id :
      (m : MinList G) (g : G) (i : ℕ)
      → has_id get_id m i ≡ false
      → (get_id g == i) ≡ false
      → has_id get_id (list_of leq get_id (add_graph leq get_id m g)) i ≡ false
  unfolding add_graph has_id
  add_graph-has_id m g i h e = ground (arith, scan-ids g true m.graphs m.ids_in_list i)

  -- None of the graphs has an ID of the list, and their IDs differ.
  abbrev pub AreNew : MinList G → List G → Type 0
  AreNew m [] = Unit
  AreNew m (g ∷ gs) =
      (has_id get_id m (get_id g) ≡ false)
      × (contains (get_id g) (ids_of get_id gs) ≡ false)
      × AreNew m gs

  add_graph-AreNew :
      (m : MinList G) (g : G) (gs : List G)
      → contains (get_id g) (ids_of get_id gs) ≡ false
      → AreNew m gs
      → AreNew (list_of leq get_id (add_graph leq get_id m g)) gs
  add_graph-AreNew m g [] c n = tt
  add_graph-AreNew m g (x ∷ gs) c n = (
    add_graph-has_id m g (get_id x) n.0 (ground arith),
    n.1,
    add_graph-AreNew m g gs (ground arith) n.2,
  )

  -- addGraphs keeps the cache of IDs in step with the list, given graphs with new IDs that differ.
  pub add_graphs-IsIndexed :
      (m : MinList G) (gs : List G)
      → IsIndexed get_id m
      → AreNew m gs
      → IsIndexed get_id (add_graphs leq get_id m gs).0
  unfolding add_graphs
  add_graphs-IsIndexed m [] v n = v
  add_graphs-IsIndexed m (g ∷ gs) v n =
      add_graphs-IsIndexed (list_of leq get_id (add_graph leq get_id m g)) gs
        (add_graph-IsIndexed m g v n.0) (add_graph-AreNew m g gs n.1 n.2)

module _ {G : Type 0} (leq : G → G → Bool) (get_id : G → ℕ) where
  -- Every graph is new to the empty list.
  pub AreNew-empty : (gs : List G) → HasDistinctIds get_id gs → AreNew leq get_id empty_list gs
  unfolding has_id
  AreNew-empty [] d = tt
  AreNew-empty (g ∷ gs) d = (refl, d.0, AreNew-empty gs d.1)

module _ {G : Type 0} (get_id : G → ℕ) where
  pub ids_of-member :
      (i : ℕ) (l : List G) → contains i (ids_of get_id l) ≡ true → (g : G) × In g l × (get_id g ≡ i)
  ids_of-member i [] h = cc
  ids_of-member i (x ∷ l) h = elim (Bool-cases (get_id x == i)) [
    | inl e ↦ (x, inl refl, ground arith)
    | inr ne ↦ let (g, j, e) = ids_of-member i l (rw ne at h) in (g, inr j, e)
  ]

  -- `contains` answers true for IDs of stored graphs only.
  pub has_id-graph :
      (m : MinList G) (i : ℕ)
      → IsIndexed get_id m
      → has_id get_id m i ≡ true
      → (g : G) × In g m.graphs × (get_id g ≡ i)
  unfolding has_id
  has_id-graph m i v h = ids_of-member i m.graphs (sym (v.cached i) ∙ h)
