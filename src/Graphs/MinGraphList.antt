-- ===== src/Graphs/MinGraphList.antt =====
-- src/graphs/MinGraphList.h and MinGraphList.cpp. The graphs are a type with an ID and an order
-- (the interface basic_types::Order), so this file holds for every order of the program.
pub mod Spec
pub mod Covers
pub mod Ids
pub mod Examples
use uncover.Base.{
  ℕ, List, [], ◌∷◌, Bool, true, false, ◌&&◌, length, contains, insert_id, erase_id, if◌then◌else◌,
}

-- The fields `graphs` and `idsInList`.
pub record MinList (G : Type 0) : Type 0 where
  pub graphs : List G
  pub ids_in_list : List ℕ

-- What a call of addGraph leaves and reports: the two fields, the graphs that it appended to
-- `deletedGraphs`, the calls of resHandler->wasDeletedBecauseOf (the deleted ID, the ID because of
-- which it was deleted) and the returned flag.
pub record Addition (G : Type 0) : Type 0 where
  pub graphs : List G
  pub ids_in_list : List ℕ
  pub deleted : List G
  pub reports : List (ℕ × ℕ)
  pub added : Bool

module _ {G : Type 0} (leq : G → G → Bool) (get_id : G → ℕ) where
  -- The `while` loop of addGraph from the iterator `it` on, and the `push_back` behind it.
  -- `can_be_larger` is the local flag.
  pub scan : G → Bool → List G → List ℕ → Addition G
  unfolding insert_id erase_id
  scan g can_be_larger [] ids = record {
    graphs = g ∷ [];
    ids_in_list = insert_id (get_id g) ids;
    deleted = [];
    reports = [];
    added = true;
  }
  scan g can_be_larger (x ∷ rest) ids =
      let dropped = scan g false rest (erase_id (get_id x) ids) in
      let kept = scan g can_be_larger rest ids in
      if can_be_larger && leq x g
      then record {
        graphs = x ∷ rest;
        ids_in_list = ids;
        deleted = [];
        reports = (get_id g, get_id x) ∷ [];
        added = false;
      }
      else if leq g x
      then record dropped {
        deleted = x ∷ dropped.deleted;
        reports = (get_id x, get_id g) ∷ dropped.reports;
      }
      else record kept { graphs = x ∷ kept.graphs }

  unfoldable pub add_graph : MinList G → G → Addition G
  unfolding scan
  add_graph m g = scan g true m.graphs m.ids_in_list

  abbrev pub list_of : Addition G → MinList G
  list_of a = record { graphs = a.graphs; ids_in_list = a.ids_in_list }

  -- The loop of addGraphs, and the number that it returns.
  unfoldable pub add_graphs : MinList G → List G → MinList G × ℕ
  unfolding add_graph
  add_graphs m [] = (m, length m.graphs)
  add_graphs m (g ∷ gs) = add_graphs (list_of (add_graph m g)) gs

abbrev pub empty_list : {G : Type 0} → MinList G
empty_list = record { graphs = []; ids_in_list = [] }
