-- ===== src/Engine/MatchFinder/Undo.antt =====
-- The lists of differences of mapEdges: a round of the loop is undone by deleting what they name.
use uncover.Base.{
  IsOrdered, ℕ, ◌≡◌, refl, List, [], ◌∷◌, ◌++◌, false, not, ◌&&◌, none, arith, contains, insert,
  lookup-insert, insert_id, erase_id, contains-insert_id, contains-erase_id, contains-append,
  if◌then◌else◌, ◌∙◌,
}
use uncover.Graphs.Mapping.{Mapping, get_tar}
use uncover.Graphs.Mapping.Delete.{del_all-get_tar, del_all-IsOrdered}
use uncover.Engine.MatchFinder.{Search, Extension, erase_all, undo}

-- Without the entries that a list of differences names, the mapping is the one before.
abbrev pub Restores : Mapping → List ℕ → Mapping → Type 0
Restores m diff before =
    (i : ℕ) → (if contains i diff then none else get_tar m i) ≡ get_tar before i

abbrev pub RestoresIds : List ℕ → List ℕ → List ℕ → Type 0
RestoresIds ids diff before =
    (i : ℕ) → (not (contains i diff) && contains i ids) ≡ contains i before

pub Restores-fresh :
    (m : Mapping) (diff : List ℕ) (before : Mapping) (s : ℕ)
    → Restores m diff before
    → get_tar m s ≡ none
    → get_tar before s ≡ none
Restores-fresh m diff before s r h = ground (arith, r s)

pub Restores-insert :
    (m : Mapping) (diff : List ℕ) (before : Mapping) (s t : ℕ)
    → Restores m diff before
    → get_tar before s ≡ none
    → Restores (insert s t m) (diff ++ s ∷ []) before
Restores-insert m diff before s t r h =
    λ i. ground (arith, r i, lookup-insert s i t m, contains-append i diff (s ∷ []), h)

pub RestoresIds-insert :
    (ids diff before : List ℕ) (e : ℕ)
    → RestoresIds ids diff before
    → contains e ids ≡ false
    → RestoresIds (insert_id e ids) (diff ++ e ∷ []) before
RestoresIds-insert ids diff before e r h =
    λ i. ground (arith, r i, r e, contains-insert_id e i ids, contains-append i diff (e ∷ []))

erase_all-contains :
    (es ids : List ℕ) (i : ℕ)
    → contains i (erase_all es ids) ≡ (not (contains i es) && contains i ids)
unfolding erase_all
erase_all-contains [] ids i = refl
erase_all-contains (e ∷ es) ids i =
    ground (arith, erase_all-contains es (erase_id e ids) i, contains-erase_id e i ids)

-- The two states agree, up to the mappings that were found and the order of the entries.
pub record Same (s s' : Search) : Type 0 where
  pub current : (i : ℕ) → get_tar s.current i ≡ get_tar s'.current i
  pub rev_current : (i : ℕ) → get_tar s.rev_current i ≡ get_tar s'.rev_current i
  pub mappable : (i : ℕ) → contains i s.mappable ≡ contains i s'.mappable
  pub ordered : IsOrdered s'.current

pub Same-trans : (s s' s'' : Search) → Same s s' → Same s' s'' → Same s s''
Same-trans s s' s'' a b = record {
  current = λ i. a.current i ∙ b.current i;
  rev_current = λ i. a.rev_current i ∙ b.rev_current i;
  mappable = λ i. a.mappable i ∙ b.mappable i;
  ordered = b.ordered;
}

-- Undoing a round from a state that agrees with the one after its changes gives the state before.
pub undo-Same :
    (s s' : Search) (x : Extension)
    → Restores x.state.current x.current_diff s.current
    → Restores x.state.rev_current x.rev_diff s.rev_current
    → RestoresIds x.state.mappable x.mappable_diff s.mappable
    → Same x.state s'
    → Same s (undo x s')
unfolding undo
undo-Same s s' x r b d same = record {
  current = λ i. ground (arith, r i, same.current i, del_all-get_tar s'.current x.current_diff i);
  rev_current =
      λ i. ground (arith, b i, same.rev_current i, del_all-get_tar s'.rev_current x.rev_diff i);
  mappable =
      λ i. ground (arith, d i, same.mappable i, erase_all-contains x.mappable_diff s'.mappable i);
  ordered = del_all-IsOrdered s'.current x.current_diff same.ordered;
}
