-- ===== src/Basic/IdPartitionEnumerator.antt =====
-- src/basic_types/IDPartitionEnumerator.cpp: the enumeration of the partitions of a set of IDs, which
-- merges pairs of classes of the partitions that were generated before. The vector and the set of
-- generated partitions hold the same, so the set is left out; a moved enumerator is not valid.
pub mod Merged
pub mod Kept
pub mod Read
pub mod Examples
use uncover.Base.{
  ℕ, suc, ◌+◌, List, [], ◌∷◌, ◌++◌, Bool, true, false, not, ◌&&◌, ◌||◌, Option, none, some, length,
  some_of, all_of, select, contains, insert_id, get_elem?, ltb, leb, ◌==◌, if◌then◌else◌,
}
use uncover.Basic.IdPartition.{same_set, insert_class, insert_range}

-- InvalidStateException, and the std::out_of_range of `at`.
pub data Fault : Type 0 where
  invalid_state out_of_range : Fault

pub data Result (A : Type 0) : Type 0 where
  ok : A → Result A
  err : Fault → Result A

pub record IdPartitionEnumerator : Type 0 where
  pub current : ℕ
  pub last_new : ℕ
  pub generated : List (List (List ℕ))
  pub valid : Bool

-- The loop of the constructor for a vector: every ID in a class of its own.
pub singletons : List ℕ → List ℕ → List (List ℕ) → List (List ℕ)
singletons seen [] part = part
singletons seen (x ∷ xs) part =
    let old = singletons seen xs part in
    let new = singletons (insert_id x seen) xs (insert_class (x ∷ []) part) in
    if contains x seen then old else new

pub new_enumerator_of : List ℕ → IdPartitionEnumerator
unfolding singletons
new_enumerator_of ids = record {
  current = 0;
  last_new = 0;
  generated = singletons [] ids [] ∷ [];
  valid = true;
}

abbrev pub ended : IdPartitionEnumerator → Bool
ended e = leb (length e.generated) e.current

-- `back()`
abbrev pub last_of : List (List (List ℕ)) → Option (List (List ℕ))
last_of [] = none
last_of (p ∷ []) = some p
last_of (p ∷ q ∷ ps) = last_of (q ∷ ps)

-- operator*; with nothing generated, `back` is undefined.
pub current_partition : IdPartitionEnumerator → Result (List (List ℕ))
current_partition e =
    let chosen = if ended e then last_of e.generated else get_elem? e.generated e.current in
    let found : Result (List (List ℕ)) = elim chosen [ none ↦ err out_of_range | some p ↦ ok p ] in
    if not e.valid then err invalid_state else found

pub reset_partitions : IdPartitionEnumerator → Result IdPartitionEnumerator
reset_partitions e =
    let begun : IdPartitionEnumerator = record e { current = 0 } in
    if not e.valid then err invalid_state else ok begun

-- baseSetSize reads `front` without the test.
abbrev pub base_set_size : IdPartitionEnumerator → Result ℕ
base_set_size e = elim e.generated [ [] ↦ err out_of_range | p ∷ _ ↦ ok (length p) ]

-- Equality of partitions.
abbrev pub same_partition : List (List ℕ) → List (List ℕ) → Bool
same_partition p q =
    all_of (λ c. some_of (same_set c) q) p && all_of (λ c. some_of (same_set c) p) q

abbrev pub erase_class : List ℕ → List (List ℕ) → List (List ℕ)
erase_class c part = select (λ d. not (same_set c d)) part

-- The partition with the two classes merged.
abbrev pub merge_classes : List ℕ → List ℕ → List (List ℕ) → List (List ℕ)
merge_classes outer inner part =
    insert_class (insert_range outer inner) (erase_class outer (erase_class inner part))

abbrev pub push_new : List (List ℕ) → List (List (List ℕ)) → List (List (List ℕ))
push_new part generated =
    if some_of (same_partition part) generated then generated else generated ++ part ∷ []

pub inner_loop :
    List (List ℕ) → List ℕ → List (List ℕ) → List (List (List ℕ)) → List (List (List ℕ))
inner_loop part outer [] generated = generated
inner_loop part outer (inner ∷ rest) generated = inner_loop part outer rest (
    if same_set outer inner then generated else push_new (merge_classes outer inner part) generated)

pub outer_loop : List (List ℕ) → List (List ℕ) → List (List (List ℕ)) → List (List (List ℕ))
unfolding inner_loop
outer_loop part [] generated = generated
outer_loop part (outer ∷ rest) generated =
    outer_loop part rest (inner_loop part outer part generated)

-- `genPartitionsVec->back()->size() == 1`
abbrev pub last_is_one : List (List (List ℕ)) → Bool
last_is_one [] = false
last_is_one (p ∷ []) = length p == 1
last_is_one (p ∷ q ∷ ps) = last_is_one (q ∷ ps)

abbrev pub step : IdPartitionEnumerator → List (List ℕ) → IdPartitionEnumerator
step e part =
    if leb (length part) 2 && last_is_one e.generated
    then record e { current = suc e.current; last_new = suc e.last_new }
    else (record e {
      current = suc e.current;
      last_new = suc e.last_new;
      generated = outer_loop part part e.generated;
    })

-- operator++
pub next_partition : IdPartitionEnumerator → Result IdPartitionEnumerator
unfolding outer_loop
next_partition e =
    let on : IdPartitionEnumerator = record e { current = suc e.current } in
    let stepped : Result IdPartitionEnumerator = elim (get_elem? e.generated e.current) [
      | none ↦ err out_of_range
      | some part ↦ ok (step e part)
    ] in
    if not e.valid
    then err invalid_state
    else if ended e
    then ok e
    else if ltb e.current e.last_new
    then ok on
    else stepped
