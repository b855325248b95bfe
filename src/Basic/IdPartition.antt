-- ===== src/Basic/IdPartition.antt =====
-- src/basic_types/IDPartition.h and IDPartition.cpp: partitions of IDs as sets of sets of IDs, and
-- the transitive closure of two of them. A set of classes is a list in the order of its iteration.
pub mod Disjoint
pub mod Closure
pub mod Examples
use uncover.Base.{
  ℕ, List, [], ◌∷◌, Bool, true, false, not, ◌&&◌, ◌||◌, some_of, all_of, contains, insert_id,
  if◌then◌else◌,
}

-- idpart_intersect
abbrev pub intersect : List ℕ → List ℕ → Bool
intersect c d = some_of (λ x. contains x d) c

-- `newClass.insert(begin, end)`
pub insert_range : List ℕ → List ℕ → List ℕ
insert_range c [] = c
insert_range c (x ∷ xs) = insert_range (insert_id x c) xs

-- The loop over the classes of the first partition: the new class, which starts from the third
-- argument, and the classes that are not erased behind it.
pub gather : List ℕ → List (List ℕ) → List ℕ → List ℕ × List (List ℕ)
unfolding insert_range
gather c [] new = (new, [])
gather c (d ∷ part) new =
    let merged = gather c part (insert_range new d) in
    let (n, kept) = gather c part new in if intersect c d then merged else (n, d ∷ kept)

-- Equality of sets.
abbrev pub same_set : List ℕ → List ℕ → Bool
same_set c d = all_of (λ x. contains x d) c && all_of (λ x. contains x c) d

-- `part1.insert(newClass)`
abbrev pub insert_class : List ℕ → List (List ℕ) → List (List ℕ)
insert_class c part = if some_of (same_set c) part then part else c ∷ part

-- One round of idpart_transitive_closure_into1.
pub absorb : List (List ℕ) → List ℕ → List (List ℕ)
unfolding gather
absorb part c = let (n, kept) = gather c part c in insert_class n kept

-- idpart_transitive_closure_into1, and idpart_transitive_closure, which works on a copy.
pub closure : List (List ℕ) → List (List ℕ) → List (List ℕ)
unfolding absorb
closure part [] = part
closure part (c ∷ part2) = closure (absorb part c) part2
