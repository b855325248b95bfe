-- ===== src/Basic/IdPartitionEnumerator/Examples.antt =====
-- The partitions of three IDs, one of which is given twice.
use uncover.Basic.IdPartitionEnumerator.{current_partition, reset_partitions}
use uncover.Basic.IdPartitionEnumerator.Read.{current_partition_lem}
use uncover.Basic.IdPartitionEnumerator.Merged.{IsPartition}
use uncover.Base.{
  false, get_elem?, suc, ◌≡◌, refl, [], ◌∷◌, if◌then◌else◌, insert_id, List, ℕ, some,
}
use uncover.Basic.IdPartitionEnumerator.{
  IdPartitionEnumerator, ok, ended, new_enumerator_of, next_partition,
}
use uncover.Basic.IdPartitionEnumerator.Kept.{Inv, new_enumerator_of-Inv, next_partition-Inv}

abbrev three : IdPartitionEnumerator
three = new_enumerator_of (1 ∷ 2 ∷ 1 ∷ 3 ∷ [])

three-run : three.generated ≡ ((3 ∷ []) ∷ (2 ∷ []) ∷ (1 ∷ []) ∷ []) ∷ []
unfolding new_enumerator_of insert_id
three-run = refl

next_partition-Inv_example :
    (f : IdPartitionEnumerator) × (next_partition three ≡ ok f)
    × Inv (1 ∷ 2 ∷ 1 ∷ 3 ∷ []) f
    × (f.current ≡ (if ended three then three.current else suc three.current))
next_partition-Inv_example =
    next_partition-Inv (1 ∷ 2 ∷ 1 ∷ 3 ∷ []) three (new_enumerator_of-Inv (1 ∷ 2 ∷ 1 ∷ 3 ∷ []))

current_partition_lem_example :
    ((p : List (List ℕ)) × (current_partition three ≡ ok p) × IsPartition (1 ∷ 2 ∷ 1 ∷ 3 ∷ []) p)
    × ((f : IdPartitionEnumerator) × (reset_partitions three ≡ ok f)
        × Inv (1 ∷ 2 ∷ 1 ∷ 3 ∷ []) f
        × (f.generated ≡ three.generated)
        × (f.last_new ≡ three.last_new)
        × (f.current ≡ 0)
        × (ended f ≡ false)
        × ((p : List (List ℕ)) × (get_elem? three.generated 0 ≡ some p)
            × (current_partition f ≡ ok p)))
current_partition_lem_example =
    current_partition_lem (1 ∷ 2 ∷ 1 ∷ 3 ∷ []) three (new_enumerator_of-Inv (1 ∷ 2 ∷ 1 ∷ 3 ∷ []))
