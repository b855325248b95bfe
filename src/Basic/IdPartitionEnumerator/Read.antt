-- ===== src/Basic/IdPartitionEnumerator/Read.antt =====
-- Reading and restarting an enumerator of partitions.
use uncover.Base.{
  ℕ, ◌≡◌, refl, List, [], ◌∷◌, false, some, arith, length, In, get_elem?, Bool-cases, inl, inr, ◌<◌,
}
use uncover.Basic.IdPartitionEnumerator.{
  IdPartitionEnumerator, ok, ended, last_of, current_partition, reset_partitions,
}
use uncover.Basic.IdPartitionEnumerator.Merged.{IsPartition}
use uncover.Basic.IdPartitionEnumerator.Kept.{Inv, get_elem?-In, get_elem?-below}

last_of-In :
    (ps : List (List (List ℕ)))
    → 0 < length ps
    → (p : List (List ℕ)) × (last_of ps ≡ some p) × In p ps
last_of-In [] h = absurd (omega arith)
last_of-In (p ∷ []) h = (p, refl, inl refl)
last_of-In (p ∷ q ∷ ps) h = let (r, is_r, i) = last_of-In (q ∷ ps) (omega arith) in (r, is_r, inr i)

-- A valid enumerator of partitions of some IDs can always be read, behind its end too, and gives one
-- of these partitions. After a restart it has not ended and reads as the partition that was
-- generated first, with all that was generated kept.
pub current_partition_lem :
    (ids : List ℕ) (e : IdPartitionEnumerator)
    → Inv ids e
    → ((p : List (List ℕ)) × (current_partition e ≡ ok p) × IsPartition ids p)
      × ((f : IdPartitionEnumerator) × (reset_partitions e ≡ ok f)
          × Inv ids f
          × (f.generated ≡ e.generated)
          × (f.last_new ≡ e.last_new)
          × (f.current ≡ 0)
          × (ended f ≡ false)
          × ((p : List (List ℕ)) × (get_elem? e.generated 0 ≡ some p)
              × (current_partition f ≡ ok p)))
unfolding current_partition reset_partitions
current_partition_lem ids e inv =
    let begun : IdPartitionEnumerator = record e { current = 0 } in
    let kept : Inv ids begun = record {
      is_valid = inv.is_valid;
      partitions = inv.partitions;
      inside = omega arith;
      made = omega arith;
      begun = inv.begun;
    } in
    let still : ended begun ≡ false = ground (arith, inv.begun) in
    (
      elim (Bool-cases (ended e)) [
        | inl stop ↦
            let (p, is_p, i) = last_of-In e.generated inv.begun in
            (p, ground (arith, inv.is_valid, stop, is_p), inv.partitions p i)
        | inr on ↦
            let below : e.current < length e.generated = ground (arith, on) in
            let (p, is_p) = get_elem?-below e.generated e.current below in
            (
              p,
              ground (arith, inv.is_valid, on, is_p),
              inv.partitions p (get_elem?-In e.generated e.current p is_p),
            )
      ],
      (
        begun,
        ground (arith, inv.is_valid),
        kept,
        refl,
        refl,
        refl,
        still,
        (let (p, is_p) = get_elem?-below e.generated 0 inv.begun in
            (p, is_p, ground (arith, inv.is_valid, still, is_p))),
      ),
    )
