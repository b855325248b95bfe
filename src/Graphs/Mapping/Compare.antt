-- ===== src/Graphs/Mapping/Compare.antt =====
-- operator==.
use uncover.Base.{
  ℕ, ◌≡◌, ◌↔◌, refl, [], ◌∷◌, Bool, true, false, none, some, arith, all_of, length, lookup, erase,
  lookup-erase, IsOrdered, erase-IsOrdered, length-erase, lookup-before, ltb, ◌==◌,
}
use uncover.Graphs.Mapping.{Mapping, get_tar, equal}

-- The test of the loop, for all entries of the first map.
abbrev subset : Mapping → Mapping → Bool
subset m n = all_of (λ p. elim (lookup p.0 n) [ none ↦ false | some u ↦ p.1 == u ]) m

subset-erase :
    (k : ℕ) (m n : Mapping) → all_of (λ p. ltb k p.0) m ≡ true → subset m (erase k n) ≡ subset m n
subset-erase k [] n a = refl
subset-erase k ((j, t) ∷ m) n a = ground (arith, subset-erase k m n, lookup-erase k j n)

subset-lookup :
    (m n : Mapping) (i : ℕ)
    → IsOrdered m
    → IsOrdered n
    → length m ≡ length n
    → subset m n ≡ true
    → lookup i m ≡ lookup i n
subset-lookup [] [] i o q l h = refl
subset-lookup [] (p ∷ n) i o q l h = absurd (omega arith)
subset-lookup ((k, t) ∷ m) n i o q l h = ground (
  arith,
  subset-lookup m (erase k n) i o.1 (erase-IsOrdered k n q),
  subset-erase k m n o.0,
  length-erase k n q,
  lookup-erase k i n,
)

lookup-subset :
    (m n : Mapping)
    → IsOrdered m
    → IsOrdered n
    → ((i : ℕ) → lookup i m ≡ lookup i n)
    → (length m ≡ length n) × (subset m n ≡ true)
lookup-subset [] [] o q f = (refl, refl)
lookup-subset [] ((k, t) ∷ n) o q f = ground (arith, f k)
lookup-subset ((k, t) ∷ m) n o q f =
    let rest : (i : ℕ) → lookup i m ≡ lookup i (erase k n) =
      λ i. ground (arith, f i, lookup-erase k i n, lookup-before k m o.0) in
    ground (
      arith,
      lookup-subset m (erase k n) o.1 (erase-IsOrdered k n q) rest,
      subset-erase k m n o.0,
      length-erase k n q,
      f k,
    )

-- operator== answers true if and only if the two maps assign the same target to every source,
-- though it only looks up the sources of the first map in the second.
pub equal_iff :
    (m n : Mapping)
    → IsOrdered m
    → IsOrdered n
    → (equal m n ≡ true) ↔ ((i : ℕ) → get_tar m i ≡ get_tar n i)
unfolding equal
equal_iff m n o q = (
  λ h i. subset-lookup m n i o q (ground arith) (ground arith),
  λ f. ground (arith, lookup-subset m n o q f),
)
