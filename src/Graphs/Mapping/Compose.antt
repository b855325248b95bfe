-- ===== src/Graphs/Mapping/Compose.antt =====
-- concat.
use uncover.Base.{
  ℕ, ◌≡◌, refl, [], ◌∷◌, Option, none, some, arith, lookup, insert, lookup-insert, IsOrdered,
  insert-IsOrdered, lookup-before, contains, if◌then◌else◌, Option-cases, inl, inr,
}
use uncover.Graphs.Mapping.{Mapping, get_tar, concat_loop, concat}
use uncover.Graphs.Mapping.Delete.{del_all-get_tar, del_all-IsOrdered}

-- The target of a source under the one map after the other.
abbrev pub then_at : Option ℕ → Mapping → Option ℕ
then_at none n = none
then_at (some t) n = get_tar n t

concat_loop-none :
    (n rest m : Mapping) (s t : ℕ)
    → lookup t n ≡ none
    → concat_loop n ((s, t) ∷ rest) m ≡ ((concat_loop n rest m).0, s ∷ (concat_loop n rest m).1)
unfolding concat_loop
concat_loop-none n rest m s t e = rw (e, concat_loop)

concat_loop-some :
    (n rest m : Mapping) (s t u : ℕ)
    → lookup t n ≡ some u
    → concat_loop n ((s, t) ∷ rest) m ≡ concat_loop n rest (insert s u m)
unfolding concat_loop
concat_loop-some n rest m s t u e = rw (e, concat_loop)

-- Behind the loop a source of the entries has its new target, unless it is to be deleted.
concat_loop_lem :
    (n rest m : Mapping) (i : ℕ)
    → IsOrdered rest
    → let (m', ss) = concat_loop n rest m in
      (if contains i ss then none else lookup i m')
      ≡ (elim (lookup i rest) [ none ↦ lookup i m | some t ↦ get_tar n t ])
unfolding concat_loop
concat_loop_lem n [] m i o = refl
concat_loop_lem n ((s, t) ∷ rest) m i o = elim (Option-cases (lookup t n)) [
  | inl e ↦
      rw (concat_loop-none n rest m s t e)
        (ground (arith, concat_loop_lem n rest m i o.1, lookup-before s rest o.0, e))
  | inr (u, e) ↦ rw (concat_loop-some n rest m s t u e) (
      ground (
        arith,
        concat_loop_lem n rest (insert s u m) i o.1,
        lookup-insert s i u m,
        lookup-before s rest o.0,
        e,
      ))
]

concat_loop-IsOrdered : (n rest m : Mapping) → IsOrdered m → IsOrdered (concat_loop n rest m).0
unfolding concat_loop
concat_loop-IsOrdered n [] m o = o
concat_loop-IsOrdered n ((s, t) ∷ rest) m o = elim (Option-cases (lookup t n)) [
  | inl e ↦ rw (concat_loop-none n rest m s t e) (concat_loop-IsOrdered n rest m o)
  | inr (u, e) ↦
      rw (concat_loop-some n rest m s t u e)
        (concat_loop-IsOrdered n rest (insert s u m) (insert-IsOrdered s u m o))
]

-- concat leaves the composition of the two maps: a source is mapped to what the second map assigns
-- to its target, and is dropped where that assigns nothing.
pub concat_lem :
    (m n : Mapping) (i : ℕ)
    → IsOrdered m
    → (get_tar (concat m n) i ≡ then_at (get_tar m i) n) × IsOrdered (concat m n)
unfolding concat
concat_lem m n i o = (
  ground (
    arith,
    del_all-get_tar (concat_loop n m m).0 (concat_loop n m m).1 i,
    concat_loop_lem n m m i o,
  ),
  del_all-IsOrdered (concat_loop n m m).0 (concat_loop n m m).1 (concat_loop-IsOrdered n m m o),
)

-- The composition is associative, as far as the targets go.
pub concat_assoc :
    (l m n : Mapping) (i : ℕ)
    → IsOrdered l
    → IsOrdered m
    → get_tar (concat (concat l m) n) i ≡ get_tar (concat l (concat m n)) i
concat_assoc l m n i o q = elim (Option-cases (get_tar l i)) [
  | inl e ↦ ground (
    arith,
    e,
    concat_lem l m i o,
    concat_lem (concat l m) n i (concat_lem l m i o).1,
    concat_lem l (concat m n) i o,
  )
  | inr (t, e) ↦ ground (
    arith,
    e,
    concat_lem l m i o,
    concat_lem (concat l m) n i (concat_lem l m i o).1,
    concat_lem l (concat m n) i o,
    concat_lem m n t q,
  )
]
