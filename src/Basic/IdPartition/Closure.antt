-- ===== src/Basic/IdPartition/Closure.antt =====
-- The classes of the transitive closure, against the relation that it is to compute.
use uncover.Base.{
  ℕ, ◌≡◌, ◌↔◌, refl, List, [], ◌∷◌, true, ◌&&◌, ◌||◌, arith, some_of-found, contains, Bool-cases,
  inl, inr, ◌∙◌,
}
use uncover.Basic.IdPartition.{intersect, absorb, closure}
use uncover.Basic.IdPartition.Disjoint.{
  covered, together, IsDisjoint, reached, missed, absorb-together, closure-IsDisjoint,
}

-- A chain of IDs leads from one to the other, in which neighbours are together in a class of the
-- one or the other partition.
pub data Linked (part part2 : List (List ℕ)) : ℕ → ℕ → Type 0 where
  first : {x y : ℕ} → together part x y ≡ true → Linked part part2 x y
  second : {x y : ℕ} → together part2 x y ≡ true → Linked part part2 x y
  chain : {x y z : ℕ} → Linked part part2 x y → Linked part part2 y z → Linked part part2 x z

pub together_sym : (part : List (List ℕ)) (x y : ℕ) → together part x y ≡ together part y x
together_sym [] x y = refl
together_sym (d ∷ part) x y = ground (arith, together_sym part x y)

Linked_sym : (part part2 : List (List ℕ)) (x y : ℕ) → Linked part part2 x y → Linked part part2 y x
Linked_sym part part2 x y (first h) = first (together_sym part y x ∙ h)
Linked_sym part part2 x y (second h) = second (together_sym part2 y x ∙ h)
Linked_sym part part2 x y (chain {y = z} h k) =
    chain (Linked_sym part part2 z y k) (Linked_sym part part2 x z h)

-- An ID in a class that meets `c` is together with one of `c`.
reached-together :
    (c : List ℕ) (part : List (List ℕ)) (x : ℕ)
    → reached c part x ≡ true
    → (a : ℕ) × (contains a c ≡ true) × (together part x a ≡ true)
reached-together c [] x h = cc
reached-together c (d ∷ part) x h = elim (Bool-cases (intersect c d && contains x d)) [
  | inl e ↦
      let (a, i, j) = some_of-found (λ z. contains z d) c (ground arith) in (a, i, ground arith)
  | inr e ↦ let (a, i, j) = reached-together c part x (rw e at h) in (a, i, ground arith)
]

missed-together :
    (c : List ℕ) (part : List (List ℕ)) (x y : ℕ)
    → together (missed c part) x y ≡ true
    → together part x y ≡ true
missed-together c [] x y h = cc
missed-together c (d ∷ part) x y h = ground (arith, missed-together c part x y)

module _ (part : List (List ℕ)) (c : List ℕ) (part2 : List (List ℕ)) where
  hub :
      (x : ℕ)
      → (contains x c || reached c part x) ≡ true
      → (a : ℕ) × (contains a c ≡ true) × Linked part (c ∷ part2) x a
  hub x h = elim (Bool-cases (contains x c)) [
    | inl e ↦ (x, e, second (ground arith))
    | inr e ↦ let (a, i, j) = reached-together c part x (ground arith) in (a, i, first j)
  ]

  absorb-Linked : (x y : ℕ) → together (absorb part c) x y ≡ true → Linked part (c ∷ part2) x y
  absorb-Linked x y h =
      elim (Bool-cases ((contains x c || reached c part x) && (contains y c || reached c part y))) [
        | inl e ↦
            let (a, i, j) = hub x (ground arith) in
            let (b, k, l) = hub y (ground arith) in
            let across : together (c ∷ part2) a b ≡ true = ground arith in
            chain j (chain (second across) (Linked_sym part (c ∷ part2) y b l))
        | inr e ↦ first (missed-together c part x y (ground (arith, absorb-together part c x y)))
      ]

  Linked-absorb : (x y : ℕ) → Linked (absorb part c) part2 x y → Linked part (c ∷ part2) x y
  Linked-absorb x y (first h) = absorb-Linked x y h
  Linked-absorb x y (second h) = second (ground arith)
  Linked-absorb x y (chain {y = z} h k) = chain (Linked-absorb x z h) (Linked-absorb z y k)

closure-Linked :
    (part part2 : List (List ℕ)) (x y : ℕ)
    → together (closure part part2) x y ≡ true
    → Linked part part2 x y
unfolding closure
closure-Linked part [] x y h = first h
closure-Linked part (c ∷ part2) x y h =
    Linked-absorb part c part2 x y (closure-Linked (absorb part c) part2 x y h)

-- What is together in the first partition stays so in a round, and `c` comes together.
together-split :
    (c : List ℕ) (part : List (List ℕ)) (x y : ℕ)
    → together part x y ≡ true
    → (reached c part x && reached c part y || together (missed c part) x y) ≡ true
together-split c [] x y h = cc
together-split c (d ∷ part) x y h = ground (arith, together-split c part x y)

absorb-keeps :
    (part : List (List ℕ)) (c : List ℕ) (x y : ℕ)
    → (together part x y || contains x c && contains y c) ≡ true
    → together (absorb part c) x y ≡ true
absorb-keeps part c x y h = ground (arith, absorb-together part c x y, together-split c part x y)

closure-keeps :
    (part part2 : List (List ℕ)) (x y : ℕ)
    → (together part x y || together part2 x y) ≡ true
    → together (closure part part2) x y ≡ true
unfolding closure
closure-keeps part [] x y h = ground arith
closure-keeps part (c ∷ part2) x y h =
    ground (arith, closure-keeps (absorb part c) part2 x y, absorb-keeps part c x y)

pub together-covered :
    (part : List (List ℕ)) (x y : ℕ) → together part x y ≡ true → covered part x ≡ true
together-covered [] x y h = cc
together-covered (d ∷ part) x y h = ground (arith, together-covered part x y)

-- In disjoint classes, being together is transitive.
pub together_trans :
    (part : List (List ℕ)) (x y z : ℕ)
    → IsDisjoint part
    → together part x y ≡ true
    → together part y z ≡ true
    → together part x z ≡ true
together_trans [] x y z o h k = cc
together_trans (d ∷ part) x y z o h k = ground (
  arith,
  together_trans part x y z o.1,
  together-covered part y z,
  together-covered part y x,
  together_sym part x y,
  o.0 y,
)

-- The transitive closure of a partition and a second set of sets of IDs puts two IDs into one
-- class if and only if a chain leads from one to the other in which neighbours are together in a
-- class of the one or the other.
pub closure_iff :
    (part part2 : List (List ℕ)) (x y : ℕ)
    → IsDisjoint part
    → (together (closure part part2) x y ≡ true) ↔ Linked part part2 x y
closure_iff part part2 x y o = (closure-Linked part part2 x y, linked x y)
  where
    linked : (x y : ℕ) → Linked part part2 x y → together (closure part part2) x y ≡ true
    linked x y (first h) = closure-keeps part part2 x y (ground arith)
    linked x y (second h) = closure-keeps part part2 x y (ground arith)
    linked x y (chain {y = z} h k) =
        together_trans (closure part part2) x z y (closure-IsDisjoint part part2 o) (linked x z h)
          (linked z y k)
