-- ===== src/Basic/IdPartition/Disjoint.antt =====
-- The classes that one round leaves, and that they stay disjoint.
use uncover.Base.{
  ℕ, ◌≡◌, refl, List, [], ◌∷◌, Bool, true, false, not, ◌&&◌, ◌||◌, arith, select, some_of,
  some_of-contains, all_of-contains, contains, insert_id, contains-insert_id, Bool-cases, inl, inr,
}
use uncover.Basic.IdPartition.{
  intersect, insert_range, gather, same_set, insert_class, absorb, closure,
}

-- Whether some class contains the ID, and whether some class contains both IDs.
abbrev pub covered : List (List ℕ) → ℕ → Bool
covered part x = some_of (λ d. contains x d) part

abbrev pub together : List (List ℕ) → ℕ → ℕ → Bool
together part x y = some_of (λ d. contains x d && contains y d) part

-- No ID is in two classes.
abbrev pub IsDisjoint : List (List ℕ) → Type 0
IsDisjoint [] = Unit
IsDisjoint (d ∷ part) = ((x : ℕ) → contains x d ≡ true → covered part x ≡ false) × IsDisjoint part

pub contains-insert_range :
    (c d : List ℕ) (x : ℕ) → contains x (insert_range c d) ≡ (contains x c || contains x d)
unfolding insert_range
contains-insert_range c [] x = ground arith
contains-insert_range c (y ∷ d) x =
    ground (arith, contains-insert_range (insert_id y c) d x, contains-insert_id y x c)

-- Whether a class that meets `c` contains the ID.
abbrev pub reached : List ℕ → List (List ℕ) → ℕ → Bool
reached c part x = some_of (λ d. intersect c d && contains x d) part

abbrev pub missed : List ℕ → List (List ℕ) → List (List ℕ)
missed c part = select (λ d. not (intersect c d)) part

gather-new :
    (c : List ℕ) (part : List (List ℕ)) (new : List ℕ) (x : ℕ)
    → contains x (gather c part new).0 ≡ (contains x new || reached c part x)
unfolding gather
gather-new c [] new x = ground arith
gather-new c (d ∷ part) new x = ground (
  arith,
  gather-new c part new x,
  gather-new c part (insert_range new d) x,
  contains-insert_range new d x,
)

gather-kept :
    (c : List ℕ) (part : List (List ℕ)) (new : List ℕ) → (gather c part new).1 ≡ missed c part
unfolding gather
gather-kept c [] new = refl
gather-kept c (d ∷ part) new =
    ground (arith, gather-kept c part new, gather-kept c part (insert_range new d))

same-together :
    (c : List ℕ) (part : List (List ℕ)) (x y : ℕ)
    → some_of (same_set c) part ≡ true
    → contains x c ≡ true
    → contains y c ≡ true
    → together part x y ≡ true
same-together c [] x y h i j = cc
same-together c (d ∷ part) x y h i j = ground (
  arith,
  same-together c part x y,
  all_of-contains (λ z. contains z d) c x,
  all_of-contains (λ z. contains z d) c y,
)

insert_class-together :
    (c : List ℕ) (part : List (List ℕ)) (x y : ℕ)
    → together (insert_class c part) x y ≡ (contains x c && contains y c || together part x y)
insert_class-together c part x y = ground (arith, same-together c part x y)

-- After a round two IDs are together if both are in `c` or in a class that meets it, or if they
-- were together in a class that does not.
pub absorb-together :
    (part : List (List ℕ)) (c : List ℕ) (x y : ℕ)
    → together (absorb part c) x y ≡ (
        (contains x c || reached c part x) && (contains y c || reached c part y)
        || together (missed c part) x y)
unfolding absorb
absorb-together part c x y = ground (
  arith,
  insert_class-together (gather c part c).0 (gather c part c).1 x y,
  gather-new c part c x,
  gather-new c part c y,
  gather-kept c part c,
)

missed-covered :
    (c : List ℕ) (part : List (List ℕ)) (x : ℕ)
    → covered part x ≡ false
    → covered (missed c part) x ≡ false
missed-covered c [] x h = refl
missed-covered c (d ∷ part) x h = ground (arith, missed-covered c part x)

missed-own :
    (c : List ℕ) (part : List (List ℕ)) (x : ℕ)
    → contains x c ≡ true
    → covered (missed c part) x ≡ false
missed-own c [] x h = refl
missed-own c (d ∷ part) x h =
    ground (arith, missed-own c part x, some_of-contains (λ z. contains z d) c x)

reached-covered :
    (c : List ℕ) (part : List (List ℕ)) (x : ℕ) → reached c part x ≡ true → covered part x ≡ true
reached-covered c [] x h = cc
reached-covered c (d ∷ part) x h = ground (arith, reached-covered c part x)

missed-reached :
    (c : List ℕ) (part : List (List ℕ)) (x : ℕ)
    → IsDisjoint part
    → reached c part x ≡ true
    → covered (missed c part) x ≡ false
missed-reached c [] x o h = refl
missed-reached c (d ∷ part) x o h =
    ground
      (arith, missed-reached c part x o.1, reached-covered c part x, missed-covered c part x, o.0 x)

missed-IsDisjoint :
    (c : List ℕ) (part : List (List ℕ)) → IsDisjoint part → IsDisjoint (missed c part)
missed-IsDisjoint c [] o = tt
missed-IsDisjoint c (d ∷ part) o = elim (Bool-cases (intersect c d)) [
  | inl e ↦ rw e (missed-IsDisjoint c part o.1)
  | inr e ↦ rw e (λ x h. missed-covered c part x (o.0 x h), missed-IsDisjoint c part o.1)
]

pub absorb-IsDisjoint :
    (part : List (List ℕ)) (c : List ℕ) → IsDisjoint part → IsDisjoint (absorb part c)
unfolding absorb
absorb-IsDisjoint part c o =
    let n = (gather c part c).0 in
    let fresh : (x : ℕ) → contains x n ≡ true → covered (missed c part) x ≡ false = λ x h.
      ground (arith, gather-new c part c x, missed-own c part x, missed-reached c part x o) in
    rw (gather-kept c part c) (elim (Bool-cases (some_of (same_set n) (missed c part))) [
      | inl e ↦ rw e (missed-IsDisjoint c part o)
      | inr e ↦ rw e (fresh, missed-IsDisjoint c part o)
    ])

-- The transitive closure of a partition and any set of sets of IDs is a partition again.
pub closure-IsDisjoint :
    (part part2 : List (List ℕ)) → IsDisjoint part → IsDisjoint (closure part part2)
unfolding closure
closure-IsDisjoint part [] o = o
closure-IsDisjoint part (c ∷ part2) o =
    closure-IsDisjoint (absorb part c) part2 (absorb-IsDisjoint part c o)
