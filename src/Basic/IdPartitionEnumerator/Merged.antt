-- ===== src/Basic/IdPartitionEnumerator/Merged.antt =====
-- Merging two classes of a partition gives a partition of the same IDs.
use uncover.Base.{
  ℕ, ◌≡◌, ◌⊎◌, refl, List, [], ◌∷◌, true, false, not, ◌&&◌, ◌||◌, arith, some_of, contains, In,
  all_of-contains, all_of-intro, Bool-cases, inl, inr, subst, ap,
}
use uncover.Basic.IdPartition.{same_set, insert_class, insert_range}
use uncover.Basic.IdPartition.Disjoint.{covered, IsDisjoint, contains-insert_range}
use uncover.Basic.IdPartitionEnumerator.{erase_class, merge_classes}

-- The class is every class of the partition or shares no ID with it.
abbrev pub Apart : List ℕ → List (List ℕ) → Type 0
Apart c [] = Unit
Apart c (d ∷ part) =
    ((same_set c d ≡ true) ⊎ ((x : ℕ) → contains x d ≡ true → contains x c ≡ false)) × Apart c part

same_set-contains : (c d : List ℕ) (x : ℕ) → same_set c d ≡ true → contains x c ≡ contains x d
same_set-contains c d x h =
    let to = all_of-contains (λ y. contains y d) c x in
    let from = all_of-contains (λ y. contains y c) d x in ground (arith, h, to, from)

same_set_refl : (c : List ℕ) → same_set c c ≡ true
same_set_refl c = let all = all_of-intro (λ y. contains y c) c (λ x h. h) in ground (arith, all)

covered-In :
    (part : List (List ℕ)) (c : List ℕ) (x : ℕ)
    → In c part
    → contains x c ≡ true
    → covered part x ≡ true
covered-In [] c x i h = absurd i
covered-In (d ∷ part) c x i h = elim i [
  | inl here ↦ let there = ap (contains x) here in ground (arith, h, there)
  | inr later ↦ let rest = covered-In part c x later h in ground (arith, rest)
]

Apart-rest :
    (c : List ℕ) (part : List (List ℕ))
    → ((x : ℕ) → contains x c ≡ true → covered part x ≡ false)
    → Apart c part
Apart-rest c [] h = tt
Apart-rest c (d ∷ part) h = (
  inr (λ x k. elim (Bool-cases (contains x c)) [
    | inr n ↦ n
    | inl y ↦ let gone = h x y in absurd (ground (arith, gone, k))
  ]),
  Apart-rest c part (λ x k. let gone = h x k in ground (arith, gone)),
)

pub In-Apart : (c : List ℕ) (part : List (List ℕ)) → IsDisjoint part → In c part → Apart c part
In-Apart c [] d i = tt
In-Apart c (e ∷ part) d i = elim i [
  | inl here ↦
      let same : same_set c e ≡ true = subst (λ k. same_set c k ≡ true) here (same_set_refl c) in
      (inl same, Apart-rest c part (λ x k. d.0 x (ground (arith, k, same_set-contains c e x same))))
  | inr later ↦ (
    inr (λ x k. elim (Bool-cases (contains x c)) [
      | inr n ↦ n
      | inl y ↦
          let there = covered-In part c x later y in
          let gone = d.0 x k in absurd (ground (arith, there, gone))
    ]),
    In-Apart c part d.1 later,
  )
]

erase_class-covered :
    (c : List ℕ) (part : List (List ℕ)) (x : ℕ)
    → Apart c part
    → covered (erase_class c part) x ≡ (covered part x && not (contains x c))
erase_class-covered c [] x a = refl
erase_class-covered c (d ∷ part) x a = elim (Bool-cases (same_set c d)) [
  | inl same ↦ ground (arith, same, same_set-contains c d x same, erase_class-covered c part x a.1)
  | inr other ↦ elim a.0 [
    | inl same ↦ absurd (ground (arith, same, other))
    | inr free ↦ ground (arith, other, free x, erase_class-covered c part x a.1)
  ]
]

erase_class-Apart :
    (c d : List ℕ) (part : List (List ℕ)) → Apart c part → Apart c (erase_class d part)
erase_class-Apart c d [] a = tt
erase_class-Apart c d (e ∷ part) a = elim (Bool-cases (same_set d e)) [
  | inl same ↦ rw same (erase_class-Apart c d part a.1)
  | inr other ↦ rw other (a.0, erase_class-Apart c d part a.1)
]

erase_class-IsDisjoint :
    (c : List ℕ) (part : List (List ℕ)) → IsDisjoint part → IsDisjoint (erase_class c part)
erase_class-IsDisjoint c [] d = tt
erase_class-IsDisjoint c (e ∷ part) d = elim (Bool-cases (same_set c e)) [
  | inl same ↦ rw same (erase_class-IsDisjoint c part d.1)
  | inr other ↦ rw other ((λ x k. fewer c part x (d.0 x k)), erase_class-IsDisjoint c part d.1)
]
  where
    fewer :
        (c : List ℕ) (part : List (List ℕ)) (x : ℕ)
        → covered part x ≡ false
        → covered (erase_class c part) x ≡ false
    fewer c [] x h = refl
    fewer c (e ∷ part) x h = ground (arith, fewer c part x)

-- A partition of the IDs of a list: no ID is in two classes, and the IDs are those of the list.
pub record IsPartition (ids : List ℕ) (part : List (List ℕ)) : Type 0 where
  pub disjoint : IsDisjoint part
  pub covers : (x : ℕ) → covered part x ≡ contains x ids

pub insert_class-covered :
    (n : List ℕ) (part : List (List ℕ)) (x : ℕ)
    → covered (insert_class n part) x ≡ (contains x n || covered part x)
insert_class-covered n part x = elim (Bool-cases (some_of (same_set n) part)) [
  | inr other ↦ ground (arith, other)
  | inl same ↦ let there = held n part x same in ground (arith, same, there)
]
  where
    held :
        (n : List ℕ) (part : List (List ℕ)) (x : ℕ)
        → some_of (same_set n) part ≡ true
        → contains x n ≡ true
        → covered part x ≡ true
    held n [] x h k = cc
    held n (d ∷ part) x h k = ground (arith, same_set-contains n d x, held n part x)

pub merge_classes-IsPartition :
    (ids outer inner : List ℕ) (part : List (List ℕ))
    → IsPartition ids part
    → In outer part
    → In inner part
    → IsPartition ids (merge_classes outer inner part)
merge_classes-IsPartition ids outer inner part h i j =
    let a = In-Apart outer part h.disjoint i in
    let b = In-Apart inner part h.disjoint j in
    let left = erase_class outer (erase_class inner part) in
    let n = insert_range outer inner in
    let rest : (x : ℕ)
        → covered left x ≡ ((covered part x && not (contains x inner)) && not (contains x outer)) =
      λ x. ground (
        arith,
        erase_class-covered inner part x b,
        erase_class-covered outer (erase_class inner part) x (erase_class-Apart outer inner part a),
      ) in
    let d : IsDisjoint left =
      erase_class-IsDisjoint outer (erase_class inner part)
        (erase_class-IsDisjoint inner part h.disjoint) in
    let joint : IsDisjoint (insert_class n left) = elim (Bool-cases (some_of (same_set n) left)) [
      | inl same ↦ rw same d
      | inr other ↦
          rw other ((λ x k. ground (arith, k, rest x, contains-insert_range outer inner x)), d)
    ] in
    record {
      disjoint = joint;
      covers = λ x.
          let all = insert_class-covered n left x in
          let o = covered-In part outer x i in
          let u = covered-In part inner x j in
          ground (arith, all, rest x, contains-insert_range outer inner x, h.covers x, o, u);
    }
