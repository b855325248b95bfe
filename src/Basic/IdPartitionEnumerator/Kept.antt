-- ===== src/Basic/IdPartitionEnumerator/Kept.antt =====
-- Everything that the enumerator generates is a partition of the IDs it began with.
use uncover.Basic.IdPartition.Disjoint.{covered, IsDisjoint}
use uncover.Base.{
  if◌then◌else◌, ap, ◌||◌, contains-insert_id, insert_id, ◌==◌, zero, suc, ◌++◌, ltb, leb,
  get_elem?, ℕ, suc, ◌≡◌, refl, List, [], ◌∷◌, ◌++◌, true, some, arith, length, some_of, In,
  In-append, get_elem?, if-intro, inl, inr, subst, sym, ◌≤◌, ◌<◌, ◌&&◌, false, Bool-cases, contains,
}
use uncover.Basic.IdPartition.{same_set, insert_class}
use uncover.Basic.IdPartitionEnumerator.{
  IdPartitionEnumerator, same_partition, merge_classes, push_new, inner_loop, outer_loop, step,
  next_partition, ended, ok, last_is_one, new_enumerator_of, singletons,
}
use uncover.Basic.IdPartitionEnumerator.Merged.{
  IsPartition, merge_classes-IsPartition, insert_class-covered,
}

abbrev pub AllPartitions : List ℕ → List (List (List ℕ)) → Type 0
AllPartitions ids ps = (p : List (List ℕ)) → In p ps → IsPartition ids p

-- A valid enumerator that is at one of its partitions or behind the last; what is new was made from
-- the partitions before.
pub record Inv (ids : List ℕ) (e : IdPartitionEnumerator) : Type 0 where
  pub is_valid : e.valid ≡ true
  pub partitions : AllPartitions ids e.generated
  pub inside : e.current ≤ length e.generated
  pub made : e.current ≤ e.last_new
  pub begun : 0 < length e.generated

push_new-AllPartitions :
    (ids : List ℕ) (p : List (List ℕ)) (ps : List (List (List ℕ)))
    → AllPartitions ids ps
    → IsPartition ids p
    → AllPartitions ids (push_new p ps)
push_new-AllPartitions ids p ps a h =
    if-intro (AllPartitions ids) (some_of (same_partition p) ps) ps (ps ++ p ∷ []) (λ b. a)
      (λ b q i. elim ((In-append q ps (p ∷ [])).0 i) [
        | inl old ↦ a q old
        | inr (inl here) ↦ subst (IsPartition ids) (sym here) h
        | inr (inr gone) ↦ absurd gone
      ])

inner_loop-AllPartitions :
    (ids : List ℕ) (part : List (List ℕ)) (outer : List ℕ) (inners : List (List ℕ))
    (ps : List (List (List ℕ)))
    → IsPartition ids part
    → In outer part
    → ((c : List ℕ) → In c inners → In c part)
    → AllPartitions ids ps
    → AllPartitions ids (inner_loop part outer inners ps)
unfolding inner_loop
inner_loop-AllPartitions ids part outer [] ps h o sub a = a
inner_loop-AllPartitions ids part outer (inner ∷ rest) ps h o sub a =
    inner_loop-AllPartitions ids part outer rest _ h o (λ c i. sub c (inr i))
      (if-intro (AllPartitions ids) (same_set outer inner) ps
        (push_new (merge_classes outer inner part) ps) (λ b. a)
        (λ b.
          push_new-AllPartitions ids (merge_classes outer inner part) ps a
            (merge_classes-IsPartition ids outer inner part h o (sub inner (inl refl)))))

outer_loop-AllPartitions :
    (ids : List ℕ) (part outers : List (List ℕ)) (ps : List (List (List ℕ)))
    → IsPartition ids part
    → ((c : List ℕ) → In c outers → In c part)
    → AllPartitions ids ps
    → AllPartitions ids (outer_loop part outers ps)
unfolding outer_loop
outer_loop-AllPartitions ids part [] ps h sub a = a
outer_loop-AllPartitions ids part (outer ∷ rest) ps h sub a =
    outer_loop-AllPartitions ids part rest _ h (λ c i. sub c (inr i))
      (inner_loop-AllPartitions ids part outer part ps h (sub outer (inl refl)) (λ c i. i) a)

push_new-length :
    (p : List (List ℕ)) (ps : List (List (List ℕ))) → length ps ≤ length (push_new p ps)
push_new-length p ps =
    if-intro (λ qs. length ps ≤ length qs) (some_of (same_partition p) ps) ps (ps ++ p ∷ [])
      (λ b. omega arith) (λ b. grown ps)
  where
    grown : (ps : List (List (List ℕ))) → length ps ≤ length (ps ++ p ∷ [])
    grown [] = omega arith
    grown (q ∷ ps) = let rest = grown ps in omega (arith, rest)

pub get_elem?-In :
    (ps : List (List (List ℕ))) (i : ℕ) (p : List (List ℕ)) → get_elem? ps i ≡ some p → In p ps
get_elem?-In [] i p h = cc
get_elem?-In (q ∷ ps) zero p h = inl (ground arith)
get_elem?-In (q ∷ ps) (suc i) p h = inr (get_elem?-In ps i p h)

pub get_elem?-below :
    (ps : List (List (List ℕ))) (i : ℕ)
    → i < length ps
    → (p : List (List ℕ)) × (get_elem? ps i ≡ some p)
get_elem?-below [] i h = absurd (omega arith)
get_elem?-below (q ∷ ps) zero h = (q, refl)
get_elem?-below (q ∷ ps) (suc i) h = get_elem?-below ps i (omega arith)

-- The loops only append.
abbrev Longer : List (List (List ℕ)) → List (List (List ℕ)) → Type 0
Longer ps qs = length ps ≤ length qs

inner_loop-length :
    (part : List (List ℕ)) (outer : List ℕ) (inners : List (List ℕ)) (ps : List (List (List ℕ)))
    → Longer ps (inner_loop part outer inners ps)
unfolding inner_loop
inner_loop-length part outer [] ps = omega arith
inner_loop-length part outer (inner ∷ rest) ps =
    let next = if same_set outer inner then ps else push_new (merge_classes outer inner part) ps in
    let one : Longer ps next =
      if-intro (Longer ps) (same_set outer inner) ps (push_new (merge_classes outer inner part) ps)
        (λ b. omega arith) (λ b. push_new-length (merge_classes outer inner part) ps) in
    omega (arith, one, inner_loop-length part outer rest next)

outer_loop-length :
    (part outers : List (List ℕ)) (ps : List (List (List ℕ)))
    → Longer ps (outer_loop part outers ps)
unfolding outer_loop
outer_loop-length part [] ps = omega arith
outer_loop-length part (outer ∷ rest) ps =
    let one = inner_loop-length part outer part ps in
    omega (arith, one, outer_loop-length part rest (inner_loop part outer part ps))

step-Inv :
    (ids : List ℕ) (e : IdPartitionEnumerator) (p : List (List ℕ))
    → Inv ids e
    → e.current < length e.generated
    → get_elem? e.generated e.current ≡ some p
    → Inv ids (step e p)
step-Inv ids e p inv below at =
    if-intro (Inv ids) (leb (length p) 2 && last_is_one e.generated) _ _
      (λ b. record {
        is_valid = inv.is_valid;
        partitions = inv.partitions;
        inside = omega (arith, below);
        made = omega (arith, inv.made);
        begun = inv.begun;
      })
      (λ b. record {
        is_valid = inv.is_valid;
        partitions =
            outer_loop-AllPartitions ids p p e.generated
              (inv.partitions p (get_elem?-In e.generated e.current p at)) (λ c i. i)
              inv.partitions;
        inside = omega (arith, below, outer_loop-length p p e.generated);
        made = omega (arith, inv.made);
        begun = omega (arith, inv.begun, outer_loop-length p p e.generated);
      })

step-current : (e : IdPartitionEnumerator) (p : List (List ℕ)) → (step e p).current ≡ suc e.current
step-current e p =
    if-intro (λ (f : IdPartitionEnumerator). f.current ≡ suc e.current)
      (leb (length p) 2 && last_is_one e.generated) _ _ (λ b. refl) (λ b. refl)

next-step :
    (e : IdPartitionEnumerator) (p : List (List ℕ))
    → e.valid ≡ true
    → ended e ≡ false
    → ltb e.current e.last_new ≡ false
    → get_elem? e.generated e.current ≡ some p
    → next_partition e ≡ ok (step e p)
unfolding next_partition
next-step e p v n l at = ground (arith, v, n, l, at)

-- A valid enumerator of partitions of some IDs stays one: operator++ fails with no error, everything
-- it generates is a partition of the same IDs, and it goes on by one unless it has ended.
pub next_partition-Inv :
    (ids : List ℕ) (e : IdPartitionEnumerator)
    → Inv ids e
    → (f : IdPartitionEnumerator) × (next_partition e ≡ ok f)
      × Inv ids f
      × (f.current ≡ (if ended e then e.current else suc e.current))
unfolding next_partition
next_partition-Inv ids e inv = elim (Bool-cases (ended e)) [
  | inl stop ↦ (e, ground (arith, inv.is_valid, stop), inv, ground (arith, stop))
  | inr n ↦ elim (Bool-cases (ltb e.current e.last_new)) [
    | inl l ↦ (
      record e { current = suc e.current },
      ground (arith, inv.is_valid, n, l),
      record {
        is_valid = inv.is_valid;
        partitions = inv.partitions;
        inside = ground (arith, n);
        made = ground (arith, l);
        begun = inv.begun;
      },
      ground (arith, n),
    )
    | inr l ↦
        let below : e.current < length e.generated = ground (arith, n) in
        let (p, at) = get_elem?-below e.generated e.current below in
        (
          step e p,
          next-step e p inv.is_valid n l at,
          step-Inv ids e p inv below at,
          ground (arith, n, step-current e p),
        )
  ]
]

-- The classes of single IDs cover what has been seen.
abbrev CoversSeen : List ℕ → List (List ℕ) → Type 0
CoversSeen seen part = (x : ℕ) → covered part x ≡ contains x seen

singletons_lem :
    (seen ids : List ℕ) (part : List (List ℕ))
    → IsDisjoint part
    → CoversSeen seen part
    → IsDisjoint (singletons seen ids part)
      × ((x : ℕ) → covered (singletons seen ids part) x ≡ (contains x seen || contains x ids))
unfolding singletons
singletons_lem seen [] part d c = (d, λ x. ground (arith, c x))
singletons_lem seen (y ∷ ids) part d c = elim (Bool-cases (contains y seen)) [
  | inl old ↦
      let (d', c') = singletons_lem seen ids part d c in
      (
        rw old d',
        λ x. rw old (elim (Bool-cases (y == x)) [
          | inl same ↦
              let is_x : y ≡ x = ground (arith, same) in
              ground (arith, c' x, same, old, ap (λ k. contains k seen) is_x)
          | inr other ↦ ground (arith, c' x, other)
        ]),
      )
  | inr new ↦
      let gone : covered part y ≡ false = ground (arith, c y, new) in
      let grown = insert_class (y ∷ []) part in
      let covers : CoversSeen (insert_id y seen) grown = λ x.
        ground (arith, insert_class-covered (y ∷ []) part x, c x, contains-insert_id y x seen) in
      let apart : (x : ℕ) → contains x (y ∷ []) ≡ true → covered part x ≡ false = λ x k.
        let is_x : y ≡ x = ground (arith, k) in ground (arith, gone, ap (covered part) is_x) in
      let disjoint : IsDisjoint grown =
        if-intro IsDisjoint (some_of (same_set (y ∷ [])) part) part ((y ∷ []) ∷ part) (λ b. d)
          (λ b. (apart, d)) in
      let (d', c') = singletons_lem (insert_id y seen) ids grown disjoint covers in
      (rw new d', λ x. rw new (ground (arith, c' x, contains-insert_id y x seen)))
]

-- The constructor begins with one partition of the given IDs, whatever is repeated in the vector.
pub new_enumerator_of-Inv : (ids : List ℕ) → Inv ids (new_enumerator_of ids)
unfolding new_enumerator_of
new_enumerator_of-Inv ids =
    let (d, c) = singletons_lem [] ids [] tt (λ x. refl) in
    record {
      is_valid = refl;
      partitions = λ p i. elim i [
        | inl here ↦ subst (IsPartition ids) (sym here) (record { disjoint = d; covers = λ x. c x })
        | inr gone ↦ absurd gone
      ];
      inside = omega arith;
      made = omega arith;
      begun = omega arith;
    }
