-- ===== src/Engine/MatchFinder/Every.antt =====
-- The loop of mapIsolatedNodes over all matches of the edges.
use uncover.Engine.MatchFinder.Free.{IsFilling}
use uncover.Base.{
  ℕ, ◌≡◌, ◌⊎◌, refl, List, [], ◌∷◌, true, none, arith, contains, In, IsOrdered, IsDistinct,
  Bool-cases, inl, inr, ◌∙◌, subst, length, keys, ◌<◌, ◌≤◌, ◌^◌,
}
use uncover.Graphs.Mapping.{Mapping, get_tar}
use uncover.Engine.MatchFinder.{ok, Problem}
use uncover.Engine.MatchFinder.Partial.{Extends, IsInjective}
use uncover.Engine.MatchFinder.Isolated.{extend_found, extend_all}
use uncover.Engine.MatchFinder.Filled.{Agrees}
use uncover.Engine.MatchFinder.Added.{Chooses, Added, sequences, inj-Added, enum_non_inj-Listed}
use uncover.Engine.MatchFinder.Targets.{Hit}

-- What the enumerations need: vertices to map, each of them once, and room in a size_t and in the
-- fuel.
pub record Room (p : Problem) (n i : ℕ) (is : List ℕ) : Type 0 where
  pub distinct : IsDistinct (i ∷ is)
  pub small : length (keys p.target.vertices) < 2 ^ 64
  pub enough : sequences (i ∷ is) (keys p.target.vertices) ≤ n

-- A match of the edges that maps none of these vertices.
pub record Before (i : ℕ) (is : List ℕ) (m : Mapping) : Type 0 where
  pub ordered : IsOrdered m
  pub fresh : (j : ℕ) → contains j (i ∷ is) ≡ true → get_tar m j ≡ none

pub extend_found_lem :
    (p : Problem) (n i : ℕ) (is : List ℕ) (m : Mapping) (all : List Mapping)
    → Room p n i is
    → Before i is m
    → (all' : List Mapping) × (extend_found n p (i ∷ is) m all ≡ ok all')
      × Added p (i ∷ is) m all all'
unfolding extend_found
extend_found_lem p n i is m all room before = elim (Bool-cases p.injective) [
  | inl inj ↦ (
    _,
    ground (arith, inj),
    inj-Added p (i ∷ is) m all inj room.distinct before.ordered before.fresh,
  )
  | inr free ↦
      let (all', is_ok, h) =
        enum_non_inj-Listed n i is (keys p.target.vertices) m all room.distinct room.small
          room.enough in
      (
        all',
        ground (arith, free, is_ok),
        record {
          sound = λ k c. elim (h.sound k c) [
            | inl old ↦ inl old
            | inr filled ↦ inr (filled, λ j. absurd (ground (arith, j, free)))
          ];
          kept = h.kept;
          complete = λ f j x chosen. h.complete f chosen;
        },
      )
]

-- A mapping that is `f` on the new vertices extends the same mappings as the match of the edges.
pub Agrees-Extends : (is : List ℕ) (f m k : Mapping) → Extends f m → Agrees is f m k → Extends f k
Agrees-Extends is f m k x a = λ i t h. elim (Bool-cases (contains i is)) [
  | inl c ↦ ground (arith, c, a i, h)
  | inr c ↦ x i t (ground (arith, c, a i, h))
]

pub record AddedAll (p : Problem) (is : List ℕ) (ms all all' : List Mapping) : Type 0 where
  pub sound : (k : Mapping) → In k all' → In k all ⊎ ((m : Mapping) × In m ms × IsFilling p is m k)
  pub kept : (k : Mapping) → In k all → In k all'
  pub complete :
      (f : Mapping)
      → (p.injective ≡ true → IsInjective f)
      → Hit f ms
      → Chooses f is (keys p.target.vertices)
      → Hit f all'

AddedAll-more :
    (p : Problem) (is : List ℕ) (m : Mapping) (ms all all' all'' : List Mapping)
    → Added p is m all all'
    → AddedAll p is ms all' all''
    → AddedAll p is (m ∷ ms) all all''
AddedAll-more p is m ms all all' all'' one rest = record {
  sound = λ k c. elim (rest.sound k c) [
    | inr (u, d, h) ↦ inr (u, inr d, h)
    | inl old ↦ elim (one.sound k old) [ inl older ↦ inl older | inr h ↦ inr (m, inl refl, h) ]
  ];
  kept = λ k c. rest.kept k (one.kept k c);
  complete = λ f j (u, c, x) chosen. elim c [
    | inr d ↦ rest.complete f j (u, d, x) chosen
    | inl here ↦
        let below : Extends f m = subst (Extends f) here x in
        let (k, d, a) = one.complete f j below chosen in
        (k, rest.kept k d, Agrees-Extends is f m k below a)
  ];
}

extend_all-step :
    (p : Problem) (n : ℕ) (is : List ℕ) (m : Mapping) (ms all all' : List Mapping)
    → extend_found n p is m all ≡ ok all'
    → extend_all n p is (m ∷ ms) all ≡ extend_all n p is ms all'
unfolding extend_all
extend_all-step p n is m ms all all' h = rw (h, extend_all) refl

pub extend_all_lem :
    (p : Problem) (n i : ℕ) (is : List ℕ) (ms all : List Mapping)
    → Room p n i is
    → ((m : Mapping) → In m ms → Before i is m)
    → (all' : List Mapping) × (extend_all n p (i ∷ is) ms all ≡ ok all')
      × AddedAll p (i ∷ is) ms all all'
unfolding extend_all
extend_all_lem p n i is [] all room before = (
  all,
  refl,
  record { sound = λ k c. inl c; kept = λ k c. c; complete = λ f j (m, c, x) chosen. absurd c },
)
extend_all_lem p n i is (m ∷ ms) all room before =
    let (all', is_ok, one) = extend_found_lem p n i is m all room (before m (inl refl)) in
    let (all'', is_ok', rest) = extend_all_lem p n i is ms all' room (λ k c. before k (inr c)) in
    (
      all'',
      extend_all-step p n (i ∷ is) m ms all all' is_ok ∙ is_ok',
      AddedAll-more p (i ∷ is) m ms all all' all'' one rest,
    )
