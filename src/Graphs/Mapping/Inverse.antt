-- ===== src/Graphs/Mapping/Inverse.antt =====
-- getInverseMatch and isInjective.
use uncover.Base.{
  IsDistinct, insert_id-IsDistinct, subst, Bool-cases, Option-cases, inl, inr, some,
  insert-IsOrdered, all_of, all_of-entries, ℕ, ◌≡◌, refl, List, [], ◌∷◌, Bool, false, ◌||◌, none,
  some, arith, lookup, insert, lookup-insert, IsOrdered, lookup-before, contains, insert_id,
  contains-insert_id, ◌==◌, if◌then◌else◌, true, ◌↔◌,
}
use uncover.Graphs.Mapping.{
  Mapping, inverse_of, inverse_into, inverse, set_at, is_injective, injective_from, get_tar,
}

-- Whether the map sends `s` to `t`.
abbrev pub sends : Mapping → ℕ → ℕ → Bool
sends m s t = elim (lookup s m) [ none ↦ false | some u ↦ u == t ]

pub sends-get_tar : (m : Mapping) (s t : ℕ) → sends m s t ≡ true → get_tar m s ≡ some t
sends-get_tar m s t h = ground arith

-- getInverseMatch of a target is the set of the sources that are mapped to it.
pub inverse_of_lem :
    (m : Mapping) (s t : ℕ) → IsOrdered m → contains s (inverse_of m t) ≡ sends m s t
unfolding inverse_of
inverse_of_lem [] s t o = refl
inverse_of_lem ((j, u) ∷ m) s t o = ground (
  arith,
  inverse_of_lem m s t o.1,
  contains-insert_id j s (inverse_of m t),
  lookup-before j m o.0,
)

set_at-insert :
    (k i : ℕ) (ss : List ℕ) (m : List (ℕ × List ℕ))
    → set_at (insert k ss m) i ≡ (if k == i then ss else set_at m i)
set_at-insert k i ss m = ground (arith, lookup-insert k i ss m)

inverse_into_lem :
    (m : Mapping) (inv : List (ℕ × List ℕ)) (s t : ℕ)
    → IsOrdered m
    → contains s (set_at (inverse_into m inv) t) ≡ (contains s (set_at inv t) || sends m s t)
unfolding inverse_into
inverse_into_lem [] inv s t o = ground arith
inverse_into_lem ((j, u) ∷ m) inv s t o = ground (
  arith,
  inverse_into_lem m (insert u (insert_id j (set_at inv u)) inv) s t o.1,
  set_at-insert u t (insert_id j (set_at inv u)) inv,
  contains-insert_id j s (set_at inv u),
  lookup-before j m o.0,
)

-- The map of getInverseMatch has at every target the set that getInverseMatch of the target gives.
pub inverse_lem :
    (m : Mapping) (s t : ℕ)
    → IsOrdered m
    → contains s (set_at (inverse m) t) ≡ contains s (inverse_of m t)
unfolding inverse
inverse_lem m s t o = ground (arith, inverse_into_lem m [] s t o, inverse_of_lem m s t o)

-- No target is in the set, and no two sources have the same target.
record Injective (m : Mapping) (ids : List ℕ) : Type 0 where
  fresh : (s t : ℕ) → sends m s t ≡ true → contains t ids ≡ false
  single : (s s' t : ℕ) → sends m s t ≡ true → sends m s' t ≡ true → s ≡ s'

injective_from-Injective :
    (m : Mapping) (ids : List ℕ) → IsOrdered m → injective_from m ids ≡ true → Injective m ids
unfolding injective_from
injective_from-Injective [] ids o h = record { fresh = λ s t k. cc; single = λ s s' t k k'. cc }
injective_from-Injective ((j, u) ∷ m) ids o h =
    let absent : contains u ids ≡ false = ground arith in
    let r = injective_from-Injective m (insert_id u ids) o.1 (ground arith) in
    record {
      fresh = λ s t k. ground (arith, r.fresh s t, contains-insert_id u t ids);
      single = λ s s' t k k'.
          ground (arith, r.single s s' t, r.fresh s t, r.fresh s' t, contains-insert_id u t ids);
    }

Injective-injective_from :
    (m : Mapping) (ids : List ℕ) → IsOrdered m → Injective m ids → injective_from m ids ≡ true
unfolding injective_from
Injective-injective_from [] ids o r = refl
Injective-injective_from ((j, u) ∷ m) ids o r =
    let rest : Injective m (insert_id u ids) = record {
      fresh = λ s t k.
          ground
            (arith, r.fresh s t, r.single s j t, contains-insert_id u t ids, lookup-before j m o.0);
      single = λ s s' t k k'. ground (arith, r.single s s' t, lookup-before j m o.0);
    } in
    ground (arith, Injective-injective_from m (insert_id u ids) o.1 rest, r.fresh j u)

-- isInjective answers true if and only if no two sources are mapped to the same target.
pub is_injective_iff :
    (m : Mapping)
    → IsOrdered m
    → (is_injective m ≡ true) ↔ ((s s' t : ℕ) → sends m s t ≡ true → sends m s' t ≡ true → s ≡ s')
unfolding is_injective
is_injective_iff m o = (
  λ h. (injective_from-Injective m [] o h).single,
  λ f. Injective-injective_from m [] o (record { fresh = λ s t k. refl; single = f }),
)

pub inverse_into-IsOrdered :
    (m : Mapping) (inv : List (ℕ × List ℕ)) → IsOrdered inv → IsOrdered (inverse_into m inv)
unfolding inverse_into
inverse_into-IsOrdered [] inv o = o
inverse_into-IsOrdered ((s, t) ∷ m) inv o =
    inverse_into-IsOrdered m (insert t (insert_id s (set_at inv t)) inv)
      (insert-IsOrdered t (insert_id s (set_at inv t)) inv o)

-- A test passes for all sets of the inverse if and only if it passes for all sets that a target is
-- looked up with.
pub all_of-inverse :
    (q : List ℕ → Bool) (m : Mapping)
    → (all_of (λ p. q p.1) (inverse m) ≡ true)
      ↔ ((t : ℕ) (ss : List ℕ) → lookup t (inverse m) ≡ some ss → q ss ≡ true)
unfolding inverse
all_of-inverse q m = all_of-entries q (inverse_into m []) (inverse_into-IsOrdered m [] tt)

-- What is looked up is the set of the sources of that target.
pub lookup-inverse :
    (m : Mapping) (s t : ℕ) (ss : List ℕ)
    → IsOrdered m
    → lookup t (inverse m) ≡ some ss
    → contains s ss ≡ sends m s t
lookup-inverse m s t ss o e = ground (arith, inverse_lem m s t o, inverse_of_lem m s t o)

pub inverse-found :
    (m : Mapping) (s t : ℕ)
    → IsOrdered m
    → sends m s t ≡ true
    → (ss : List ℕ) × (lookup t (inverse m) ≡ some ss)
inverse-found m s t o h = elim (Option-cases (lookup t (inverse m))) [
  | inl e ↦ absurd (ground (arith, inverse_lem m s t o, inverse_of_lem m s t o))
  | inr found ↦ found
]

inverse_into-IsDistinct :
    (m : Mapping) (inv : List (ℕ × List ℕ)) (t : ℕ)
    → ((u : ℕ) → IsDistinct (set_at inv u))
    → IsDistinct (set_at (inverse_into m inv) t)
unfolding inverse_into
inverse_into-IsDistinct [] inv t d = d t
inverse_into-IsDistinct ((s, u) ∷ m) inv t d =
    let set = insert_id s (set_at inv u) in
    let step : (x : ℕ) → IsDistinct (set_at (insert u set inv) x) = λ x.
      rw (set_at-insert u x set inv) (elim (Bool-cases (u == x)) [
        | inl e ↦ rw e (insert_id-IsDistinct s (set_at inv u) (d u))
        | inr e ↦ rw e (d x)
      ]) in
    inverse_into-IsDistinct m (insert u set inv) t step

pub lookup-inverse-IsDistinct :
    (m : Mapping) (t : ℕ) (ss : List ℕ) → lookup t (inverse m) ≡ some ss → IsDistinct ss
unfolding inverse
lookup-inverse-IsDistinct m t ss e =
    subst (λ o. IsDistinct (elim o [ none ↦ [] | some xs ↦ xs ])) e
      (inverse_into-IsDistinct m [] t (λ u. tt))
