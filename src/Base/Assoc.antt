-- ===== src/Base/Assoc.antt =====
-- Maps keyed by IDs (`std::map` and `std::unordered_map`): association lists in the order of the
-- keys, which is the iteration order of `std::map` and one of those that `unordered_map` allows.
use Prim.Native.Nat.{ℕ, ◌+◌}
use mathlib.Core.Path.{◌≡◌, refl}
use mathlib.Core.Bool.{Bool, true, false}
use mathlib.Core.List.{List, [], ◌∷◌, map}
use mathlib.Core.Option.{Option, none, some}
use native.Mathlib.Omega.{arith}
use uncover.Base.Lists.{length, all_of}
use mathlib.Core.Logic.{◌↔◌, inl, inr}
use uncover.Base.Sets.{contains}
use uncover.Base.Tests.{Bool-cases, ltb, ◌==◌, if◌then◌else◌}

module _ {ℓ} {V : Type ℓ} where
  -- `m.find(k)`
  abbrev pub lookup : ℕ → List (ℕ × V) → Option V
  lookup k [] = none
  lookup k ((j, v) ∷ m) = if j == k then some v else lookup k m

  -- `m.count(k) > 0`
  abbrev pub has_key : ℕ → List (ℕ × V) → Bool
  has_key k m = elim (lookup k m) [ some _ ↦ true | none ↦ false ]

  -- `m[k] = v`
  unfoldable pub insert : ℕ → V → List (ℕ × V) → List (ℕ × V)
  insert k v [] = (k, v) ∷ []
  insert k v ((j, w) ∷ m) =
      if ltb k j then (k, v) ∷ (j, w) ∷ m else if j == k then (k, v) ∷ m else (j, w) ∷ insert k v m

  -- `m.erase(k)`
  unfoldable pub erase : ℕ → List (ℕ × V) → List (ℕ × V)
  erase k [] = []
  erase k ((j, w) ∷ m) = if j == k then erase k m else (j, w) ∷ erase k m

  abbrev pub keys : List (ℕ × V) → List ℕ
  keys = map (λ p. p.0)

  pub lookup-insert :
      (k i : ℕ) (v : V) (m : List (ℕ × V))
      → lookup i (insert k v m) ≡ (if k == i then some v else lookup i m)
  unfolding insert
  lookup-insert k i v [] = refl
  lookup-insert k i v ((j, w) ∷ m) = ground (arith, lookup-insert k i v m)

  pub lookup-erase :
      (k i : ℕ) (m : List (ℕ × V)) → lookup i (erase k m) ≡ (if k == i then none else lookup i m)
  unfolding erase
  lookup-erase k i [] = ground arith
  lookup-erase k i ((j, w) ∷ m) = ground (arith, lookup-erase k i m)

  -- The keys stand in strictly increasing order, so none stands twice.
  abbrev pub IsOrdered : List (ℕ × V) → Type 0
  IsOrdered [] = Unit
  IsOrdered ((k, v) ∷ m) = (all_of (λ p. ltb k p.0) m ≡ true) × IsOrdered m

  all_of-insert :
      (j k : ℕ) (v : V) (m : List (ℕ × V))
      → ltb j k ≡ true
      → all_of (λ p. ltb j p.0) m ≡ true
      → all_of (λ p. ltb j p.0) (insert k v m) ≡ true
  unfolding insert
  all_of-insert j k v [] h a = ground arith
  all_of-insert j k v ((i, w) ∷ m) h a = ground (arith, all_of-insert j k v m)

  all_of-erase :
      (j k : ℕ) (m : List (ℕ × V))
      → all_of (λ p. ltb j p.0) m ≡ true
      → all_of (λ p. ltb j p.0) (erase k m) ≡ true
  unfolding erase
  all_of-erase j k [] a = refl
  all_of-erase j k ((i, w) ∷ m) a = ground (arith, all_of-erase j k m)

  all_of-below :
      (j k : ℕ) (m : List (ℕ × V))
      → ltb j k ≡ true
      → all_of (λ p. ltb k p.0) m ≡ true
      → all_of (λ p. ltb j p.0) m ≡ true
  all_of-below j k [] h a = refl
  all_of-below j k ((i, w) ∷ m) h a = ground (arith, all_of-below j k m)

  pub insert-IsOrdered : (k : ℕ) (v : V) (m : List (ℕ × V)) → IsOrdered m → IsOrdered (insert k v m)
  unfolding insert
  insert-IsOrdered k v [] o = (refl, tt)
  insert-IsOrdered k v ((j, w) ∷ m) o =
      ground (arith, insert-IsOrdered k v m o.1, all_of-insert j k v m, all_of-below k j m)

  pub erase-IsOrdered : (k : ℕ) (m : List (ℕ × V)) → IsOrdered m → IsOrdered (erase k m)
  unfolding erase
  erase-IsOrdered k [] o = tt
  erase-IsOrdered k ((j, w) ∷ m) o = ground (arith, erase-IsOrdered k m o.1, all_of-erase j k m)

  -- Below the first key there is none.
  pub lookup-before :
      (k : ℕ) (m : List (ℕ × V)) → all_of (λ p. ltb k p.0) m ≡ true → lookup k m ≡ none
  lookup-before k [] a = refl
  lookup-before k ((j, w) ∷ m) a = ground (arith, lookup-before k m)

  pub lookup-none-erase :
      (k : ℕ) (m : List (ℕ × V)) → has_key k m ≡ false → length (erase k m) ≡ length m
  unfolding erase
  lookup-none-erase k [] h = refl
  lookup-none-erase k ((j, w) ∷ m) h = ground (arith, lookup-none-erase k m)

  -- A map holds at most one value for a key.
  pub length-erase :
      (k : ℕ) (m : List (ℕ × V))
      → IsOrdered m
      → length m ≡ length (erase k m) + (if has_key k m then 1 else 0)
  unfolding erase
  length-erase k [] o = refl
  length-erase k ((j, w) ∷ m) o =
      ground (arith, length-erase k m o.1, lookup-none-erase k m, lookup-before j m o.0)

  -- A test passes for all entries if and only if it does for what every key finds.
  pub all_of-entries :
      (q : V → Bool) (m : List (ℕ × V))
      → IsOrdered m
      → (all_of (λ p. q p.1) m ≡ true) ↔ ((k : ℕ) (v : V) → lookup k m ≡ some v → q v ≡ true)
  all_of-entries q [] o = (λ h k v e. cc, λ f. refl)
  all_of-entries q ((j, w) ∷ m) o =
      let (to, from) = all_of-entries q m o.1 in
      (
        λ h k v e. elim (Bool-cases (j == k)) [
          | inl same ↦ ground arith
          | inr other ↦ to (ground arith) k v (rw other at e)
        ],
        λ f.
            let rest : (k : ℕ) (v : V) → lookup k m ≡ some v → q v ≡ true =
              λ k v e. f k v (ground (arith, lookup-before j m o.0)) in
            ground (arith, f j w, from rest),
      )

  pub contains-keys : (k : ℕ) (m : List (ℕ × V)) → contains k (keys m) ≡ has_key k m
  contains-keys k [] = refl
  contains-keys k ((j, w) ∷ m) = ground (arith, contains-keys k m)
