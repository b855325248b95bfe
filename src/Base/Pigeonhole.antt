-- ===== src/Base/Pigeonhole.antt =====
-- Counting the elements of lists of IDs.
use Prim.Native.Nat.{ℕ, ◌+◌, ◌≤◌, ◌<◌}
use mathlib.Core.Path.{◌≡◌, refl, ap, subst}
use mathlib.Core.Bool.{Bool, true, not, ◌&&◌}
use mathlib.Core.List.{List, [], ◌∷◌}
use mathlib.Core.Logic.{inl, inr}
use native.Mathlib.Omega.{arith}
use uncover.Base.Lists.{length, select}
use uncover.Base.Sets.{contains, erase_id, contains-erase_id, IsDistinct}
use uncover.Base.Tests.{Bool-cases, ◌==◌}

length-erase_id : (a : ℕ) (xs : List ℕ) → length (erase_id a xs) ≤ length xs
unfolding erase_id
length-erase_id a [] = omega arith
length-erase_id a (x ∷ xs) = ground (arith, length-erase_id a xs)

length-erase_id-contained :
    (a : ℕ) (xs : List ℕ) → contains a xs ≡ true → length (erase_id a xs) < length xs
unfolding erase_id
length-erase_id-contained a [] c = cc
length-erase_id-contained a (x ∷ xs) c =
    ground (arith, length-erase_id-contained a xs, length-erase_id a xs)

-- If every element of the first list has one of the second, and none of these belongs to two, the
-- first list is not longer.
pub pigeonhole :
    (R : ℕ → ℕ → Type 0) (ts ss : List ℕ)
    → IsDistinct ts
    → ((t : ℕ) → contains t ts ≡ true → (s : ℕ) × (contains s ss ≡ true) × R t s)
    → ((t t' s : ℕ) → R t s → R t' s → t ≡ t')
    → length ts ≤ length ss
pigeonhole R [] ss d f g = omega arith
pigeonhole R (t ∷ ts) ss d f g =
    let (s, c, r) = f t (ground arith) in
    let rest : (u : ℕ)
        → contains u ts ≡ true
        → (s' : ℕ) × (contains s' (erase_id s ss) ≡ true) × R u s' =
      λ u k.
        let (s', c', r') = f u (ground (arith, k)) in
        elim (Bool-cases (s == s')) [
          | inr other ↦ (s', ground (arith, other, c', contains-erase_id s s' ss), r')
          | inl same ↦
              let is_s : s' ≡ s = ground (arith, same) in
              let is_t : u ≡ t = g u t s (subst (R u) is_s r') r in
              absurd (ground (arith, d.0, is_t, k))
        ] in
    ground (arith, pigeonhole R ts (erase_id s ss) d.1 rest g, length-erase_id-contained s ss c)

pub select-complement :
    (q : ℕ → Bool) (xs : List ℕ)
    → length (select q xs) + length (select (λ x. not (q x)) xs) ≡ length xs
select-complement q [] = refl
select-complement q (x ∷ xs) = ground (arith, select-complement q xs)

pub contains-select :
    (q : ℕ → Bool) (xs : List ℕ) (x : ℕ) → contains x (select q xs) ≡ (contains x xs && q x)
contains-select q [] x = refl
contains-select q (y ∷ xs) x = elim (Bool-cases (y == x)) [
  | inl same ↦
      let is_x : y ≡ x = ground (arith, same) in
      ground (arith, same, ap q is_x, contains-select q xs x)
  | inr other ↦ ground (arith, other, contains-select q xs x)
]

pub select-IsDistinct : (q : ℕ → Bool) (xs : List ℕ) → IsDistinct xs → IsDistinct (select q xs)
select-IsDistinct q [] d = tt
select-IsDistinct q (x ∷ xs) d = elim (Bool-cases (q x)) [
  | inl y ↦ ground (arith, y, d.0, select-IsDistinct q xs d.1, contains-select q xs x)
  | inr n ↦ ground (arith, n, select-IsDistinct q xs d.1)
]
