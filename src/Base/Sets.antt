-- ===== src/Base/Sets.antt =====
-- Sets of IDs (`unordered_set<IDType>`): lists without duplicates, in the order of insertion. The
-- program never relies on the iteration order.
use Prim.Native.Nat.{ℕ, ◌+◌}
use mathlib.Core.Path.{◌≡◌, refl}
use mathlib.Core.Bool.{Bool, true, false, not, ◌&&◌, ◌||◌}
use mathlib.Core.List.{List, [], ◌∷◌, ◌++◌}
use native.Mathlib.Omega.{arith}
use uncover.Base.Lists.{length, all_of, some_of}
use mathlib.Core.Logic.{inl, inr}
use uncover.Base.Tests.{Bool-cases, ltb, ◌==◌, if◌then◌else◌}

-- `s.count(id)`, and `std::find` on a vector of IDs.
abbrev pub contains : ℕ → List ℕ → Bool
contains a [] = false
contains a (x ∷ xs) = (x == a) || contains a xs

-- `s.insert(id)`
unfoldable pub insert_id : ℕ → List ℕ → List ℕ
insert_id a [] = a ∷ []
insert_id a (x ∷ xs) = if x == a then x ∷ xs else x ∷ insert_id a xs

-- `s.erase(id)`; on a multiset it removes every copy.
unfoldable pub erase_id : ℕ → List ℕ → List ℕ
erase_id a [] = []
erase_id a (x ∷ xs) = if x == a then erase_id a xs else x ∷ erase_id a xs

-- How often an ID stands in a vector or a multiset.
abbrev pub count : ℕ → List ℕ → ℕ
count a [] = 0
count a (x ∷ xs) = (if x == a then 1 else 0) + count a xs

pub contains-insert_id :
    (a b : ℕ) (s : List ℕ) → contains b (insert_id a s) ≡ ((a == b) || contains b s)
unfolding insert_id
contains-insert_id a b [] = refl
contains-insert_id a b (x ∷ s) = ground (arith, contains-insert_id a b s)

pub contains-erase_id :
    (a b : ℕ) (s : List ℕ) → contains b (erase_id a s) ≡ (not (a == b) && contains b s)
unfolding erase_id
contains-erase_id a b [] = ground arith
contains-erase_id a b (x ∷ s) = ground (arith, contains-erase_id a b s)

pub count-erase_id :
    (a b : ℕ) (s : List ℕ) → count b (erase_id a s) ≡ (if a == b then 0 else count b s)
unfolding erase_id
count-erase_id a b [] = ground arith
count-erase_id a b (x ∷ s) = ground (arith, count-erase_id a b s)

-- A test passes for all elements if and only if it does for everything that the list contains.
pub all_of-contains :
    (p : ℕ → Bool) (xs : List ℕ) (x : ℕ) → all_of p xs ≡ true → contains x xs ≡ true → p x ≡ true
all_of-contains p [] x a c = cc
all_of-contains p (y ∷ xs) x a c = ground (arith, all_of-contains p xs x)

pub all_of-intro :
    (p : ℕ → Bool) (xs : List ℕ)
    → ((x : ℕ) → contains x xs ≡ true → p x ≡ true)
    → all_of p xs ≡ true
all_of-intro p [] f = refl
all_of-intro p (y ∷ xs) f =
    let rest : (x : ℕ) → contains x xs ≡ true → p x ≡ true = λ x c. f x (ground arith) in
    ground (arith, f y (ground arith), all_of-intro p xs rest)

-- A list of at most one element contains at most one number.
pub contains-single :
    (x y : ℕ) (xs : List ℕ)
    → ltb 1 (length xs) ≡ false
    → contains x xs ≡ true
    → contains y xs ≡ true
    → x ≡ y
contains-single x y [] l c d = cc
contains-single x y (z ∷ []) l c d = ground arith
contains-single x y (z ∷ w ∷ xs) l c d = absurd (ground arith)

-- No element stands twice.
abbrev pub IsDistinct : List ℕ → Type 0
IsDistinct [] = Unit
IsDistinct (x ∷ xs) = (contains x xs ≡ false) × IsDistinct xs

pub insert_id-IsDistinct : (a : ℕ) (xs : List ℕ) → IsDistinct xs → IsDistinct (insert_id a xs)
unfolding insert_id
insert_id-IsDistinct a [] d = (refl, tt)
insert_id-IsDistinct a (x ∷ xs) d =
    ground (arith, insert_id-IsDistinct a xs d.1, contains-insert_id a x xs)

-- Beside one element of a list of several there is another.
pub contains-other :
    (x : ℕ) (xs : List ℕ)
    → IsDistinct xs
    → ltb 1 (length xs) ≡ true
    → contains x xs ≡ true
    → (y : ℕ) × (contains y xs ≡ true) × ((x == y) ≡ false)
contains-other x [] d l c = cc
contains-other x (y ∷ []) d l c = absurd (ground arith)
contains-other x (y ∷ z ∷ xs) d l c = elim (Bool-cases (x == y)) [
  | inl e ↦ (z, ground arith, ground arith)
  | inr e ↦ (y, ground arith, e)
]

pub some_of-contains :
    (p : ℕ → Bool) (xs : List ℕ) (x : ℕ) → contains x xs ≡ true → p x ≡ true → some_of p xs ≡ true
some_of-contains p [] x c h = cc
some_of-contains p (y ∷ xs) x c h = ground (arith, some_of-contains p xs x)

pub all_of-fails :
    (p : ℕ → Bool) (xs : List ℕ)
    → all_of p xs ≡ false
    → (x : ℕ) × (contains x xs ≡ true) × (p x ≡ false)
all_of-fails p [] h = cc
all_of-fails p (y ∷ xs) h = elim (Bool-cases (p y)) [
  | inr e ↦ (y, ground arith, e)
  | inl e ↦ let (x, c, f) = all_of-fails p xs (rw e at h) in (x, ground arith, f)
]

pub some_of-found :
    (p : ℕ → Bool) (xs : List ℕ)
    → some_of p xs ≡ true
    → (x : ℕ) × (contains x xs ≡ true) × (p x ≡ true)
some_of-found p [] h = cc
some_of-found p (y ∷ xs) h = elim (Bool-cases (p y)) [
  | inl e ↦ (y, ground arith, e)
  | inr e ↦ let (x, c, f) = some_of-found p xs (rw e at h) in (x, ground arith, f)
]

pub contains-append :
    (x : ℕ) (xs ys : List ℕ) → contains x (xs ++ ys) ≡ (contains x xs || contains x ys)
contains-append x [] ys = refl
contains-append x (y ∷ xs) ys = ground (arith, contains-append x xs ys)
