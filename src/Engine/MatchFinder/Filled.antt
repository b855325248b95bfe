-- ===== src/Engine/MatchFinder/Filled.antt =====
-- What mapping the isolated vertices adds to a mapping.
use uncover.Base.{
  ℕ, ◌≡◌, List, ◌∷◌, true, false, some, arith, contains, insert, lookup-insert, ◌==◌, if◌then◌else◌,
  Bool-cases, inl, inr, ◌∙◌,
}
use uncover.Graphs.Mapping.{Mapping, get_tar}

-- Every one of these sources has a target of the list, and all others are mapped as before.
pub record IsFilled (is targets : List ℕ) (m m' : Mapping) : Type 0 where
  pub filled :
      (i : ℕ)
      → contains i is ≡ true
      → (t : ℕ) × (get_tar m' i ≡ some t) × (contains t targets ≡ true)
  pub others : (i : ℕ) → contains i is ≡ false → get_tar m' i ≡ get_tar m i

-- The mapping is `f` on these sources, and as before on all others.
abbrev pub Agrees : List ℕ → Mapping → Mapping → Mapping → Type 0
Agrees is f m m' = (i : ℕ) → get_tar m' i ≡ (if contains i is then get_tar f i else get_tar m i)

pub IsFilled-insert :
    (i t : ℕ) (is targets : List ℕ) (m m' : Mapping)
    → contains i is ≡ false
    → contains t targets ≡ true
    → IsFilled is targets (insert i t m) m'
    → IsFilled (i ∷ is) targets m m'
IsFilled-insert i t is targets m m' apart c h = record {
  filled = λ j k. elim (Bool-cases (contains j is)) [
    | inl later ↦ h.filled j later
    | inr here ↦
        let same : (i == j) ≡ true = ground (arith, k, here) in
        (t, ground (arith, same, h.others j here, lookup-insert i j t m), c)
  ];
  others = λ j k. ground (arith, k, h.others j (ground (arith, k)), lookup-insert i j t m);
}

pub IsFilled-before :
    (is targets : List ℕ) (m₀ m m' : Mapping)
    → ((i : ℕ) → contains i is ≡ false → get_tar m i ≡ get_tar m₀ i)
    → IsFilled is targets m m'
    → IsFilled is targets m₀ m'
IsFilled-before is targets m₀ m m' a h = record {
  filled = h.filled;
  others = λ i k. h.others i k ∙ a i k;
}

pub Agrees-insert :
    (i t : ℕ) (is : List ℕ) (f m m' : Mapping)
    → get_tar f i ≡ some t
    → Agrees is f (insert i t m) m'
    → Agrees (i ∷ is) f m m'
Agrees-insert i t is f m m' at h = λ j. elim (Bool-cases (i == j)) [
  | inl same ↦
      let is_j : i ≡ j = ground (arith, same) in
      ground (arith, same, is_j, at, h j, lookup-insert i j t m)
  | inr other ↦ ground (arith, other, h j, lookup-insert i j t m)
]

pub Agrees-before :
    (is : List ℕ) (f m₀ m m' : Mapping)
    → ((i : ℕ) → contains i is ≡ false → get_tar m i ≡ get_tar m₀ i)
    → Agrees is f m m'
    → Agrees is f m₀ m'
Agrees-before is f m₀ m m' a h = λ i. elim (Bool-cases (contains i is)) [
  | inl k ↦ ground (arith, k, h i)
  | inr k ↦ ground (arith, k, h i, a i k)
]
