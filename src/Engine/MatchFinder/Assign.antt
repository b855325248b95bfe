-- ===== src/Engine/MatchFinder/Assign.antt =====
-- The targets that the digits of the enumerator stand for.
use uncover.Base.{
  ℕ, ◌≡◌, refl, List, [], ◌∷◌, Bool, true, some, arith, contains, insert, IsDistinct, ◌==◌, ltb,
  Bool-cases, inl, inr, ap, length, all_of, get_elem?, zero, suc,
}
use uncover.Graphs.Mapping.{Mapping, get_tar}
use uncover.Engine.MatchFinder.{ok}
use uncover.Engine.MatchFinder.Isolated.{assign}
use uncover.Engine.MatchFinder.Filled.{IsFilled, Agrees, IsFilled-insert, Agrees-insert}

get_elem?-some :
    (ts : List ℕ) (d : ℕ)
    → ltb d (length ts) ≡ true
    → (t : ℕ) × (get_elem? ts d ≡ some t) × (contains t ts ≡ true)
get_elem?-some [] d h = absurd (ground arith)
get_elem?-some (t ∷ ts) zero h = (t, refl, ground arith)
get_elem?-some (t ∷ ts) (suc d) h =
    let (u, is_u, c) = get_elem?-some ts d (ground arith) in (u, is_u, ground (arith, c))

contains-get_elem? :
    (ts : List ℕ) (t : ℕ)
    → contains t ts ≡ true
    → (d : ℕ) × (get_elem? ts d ≡ some t) × (ltb d (length ts) ≡ true)
contains-get_elem? [] t c = cc
contains-get_elem? (u ∷ ts) t c = elim (Bool-cases (u == t)) [
  | inl same ↦ let is_t : u ≡ t = ground (arith, same) in (0, ap some is_t, ground arith)
  | inr other ↦
      let (d, at, l) = contains-get_elem? ts t (ground (arith, c, other)) in
      (suc d, at, ground (arith, l))
]

abbrev pub valid_digits : List ℕ → List ℕ → Bool
valid_digits targets ds = all_of (λ d. ltb d (length targets)) ds

-- With as many valid digits as vertices nothing is out of range.
pub assign_lem :
    (is ds targets : List ℕ) (m : Mapping)
    → IsDistinct is
    → length is ≡ length ds
    → valid_digits targets ds ≡ true
    → (m' : Mapping) × (assign is ds targets m ≡ ok m') × IsFilled is targets m m'
unfolding assign
assign_lem [] ds targets m d l v = (m, refl, record { filled = λ i c. cc; others = λ i c. refl })
assign_lem (i ∷ is) [] targets m d l v = absurd (omega arith)
assign_lem (i ∷ is) (k ∷ ds) targets m d l v =
    let (t, at, c) = get_elem?-some targets k (ground arith) in
    let (m', is_ok, h) =
      assign_lem is ds targets (insert i t m) d.1 (omega arith) (ground (arith, v)) in
    (m', ground (arith, at, is_ok), IsFilled-insert i t is targets m m' d.0 c h)

-- The digits stand for the targets that a mapping has.
abbrev pub Codes : Mapping → List ℕ → List ℕ → List ℕ → Type 0
Codes f targets [] [] = Unit
Codes f targets [] (d ∷ ds) = ⊥
Codes f targets (i ∷ is) [] = ⊥
Codes f targets (i ∷ is) (d ∷ ds) =
    ((t : ℕ) × (get_tar f i ≡ some t) × (get_elem? targets d ≡ some t)) × Codes f targets is ds

pub assign-Agrees :
    (is ds targets : List ℕ) (f m m' : Mapping)
    → Codes f targets is ds
    → assign is ds targets m ≡ ok m'
    → Agrees is f m m'
unfolding assign
assign-Agrees [] [] targets f m m' c h = λ i. ground (arith, h)
assign-Agrees [] (d ∷ ds) targets f m m' c h = absurd c
assign-Agrees (i ∷ is) [] targets f m m' c h = absurd c
assign-Agrees (i ∷ is) (d ∷ ds) targets f m m' ((t, at, at'), c) h =
    Agrees-insert i t is f m m' at
      (assign-Agrees is ds targets f (insert i t m) m' c (ground (arith, at', h)))

-- A mapping of the vertices to targets has a code.
pub Codes-exist :
    (is targets : List ℕ) (f : Mapping)
    → ((i : ℕ)
        → contains i is ≡ true
        → (t : ℕ) × (get_tar f i ≡ some t) × (contains t targets ≡ true))
    → (ds : List ℕ) × Codes f targets is ds
      × (length is ≡ length ds)
      × (valid_digits targets ds ≡ true)
Codes-exist [] targets f h = ([], tt, refl, refl)
Codes-exist (i ∷ is) targets f h =
    let (t, at, c) = h i (ground arith) in
    let (d, at', l) = contains-get_elem? targets t c in
    let (ds, codes, sized, valid) = Codes-exist is targets f (λ j k. h j (ground (arith, k))) in
    (d ∷ ds, ((t, at, at'), codes), ground (arith, sized), ground (arith, l, valid))
