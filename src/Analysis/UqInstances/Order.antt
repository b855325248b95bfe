-- ===== src/Analysis/UqInstances/Order.antt =====
-- The order in which the vectors of quantities are met.
use uncover.Base.{
  ℕ, zero, suc, ◌+◌, ◌-◌, ◌≤◌, ◌≡◌, refl, List, [], ◌∷◌, ◌++◌, Option, none, some, true, false,
  arith, leb, if◌then◌else◌, Option-cases, In, inl, ◌↔◌, inr, ◌<◌, In-append, length,
}
use uncover.Analysis.UqInstances.{no_quantities, length}

abbrev pub total : List ℕ → ℕ
total [] = 0
total (q ∷ qs) = q + total qs

-- The vector after a given one: the first quantity grows while the total stays within the bound,
-- otherwise it starts anew and the others make a step.
abbrev pub after : ℕ → List ℕ → Option (List ℕ)
after b [] = none
after b (q ∷ qs) =
    let rest = after b qs in
    if leb (suc q + total qs) b
    then some (suc q ∷ qs)
    else elim rest [ none ↦ none | some qs' ↦ some (0 ∷ qs') ]

pub after-grown :
    (b q : ℕ) (qs : List ℕ)
    → leb (suc (q + total qs)) b ≡ true
    → after b (q ∷ qs) ≡ some (suc q ∷ qs)
after-grown b q qs h = ground arith

pub after-carried :
    (b q : ℕ) (qs : List ℕ)
    → leb (suc (q + total qs)) b ≡ false
    → after b (q ∷ qs) ≡ elim (after b qs) [ none ↦ none | some qs' ↦ some (0 ∷ qs') ]
after-carried b q qs h = ground arith

-- The list holds all the vectors that follow the given one.
abbrev pub Follows : ℕ → List ℕ → List (List ℕ) → Type 0
Follows b v [] = after b v ≡ none
Follows b v (w ∷ ws) = (after b v ≡ some w) × Follows b w ws

-- The vectors with a first quantity larger by at most the count.
abbrev pub count_up : ℕ → ℕ → List ℕ → List (List ℕ)
count_up zero q v = []
count_up (suc k) q v = (suc q ∷ v) ∷ count_up k (suc q) v

-- What follows the vector with a first quantity 0, when the list follows the rest of it.
abbrev pub prolong : ℕ → List ℕ → List (List ℕ) → List (List ℕ)
prolong b v [] = count_up (b - total v) 0 v
prolong b v (w ∷ ws) = count_up (b - total v) 0 v ++ (0 ∷ w) ∷ prolong b w ws

abbrev pub later : ℕ → ℕ → List (List ℕ)
later b zero = []
later b (suc n) = prolong b (no_quantities n) (later b n)

count_up-last :
    (b k q : ℕ) (v : List ℕ)
    → k + (q + total v) ≡ b
    → after b v ≡ none
    → Follows b (q ∷ v) (count_up k q v)
count_up-last b zero q v e h = ground arith
count_up-last b (suc k) q v e h =
    let rest = count_up-last b k (suc q) v (omega arith) h in ground arith

count_up-more :
    (b k q : ℕ) (v w : List ℕ) (ws : List (List ℕ))
    → k + (q + total v) ≡ b
    → after b v ≡ some w
    → Follows b (0 ∷ w) ws
    → Follows b (q ∷ v) (count_up k q v ++ (0 ∷ w) ∷ ws)
count_up-more b zero q v w ws e h f = ground arith
count_up-more b (suc k) q v w ws e h f =
    let rest = count_up-more b k (suc q) v w ws (omega arith) h f in ground arith

pub after-total : (b : ℕ) (v w : List ℕ) → after b v ≡ some w → total w ≤ b
after-total b [] w h = cc
after-total b (q ∷ qs) w h = elim (Option-cases (after b qs)) [
  | inl e ↦ ground arith
  | inr (x, e) ↦ let l = after-total b qs x e in ground arith
]

prolong-Follows :
    (b : ℕ) (v : List ℕ) (ws : List (List ℕ))
    → total v ≤ b
    → Follows b v ws
    → Follows b (0 ∷ v) (prolong b v ws)
prolong-Follows b v [] l f = count_up-last b (b - total v) 0 v (omega arith) f
prolong-Follows b v (w ∷ ws) l f =
    count_up-more b (b - total v) 0 v w (prolong b w ws) (omega arith) f.0
      (prolong-Follows b w ws (after-total b v w f.0) f.1)

pub total-no_quantities : (n : ℕ) → total (no_quantities n) ≡ 0
total-no_quantities zero = refl
total-no_quantities (suc n) = omega (arith, total-no_quantities n)

pub later-Follows : (b n : ℕ) → Follows b (no_quantities n) (later b n)
later-Follows b zero = refl
later-Follows b (suc n) =
    prolong-Follows b (no_quantities n) (later b n) (omega (arith, total-no_quantities n))
      (later-Follows b n)

-- Exactly the vectors of the length whose total is at most the bound.
abbrev pub vectors : ℕ → ℕ → List (List ℕ)
vectors b n = no_quantities n ∷ later b n

In-count_up :
    (b k q d : ℕ) (v u : List ℕ) → In (d ∷ u) (count_up k q v) ↔ ((u ≡ v) × (q < d) × (d ≤ k + q))
In-count_up b zero q d v u = ground arith
In-count_up b (suc k) q d v u = ground (arith, In-count_up b k (suc q) d v u)

In-prolong :
    (b d : ℕ) (v u : List ℕ) (ws : List (List ℕ))
    → total v ≤ b
    → Follows b v ws
    → In (d ∷ u) ((0 ∷ v) ∷ prolong b v ws) ↔ (In u (v ∷ ws) × (d + total u ≤ b))
In-prolong b d v u [] l f =
    let (p, q) = In-count_up b (b - total v) 0 d v u in
    (λ h. ground (arith, p, q), λ h. ground (arith, p, q))
In-prolong b d v u (w ∷ ws) l f =
    let (p, q) = In-count_up b (b - total v) 0 d v u in
    let (p', q') = In-append (d ∷ u) (count_up (b - total v) 0 v) ((0 ∷ w) ∷ prolong b w ws) in
    let (p'', q'') = In-prolong b d w u ws (after-total b v w f.0) f.1 in
    (λ h. ground (arith, p, p', p''), λ h. ground (arith, q, q', q''))

count_up-nonempty : (k q : ℕ) (v : List ℕ) → ¬ In [] (count_up k q v)
count_up-nonempty zero q v = ground arith
count_up-nonempty (suc k) q v = ground (arith, count_up-nonempty k (suc q) v)

prolong-nonempty : (b : ℕ) (v : List ℕ) (ws : List (List ℕ)) → ¬ In [] (prolong b v ws)
prolong-nonempty b v [] h = count_up-nonempty (b - total v) 0 v h
prolong-nonempty b v (w ∷ ws) h =
    let (p, q) = In-append [] (count_up (b - total v) 0 v) ((0 ∷ w) ∷ prolong b w ws) in
    ground (arith, p h, count_up-nonempty (b - total v) 0 v, prolong-nonempty b w ws)

pub In-vectors : (b n : ℕ) (w : List ℕ) → In w (vectors b n) ↔ ((length w ≡ n) × (total w ≤ b))
In-vectors b zero [] = ground arith
In-vectors b zero (d ∷ u) = ground arith
In-vectors b (suc n) [] = ground (arith, prolong-nonempty b (no_quantities n) (later b n))
In-vectors b (suc n) (d ∷ u) =
    let (p, q) =
      In-prolong b d (no_quantities n) u (later b n) (omega (arith, total-no_quantities n))
        (later-Follows b n) in
    let (p', q') = In-vectors b n u in (λ h. ground (arith, p, p'), λ h. ground (arith, q, q'))
