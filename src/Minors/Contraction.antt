-- ===== src/Minors/Contraction.antt =====
-- isFiner: no class of a partition holds IDs with different images.
use uncover.Base.{
  ℕ, ◌≡◌, ◌↔◌, refl, List, [], ◌∷◌, true, false, ◌&&◌, some, arith, contains, ◌==◌, Bool-cases,
  Option-cases, inl, inr, ap,
}
use uncover.Graphs.Mapping.{Mapping, get_tar}
use uncover.Basic.IdPartition.Disjoint.{together}
use uncover.Minors.{finer_class, is_finer}

-- No ID is 0: isFiner takes 0 for the lack of an image.
abbrev pub NonZero : Mapping → Type 0
NonZero m = (x t : ℕ) → get_tar m x ≡ some t → (t == 0) ≡ false

-- All images in the class are `id`.
abbrev AllTo : Mapping → List ℕ → ℕ → Type 0
AllTo m xs id = (x t : ℕ) → contains x xs ≡ true → get_tar m x ≡ some t → t ≡ id

finer_class-AllTo :
    (m : Mapping) (xs : List ℕ) (id : ℕ)
    → (id == 0) ≡ false
    → (finer_class m xs id ≡ true) ↔ AllTo m xs id
unfolding finer_class
finer_class-AllTo m [] id z = (λ h x t c e. cc, λ h. refl)
finer_class-AllTo m (y ∷ xs) id z =
    let (to, from) = finer_class-AllTo m xs id z in
    (
      λ h x t c e. elim (Bool-cases (y == x)) [
        | inl same ↦
            let is_x : y ≡ x = ground (arith, same) in
            ground (arith, h, z, e, is_x, ap (get_tar m) is_x)
        | inr other ↦
            let later : finer_class m xs id ≡ true = elim (Option-cases (get_tar m y)) [
              | inl gone ↦ ground (arith, h, gone)
              | inr (u, is_u) ↦ ground (arith, h, z, is_u)
            ] in
            to later x t (ground (arith, c, other)) e
      ],
      λ h.
          let rest = from (λ x t c e. h x t (ground (arith, c)) e) in
          elim (Option-cases (get_tar m y)) [
            | inl gone ↦ ground (arith, gone, rest)
            | inr (u, is_u) ↦ ground (arith, is_u, rest, z, h y u (ground arith) is_u)
          ],
    )

-- No two images in the class differ.
abbrev OneImage : Mapping → List ℕ → Type 0
OneImage m xs =
    (x y s t : ℕ)
    → contains x xs ≡ true
    → contains y xs ≡ true
    → get_tar m x ≡ some s
    → get_tar m y ≡ some t
    → s ≡ t

finer_class-OneImage :
    (m : Mapping) (xs : List ℕ) → NonZero m → (finer_class m xs 0 ≡ true) ↔ OneImage m xs
unfolding finer_class
finer_class-OneImage m [] z = (λ h x y s t c d e f. cc, λ h. refl)
finer_class-OneImage m (w ∷ xs) z = elim (Option-cases (get_tar m w)) [
  | inl gone ↦
      let (to, from) = finer_class-OneImage m xs z in
      (
        λ h x y s t c d e f.
            to (ground (arith, h, gone)) x y s t (ground (arith, c, e, gone))
              (ground (arith, d, f, gone)) e f,
        λ h.
            let rest =
              from (λ x y s t c d e f. h x y s t (ground (arith, c)) (ground (arith, d)) e f) in
            ground (arith, gone, rest),
      )
  | inr (u, is_u) ↦
      let (to, from) = finer_class-AllTo m xs u (z w u is_u) in
      (
        λ h x y s t c d e f.
            let all : AllTo m (w ∷ xs) u = λ k v c e. elim (Bool-cases (w == k)) [
              | inl same ↦
                  let is_k : w ≡ k = ground (arith, same) in
                  ground (arith, is_u, e, ap (get_tar m) is_k)
              | inr other ↦ to (ground (arith, h, is_u)) k v (ground (arith, c, other)) e
            ] in
            ground (arith, all x s c e, all y t d f),
        λ h.
            let rest = from (λ x t c e. h x w t u (ground (arith, c)) (ground arith) e is_u) in
            ground (arith, is_u, rest),
      )
]

-- IDs in one class have the same image.
abbrev pub Separates : List (List ℕ) → Mapping → Type 0
Separates part m =
    (x y s t : ℕ) → together part x y ≡ true → get_tar m x ≡ some s → get_tar m y ≡ some t → s ≡ t

pub is_finer_iff :
    (part : List (List ℕ)) (m : Mapping) → NonZero m → (is_finer part m ≡ true) ↔ Separates part m
unfolding is_finer
is_finer_iff [] m z = (λ h x y s t c. cc, λ h. refl)
is_finer_iff (d ∷ part) m z =
    let (to, from) = finer_class-OneImage m d z in
    let (to', from') = is_finer_iff part m z in
    (
      λ h x y s t c e f. elim (Bool-cases (contains x d && contains y d)) [
        | inl here ↦
            to (ground (arith, h)) x y s t (ground (arith, here)) (ground (arith, here)) e f
        | inr other ↦ to' (ground (arith, h)) x y s t (ground (arith, c, other)) e f
      ],
      λ h.
          let first = from (λ x y s t c e. h x y s t (ground (arith, c, e))) in
          let rest = from' (λ x y s t c. h x y s t (ground (arith, c))) in
          ground (arith, first, rest),
    )
