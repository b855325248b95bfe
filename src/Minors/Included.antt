-- ===== src/Minors/Included.antt =====
-- isIncludedIn: IDs with the same image are in one class.
use uncover.Base.{
  ℕ, ◌≡◌, ◌↔◌, refl, List, [], ◌∷◌, Bool, true, false, none, some, arith, all_of, lookup,
  lookup-before, insert, insert_id, contains, IsOrdered, all_of-contains, all_of-intro, ◌==◌,
  Bool-cases, Option-cases, inl, inr, ap, subst,
}
use uncover.Graphs.Mapping.{Mapping, get_tar, inverse, inverse_into, set_at}
use uncover.Graphs.Mapping.Inverse.{lookup-inverse, inverse-found, inverse_into-IsOrdered}
use uncover.Basic.IdPartition.Closure.{together-covered}
use uncover.Basic.IdPartition.Disjoint.{together, covered, IsDisjoint}
use uncover.Graphs.Mapping.Inverse.{sends-get_tar}
use uncover.Minors.Contraction.{NonZero, Separates, is_finer_iff}
use uncover.Minors.{is_finer, find_class, is_included_in}

find_class-none :
    (x y : ℕ) (part : List (List ℕ)) → find_class x part ≡ none → together part x y ≡ false
unfolding find_class
find_class-none x y [] h = refl
find_class-none x y (c ∷ part) h = ground (arith, find_class-none x y part)

-- A class of the partition.
find_class-together :
    (x y z : ℕ) (part : List (List ℕ)) (c : List ℕ)
    → find_class x part ≡ some c
    → contains y c ≡ true
    → contains z c ≡ true
    → together part y z ≡ true
unfolding find_class
find_class-together x y z [] c h k l = cc
find_class-together x y z (d ∷ part) c h k l = elim (Bool-cases (contains x d)) [
  | inl here ↦
      let same : d ≡ c = ground (arith, h, here) in
      ground (arith, k, l, ap (contains y) same, ap (contains z) same)
  | inr other ↦ ground (arith, find_class-together x y z part c (ground (arith, h, other)) k l)
]

find_class-contains :
    (x y : ℕ) (part : List (List ℕ)) (c : List ℕ)
    → IsDisjoint part
    → find_class x part ≡ some c
    → together part x y ≡ true
    → contains y c ≡ true
unfolding find_class
find_class-contains x y [] c d h k = cc
find_class-contains x y (e ∷ part) c d h k = elim (Bool-cases (contains x e)) [
  | inl here ↦
      let same : e ≡ c = ground (arith, h, here) in
      let gone : covered part x ≡ false = d.0 x here in
      ground (arith, k, here, gone, ap (contains y) same, together-covered part x y)
  | inr other ↦
      find_class-contains x y part c d.1 (ground (arith, h, other)) (ground (arith, k, other))
]

find_class_self :
    (x : ℕ) (part : List (List ℕ)) (c : List ℕ) → find_class x part ≡ some c → contains x c ≡ true
unfolding find_class
find_class_self x [] c h = cc
find_class_self x (d ∷ part) c h = elim (Bool-cases (contains x d)) [
  | inl here ↦
      let same : d ≡ c = ground (arith, h, here) in ground (arith, here, ap (contains x) same)
  | inr other ↦ find_class_self x part c (ground (arith, h, other))
]

-- The IDs of a set are all in one class.
abbrev Joins : List (List ℕ) → List ℕ → Type 0
Joins part ss = (x y : ℕ) → contains x ss ≡ true → contains y ss ≡ true → together part x y ≡ true

abbrev JoinsAll : List (List ℕ) → List (ℕ × List ℕ) → Type 0
JoinsAll part [] = Unit
JoinsAll part ((t, ss) ∷ inv) = Joins part ss × JoinsAll part inv

abbrev nonempty : List ℕ → Bool
nonempty [] = false
nonempty (x ∷ xs) = true

class-Joins :
    (part : List (List ℕ)) (x : ℕ) (xs c : List ℕ)
    → IsDisjoint part
    → find_class x part ≡ some c
    → (all_of (λ y. contains y c) xs ≡ true) ↔ Joins part (x ∷ xs)
class-Joins part x xs c d h = (
  λ a y z k l.
      let inside : (w : ℕ) → contains w (x ∷ xs) ≡ true → contains w c ≡ true = λ w k.
        elim (Bool-cases (x == w)) [
          | inl same ↦
              let is_w : x ≡ w = ground (arith, same) in
              ground (arith, find_class_self x part c h, ap (λ v. contains v c) is_w)
          | inr other ↦ all_of-contains (λ y. contains y c) xs w a (ground (arith, k, other))
        ] in
      find_class-together x y z part c h (inside y k) (inside z l),
  λ j.
      all_of-intro (λ y. contains y c) xs
        (λ y k. find_class-contains x y part c d h (j x y (ground arith) (ground (arith, k)))),
)

is_included_in-JoinsAll :
    (part : List (List ℕ)) (inv : List (ℕ × List ℕ))
    → IsDisjoint part
    → all_of (λ p. nonempty p.1) inv ≡ true
    → (b : Bool) × (is_included_in part inv ≡ some b) × ((b ≡ true) ↔ JoinsAll part inv)
unfolding is_included_in
is_included_in-JoinsAll part [] d n = (true, refl, (λ h. tt, λ h. refl))
is_included_in-JoinsAll part ((t, []) ∷ inv) d n = cc
is_included_in-JoinsAll part ((t, x ∷ xs) ∷ inv) d n =
    let (b, is_b, (to, from)) = is_included_in-JoinsAll part inv d (ground (arith, n)) in
    elim (Option-cases (find_class x part)) [
      | inl gone ↦ (
        false,
        ground (arith, gone),
        (
          λ h. cc,
          λ j.
              let self : together part x x ≡ true = j.0 x x (ground arith) (ground arith) in
              ground (arith, self, find_class-none x x part gone),
        ),
      )
      | inr (c, is_c) ↦
          let (join, split) = class-Joins part x xs c d is_c in
          elim (Bool-cases (all_of (λ y. contains y c) xs)) [
            | inl a ↦ (b, ground (arith, is_c, a, is_b), (λ h. (join a, to h), λ j. from j.1))
            | inr a ↦ (
              false,
              ground (arith, is_c, a),
              (λ h. cc, λ j. let k = split j.0 in ground (arith, a, k)),
            )
          ]
    ]

JoinsAll-lookup :
    (part : List (List ℕ)) (inv : List (ℕ × List ℕ))
    → IsOrdered inv
    → JoinsAll part inv ↔ ((t : ℕ) (ss : List ℕ) → lookup t inv ≡ some ss → Joins part ss)
JoinsAll-lookup part [] o = (λ h t ss e. cc, λ h. tt)
JoinsAll-lookup part ((u, us) ∷ inv) o =
    let (to, from) = JoinsAll-lookup part inv o.1 in
    (
      λ h t ss e. elim (Bool-cases (u == t)) [
        | inl same ↦ let is_us : us ≡ ss = ground (arith, e, same) in subst (Joins part) is_us h.0
        | inr other ↦ to h.1 t ss (ground (arith, e, other))
      ],
      λ h. (
        h u us (ground arith),
        from (λ t ss e. h t ss (ground (arith, e, lookup-before u inv o.0))),
      ),
    )

all_of-insert-value :
    (k : ℕ) (v : List ℕ) (m : List (ℕ × List ℕ))
    → nonempty v ≡ true
    → all_of (λ p. nonempty p.1) m ≡ true
    → all_of (λ p. nonempty p.1) (insert k v m) ≡ true
unfolding insert
all_of-insert-value k v [] n a = ground (arith, n)
all_of-insert-value k v ((j, w) ∷ m) n a = ground (arith, n, a, all_of-insert-value k v m)

nonempty-insert_id : (x : ℕ) (xs : List ℕ) → nonempty (insert_id x xs) ≡ true
unfolding insert_id
nonempty-insert_id x [] = refl
nonempty-insert_id x (y ∷ xs) = ground arith

inverse_into-nonempty :
    (m : Mapping) (inv : List (ℕ × List ℕ))
    → all_of (λ p. nonempty p.1) inv ≡ true
    → all_of (λ p. nonempty p.1) (inverse_into m inv) ≡ true
unfolding inverse_into
inverse_into-nonempty [] inv a = a
inverse_into-nonempty ((s, t) ∷ m) inv a =
    inverse_into-nonempty m (insert t (insert_id s (set_at inv t)) inv) (
      all_of-insert-value t (insert_id s (set_at inv t)) inv (nonempty-insert_id s (set_at inv t))
        a)

-- IDs with the same image are in one class.
abbrev pub Merges : List (List ℕ) → Mapping → Type 0
Merges part m = (x y t : ℕ) → get_tar m x ≡ some t → get_tar m y ≡ some t → together part x y ≡ true

is_included_in-Merges :
    (part : List (List ℕ)) (m : Mapping)
    → IsOrdered m
    → IsDisjoint part
    → (b : Bool) × (is_included_in part (inverse m) ≡ some b) × ((b ≡ true) ↔ Merges part m)
unfolding inverse
is_included_in-Merges part m o d =
    let inv = inverse_into m [] in
    let (b, is_b, (to, from)) =
      is_included_in-JoinsAll part inv d (inverse_into-nonempty m [] refl) in
    let (each, all) = JoinsAll-lookup part inv (inverse_into-IsOrdered m [] tt) in
    (
      b,
      is_b,
      (
        λ h x y t e f.
            let (ss, is_ss) = inverse-found m x t o (ground (arith, e)) in
            each (to h) t ss is_ss x y (ground (arith, e, lookup-inverse m x t ss o is_ss))
              (ground (arith, f, lookup-inverse m y t ss o is_ss)),
        λ h. from (
            all (λ t ss e x y c k.
              h x y t (sends-get_tar m x t (ground (arith, c, lookup-inverse m x t ss o e)))
                (sends-get_tar m y t (ground (arith, k, lookup-inverse m y t ss o e))))),
      ),
    )

-- For a partition with disjoint classes, isIncludedIn answers without reading the first element of
-- an empty set, and isFiner and isIncludedIn both answer true if and only if the vertices with an
-- image are merged exactly as the map demands: two of them are in one class if and only if they have
-- the same image. No image may be 0, which isFiner takes for none.
pub contraction_iff :
    (part : List (List ℕ)) (m : Mapping)
    → IsOrdered m
    → NonZero m
    → IsDisjoint part
    → (b : Bool) × (is_included_in part (inverse m) ≡ some b)
      × (((is_finer part m ≡ true) × (b ≡ true)) ↔ (
          (x y s t : ℕ)
          → get_tar m x ≡ some s
          → get_tar m y ≡ some t
          → (together part x y ≡ true) ↔ (s ≡ t)))
contraction_iff part m o z d =
    let (finer, is_finer') = is_finer_iff part m z in
    let (b, is_b, (to, from)) = is_included_in-Merges part m o d in
    (
      b,
      is_b,
      (
        λ (f, i) x y s t e k.
            let merges = to i in
            (λ h. finer f x y s t h e k, λ same. merges x y s e (ground (arith, k, same))),
        λ h.
            let separates : Separates part m = λ x y s t c e k. (h x y s t e k).0 c in
            let merges : Merges part m = λ x y t e k. (h x y t t e k).1 refl in
            (is_finer' separates, from merges),
      ),
    )
