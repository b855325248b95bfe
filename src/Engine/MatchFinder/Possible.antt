-- ===== src/Engine/MatchFinder/Possible.antt =====
-- isMapPossible: what it guarantees, and that it lets every morphism pass.
use uncover.Graphs.Mapping.Inverse.{sends-get_tar}
use uncover.Graphs.Hypergraph.{Hypergraph, Edge}
use uncover.Base.{
  ℕ, ◌≡◌, refl, List, [], ◌∷◌, Bool, true, not, ◌&&◌, Option, none, some, arith, length, insert,
  lookup-insert, ◌==◌, if◌then◌else◌, false, Bool-cases, Option-cases, inl, inr, contains, lookup,
}
use uncover.Graphs.Mapping.{Mapping, get_tar, has_src}
use uncover.Engine.MatchFinder.{
  Problem, clashes, check_nodes, is_map_possible, Hypergraph, has_src, Edge, str_eq,
}
use uncover.Engine.MatchFinder.Partial.{
  carries, Extends, IsInjective, edge_sent, edge_sent-cases, carries-length,
}

-- The target at the first place where the source stands.
abbrev pub first_image : List ℕ → List ℕ → ℕ → Option ℕ
first_image [] ts i = none
first_image (s ∷ ss) [] i = none
first_image (s ∷ ss) (t ∷ ts) i = if s == i then some t else first_image ss ts i

abbrev pub or_else : Option ℕ → Option ℕ → Option ℕ
or_else none o = o
or_else (some t) o = some t

-- No target has another source in `rev`.
abbrev pub free_in : Mapping → List ℕ → List ℕ → Bool
free_in rev [] ts = true
free_in rev (s ∷ ss) [] = true
free_in rev (s ∷ ss) (t ∷ ts) = not (clashes rev t s) && free_in rev ss ts

-- With at most one possible entry there is no clash.
pub clashes_none :
    (m : Mapping) (s t : ℕ) → ((u : ℕ) → get_tar m s ≡ some u → u ≡ t) → clashes m s t ≡ false
clashes_none m s t h = elim (Option-cases (get_tar m s)) [
  | inl gone ↦ ground (arith, gone)
  | inr (u, is_u) ↦ ground (arith, is_u, h u is_u)
]

-- The reverse mapping only holds entries of the mapping.
abbrev pub Back : Problem → Mapping → Mapping → Type 0
Back p current rev =
    p.injective ≡ true → (t s : ℕ) → get_tar rev t ≡ some s → get_tar current s ≡ some t

-- In the injective mode it has an entry for every target.
abbrev pub Forth : Problem → Mapping → Mapping → Type 0
Forth p current rev =
    p.injective ≡ true → (s t : ℕ) → get_tar current s ≡ some t → has_src rev t ≡ true

-- Edges with the same label have the same number of vertices.
abbrev pub SameArity : Hypergraph → Hypergraph → Type 0
SameArity source target =
    (e t : ℕ) (a b : Edge)
    → lookup e source.edges ≡ some a
    → lookup t target.edges ≡ some b
    → str_eq a.label b.label ≡ true
    → length a.vertices ≡ length b.vertices

-- The target of an unmapped edge is not in use.
target-unused :
    (p : Problem) (e t : ℕ) (current rev f : Mapping)
    → Extends f current
    → Back p current rev
    → IsInjective f
    → has_src current e ≡ false
    → get_tar f e ≡ some t
    → p.injective ≡ true
    → has_src rev t ≡ false
target-unused p e t current rev f x back j fresh at i = elim (Option-cases (get_tar rev t)) [
  | inl gone ↦ ground (arith, gone)
  | inr (s, is_s) ↦
      let found = back i t s is_s in
      let same : s ≡ e = j s e t (x s t found) at in absurd (ground (arith, found, same, fresh))
]

module _ (p : Problem) where
  -- A mapping that adds the first images to the current one carries the whole sequence.
  pub check_nodes-carries :
      (temp current rev m : Mapping) (ss ts : List ℕ)
      → length ss ≡ length ts
      → check_nodes p temp current rev ss ts ≡ true
      → ((i : ℕ)
          → contains i ss ≡ true
          → get_tar m i
            ≡ or_else (get_tar current i) (or_else (get_tar temp i) (first_image ss ts i)))
      → carries m ss ts ≡ true
  unfolding check_nodes
  check_nodes-carries temp current rev m [] [] l h f = refl
  check_nodes-carries temp current rev m [] (t ∷ ts) l h f = absurd (omega arith)
  check_nodes-carries temp current rev m (s ∷ ss) [] l h f = absurd (omega arith)
  check_nodes-carries temp current rev m (s ∷ ss) (t ∷ ts) l h f =
      let rest : (i : ℕ)
          → contains i ss ≡ true
          → get_tar m i
            ≡ or_else (get_tar current i)
                (or_else (get_tar (insert s t temp) i) (first_image ss ts i)) =
        λ i c. ground (arith, f i (ground arith), lookup-insert s i t temp) in
      ground (
        arith,
        check_nodes-carries (insert s t temp) current rev m ss ts (omega arith),
        rest,
        f s (ground arith),
      )

  pub check_nodes-free_in :
      (temp current rev : Mapping) (ss ts : List ℕ)
      → p.injective ≡ true
      → check_nodes p temp current rev ss ts ≡ true
      → free_in rev ss ts ≡ true
  unfolding check_nodes
  check_nodes-free_in temp current rev [] ts j h = refl
  check_nodes-free_in temp current rev (s ∷ ss) [] j h = refl
  check_nodes-free_in temp current rev (s ∷ ss) (t ∷ ts) j h =
      ground (arith, check_nodes-free_in (insert s t temp) current rev ss ts)

  -- A mapping above the current one that carries the sequence passes.
  carries-check_nodes :
      (temp current rev f : Mapping) (ss ts : List ℕ)
      → Extends f current
      → Extends f temp
      → (p.injective ≡ true → (t s : ℕ) → get_tar rev t ≡ some s → get_tar f s ≡ some t)
      → (p.injective ≡ true → IsInjective f)
      → carries f ss ts ≡ true
      → check_nodes p temp current rev ss ts ≡ true
  unfolding check_nodes
  carries-check_nodes temp current rev f [] ts x y r j c = refl
  carries-check_nodes temp current rev f (s ∷ ss) [] x y r j c = refl
  carries-check_nodes temp current rev f (s ∷ ss) (t ∷ ts) x y r j c =
      let grown : Extends f (insert s t temp) =
        λ i u h. ground (arith, lookup-insert s i t temp, y i u) in
      let at : get_tar f s ≡ some t = sends-get_tar f s t (ground arith) in
      let rest : check_nodes p (insert s t temp) current rev ss ts ≡ true =
        carries-check_nodes (insert s t temp) current rev f ss ts x grown r j (ground arith) in
      let here : clashes current s t ≡ false =
        clashes_none current s t (λ u h. ground (arith, at, x s u h)) in
      let kept : clashes temp s t ≡ false =
        clashes_none temp s t (λ u h. ground (arith, at, y s u h)) in
      let back : p.injective ≡ true → clashes rev t s ≡ false =
        λ i. clashes_none rev t s (λ u h. j i u s t (r i t u h) at) in
      elim (Bool-cases p.injective) [
        | inl i ↦ ground (arith, here, kept, rest, i, back i)
        | inr i ↦ ground (arith, here, kept, rest, i)
      ]

  -- A possible target: both edges exist, with the same label, and pass the test of the vertices.
  pub possible-parts :
      (e t : ℕ) (current rev : Mapping)
      → SameArity p.source p.target
      → is_map_possible p e t current rev ≡ true
      → (a : Edge) × (b : Edge) × (lookup e p.source.edges ≡ some a)
        × (lookup t p.target.edges ≡ some b)
        × (str_eq a.label b.label ≡ true)
        × (length a.vertices ≡ length b.vertices)
        × (check_nodes p [] current rev a.vertices b.vertices ≡ true)
        × ((p.injective ≡ true) → has_src rev t ≡ false)
  unfolding is_map_possible
  possible-parts e t current rev same h = elim (Option-cases (lookup e p.source.edges)) [
    | inl gone ↦ absurd (ground (arith, gone))
    | inr (a, is_a) ↦ elim (Option-cases (lookup t p.target.edges)) [
      | inl gone ↦ absurd (ground (arith, is_a, gone))
      | inr (b, is_b) ↦
          let label : str_eq a.label b.label ≡ true = ground (arith, is_a, is_b) in
          let sized : length a.vertices ≡ length b.vertices = same e t a b is_a is_b label in
          (
            a,
            b,
            is_a,
            is_b,
            label,
            sized,
            ground (arith, is_a, is_b, sized),
            λ i. ground (arith, is_a, is_b, i),
          )
    ]
  ]

  -- The edge that a morphism above the current mapping chooses is possible.
  pub sent-possible :
      (e t : ℕ) (current rev f : Mapping)
      → Extends f current
      → Back p current rev
      → ((p.injective ≡ true) → IsInjective f)
      → has_src current e ≡ false
      → get_tar f e ≡ some t
      → edge_sent p.source p.target f e t ≡ true
      → is_map_possible p e t current rev ≡ true
  unfolding is_map_possible
  sent-possible e t current rev f x back j fresh at sent =
      let (a, b, is_a, is_b, label, c) = edge_sent-cases p.source p.target f e t sent in
      let sized = carries-length f a.vertices b.vertices c in
      let fits : check_nodes p [] current rev a.vertices b.vertices ≡ true =
        carries-check_nodes [] current rev f a.vertices b.vertices x (λ i u h. cc)
          (λ i u s h. x s u (back i u s h)) j c in
      elim (Bool-cases p.injective) [
        | inr i ↦ ground (arith, is_a, is_b, label, sized, fits, i)
        | inl i ↦
            let free : has_src rev t ≡ false =
              target-unused p e t current rev f x back (j i) fresh at i in
            ground (arith, is_a, is_b, label, sized, fits, i, free)
      ]
