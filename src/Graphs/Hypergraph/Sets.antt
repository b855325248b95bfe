-- ===== src/Graphs/Hypergraph/Sets.antt =====
-- mergeVertices and mergeEdges of a set of IDs. The argument is the set in the order of its
-- iteration.
use uncover.Base.{
  sym, subst, Bool-cases, List-cases, all_of-intro, some_of-found, ap, ◌∙◌, ℕ, ◌≡◌, refl, List, [],
  ◌∷◌, Bool, true, false, not, ◌&&◌, ◌||◌, Option, none, some, arith, map, some_of, all_of, lookup,
  contains, IsDistinct, if◌then◌else◌, inl, inr, Bool-cases, sym,
}
use uncover.Graphs.Hypergraph.{
  Hypergraph, Edge, Result, ok, err, invalid_input, ◌>>=◌, has_vertex, has_edge, renamed,
  merge_vertices, merge_edges,
}
use uncover.Graphs.Hypergraph.Incidence.{IsWf}
use uncover.Graphs.Hypergraph.Redirect.{moved}
use uncover.Graphs.Hypergraph.Pairs.{still_there}
use uncover.Graphs.Hypergraph.Merge.{merge_vertices_lem}

-- The loop that fills `minIDs`: the head of the list is the back of the vector.
pub collect : (ℕ → Bool) → List ℕ → List ℕ → List ℕ
collect p [] ids = ids
collect p (i ∷ rest) ids = collect p rest (if p i then i ∷ ids else ids)

-- The `while` loop on `minIDs`, with its back `x`.
pub merge_vertex_stack : Hypergraph → ℕ → List ℕ → Result (Hypergraph × ℕ)
merge_vertex_stack h x [] = ok (h, x)
merge_vertex_stack h x (y ∷ ys) = do (g, z) ← merge_vertices h x y; merge_vertex_stack g z ys

pub merge_vertex_set : Hypergraph → List ℕ → Result (Hypergraph × ℕ)
unfolding collect merge_vertex_stack
merge_vertex_set h ids = elim (collect (has_vertex h) ids []) [
  | [] ↦ err invalid_input
  | x ∷ xs ↦ merge_vertex_stack h x xs
]

pub merge_edge_stack : Hypergraph → ℕ → List ℕ → Result (Hypergraph × ℕ)
merge_edge_stack h x [] = ok (h, x)
merge_edge_stack h x (y ∷ ys) = do (g, z) ← merge_edges h x y; merge_edge_stack g z ys

pub merge_edge_set : Hypergraph → List ℕ → Result (Hypergraph × ℕ)
unfolding collect merge_edge_stack
merge_edge_set h ids = elim (collect (has_edge h) ids []) [
  | [] ↦ err invalid_input
  | x ∷ xs ↦ merge_edge_stack h x xs
]

contains-collect :
    (p : ℕ → Bool) (rest ids : List ℕ) (i : ℕ)
    → contains i (collect p rest ids) ≡ (contains i ids || contains i rest && p i)
unfolding collect
contains-collect p [] ids i = ground arith
contains-collect p (j ∷ rest) ids i =
    ground (arith, contains-collect p rest (if p j then j ∷ ids else ids) i)

collect-IsDistinct :
    (p : ℕ → Bool) (rest ids : List ℕ)
    → IsDistinct rest
    → IsDistinct ids
    → ((i : ℕ) → contains i rest ≡ true → contains i ids ≡ false)
    → IsDistinct (collect p rest ids)
unfolding collect
collect-IsDistinct p [] ids d c f = c
collect-IsDistinct p (j ∷ rest) ids d c f = elim (Bool-cases (p j)) [
  | inl e ↦ rw e (
      collect-IsDistinct p rest (j ∷ ids) d.1 (f j (ground arith), c)
        (λ i k. ground (arith, f i, d.0)))
  | inr e ↦ rw e (collect-IsDistinct p rest ids d.1 c (λ i k. ground (arith, f i)))
]

-- The edge with all vertices of the list replaced by `x`.
abbrev pub gathered : ℕ → List ℕ → Option Edge → Option Edge
gathered x ys none = none
gathered x ys (some ed) =
    some (record ed { vertices = map (λ v. if contains v ys then x else v) ed.vertices })

map-gathered :
    (x y : ℕ) (ys vs : List ℕ)
    → contains x ys ≡ false
    → map (λ v. if contains v ys then x else v) (renamed y x vs)
      ≡ map (λ v. if contains v (y ∷ ys) then x else v) vs
map-gathered x y ys [] f = refl
map-gathered x y ys (v ∷ vs) f = ground (arith, map-gathered x y ys vs f)

gathered-moved :
    (x y : ℕ) (ys : List ℕ) (o : Option Edge)
    → contains x ys ≡ false
    → gathered x ys (moved y x o) ≡ gathered x (y ∷ ys) o
gathered-moved x y ys none f = refl
gathered-moved x y ys (some ed) f = rw (map-gathered x y ys ed.vertices f) refl

map-none : (x : ℕ) (vs : List ℕ) → map (λ v. if contains v [] then x else v) vs ≡ vs
map-none x [] = refl
map-none x (v ∷ vs) = ap (λ rest. v ∷ rest) (map-none x vs)

gathered-none : (x : ℕ) (o : Option Edge) → gathered x [] o ≡ o
gathered-none x none = refl
gathered-none x (some ed) = rw (map-none x ed.vertices) refl

-- What the merge of several vertices into `x` leaves.
pub record Gathered (h : Hypergraph) (x : ℕ) (ys : List ℕ) (g : Hypergraph) : Type 0 where
  pub well_formed : IsWf g
  pub vertices : (i : ℕ) → has_vertex g i ≡ (has_vertex h i && not (contains i ys))
  pub edges : (i : ℕ) → lookup i g.edges ≡ gathered x ys (lookup i h.edges)

merge_vertex_stack-cons :
    (h g : Hypergraph) (x y z : ℕ) (ys : List ℕ)
    → merge_vertices h x y ≡ ok (g, z)
    → merge_vertex_stack h x (y ∷ ys) ≡ merge_vertex_stack g z ys
unfolding merge_vertex_stack
merge_vertex_stack-cons h g x y z ys e = rw (e, merge_vertex_stack)

merge_vertex_stack_lem :
    (h : Hypergraph) (x : ℕ) (ys : List ℕ)
    → IsWf h
    → IsDistinct (x ∷ ys)
    → all_of (has_vertex h) (x ∷ ys) ≡ true
    → (g : Hypergraph) × (merge_vertex_stack h x ys ≡ ok (g, x)) × Gathered h x ys g
unfolding merge_vertex_stack
merge_vertex_stack_lem h x [] w d a = (
  h,
  refl,
  record {
    well_formed = w;
    vertices = λ i. ground arith;
    edges = λ i. sym (gathered-none x (lookup i h.edges));
  },
)
merge_vertex_stack_lem h x (y ∷ ys) w d a =
    let (g, returned, m) = merge_vertices_lem h x y w (ground arith) (ground arith) in
    let apart : contains x ys ≡ false = ground arith in
    let still : all_of (has_vertex g) (x ∷ ys) ≡ true =
      still_there h g x y m (x ∷ ys) (ground arith) (ground arith) in
    let (g', returned', r) = merge_vertex_stack_lem g x ys m.well_formed (apart, d.1.1) still in
    (
      g',
      merge_vertex_stack-cons h g x y x ys returned ∙ returned',
      record {
        well_formed = r.well_formed;
        vertices = λ i. ground (arith, r.vertices i, m.vertices i, d.0);
        edges = λ i.
            ground (arith, r.edges i, m.edges i, gathered-moved x y ys (lookup i h.edges), d.0);
      },
    )

merge_vertex_set-cons :
    (h : Hypergraph) (ids : List ℕ) (x : ℕ) (ys : List ℕ)
    → collect (has_vertex h) ids [] ≡ x ∷ ys
    → merge_vertex_set h ids ≡ merge_vertex_stack h x ys
unfolding merge_vertex_set
merge_vertex_set-cons h ids x ys e = rw (e, merge_vertex_set)

-- On a well-formed graph, mergeVertices of a set with at least one vertex returns one of its
-- vertices: all others of the set are gone, and replaced by it in every edge.
pub merge_vertex_set_lem :
    (h : Hypergraph) (ids : List ℕ)
    → IsWf h
    → IsDistinct ids
    → some_of (has_vertex h) ids ≡ true
    → (g : Hypergraph) × (x : ℕ) × (ys : List ℕ) × (merge_vertex_set h ids ≡ ok (g, x))
      × ((i : ℕ) → contains i (x ∷ ys) ≡ (contains i ids && has_vertex h i))
      × Gathered h x ys g
merge_vertex_set_lem h ids w d a = elim (List-cases (collect (has_vertex h) ids [])) [
  | inl e ↦
      let (i, c, v) = some_of-found (has_vertex h) ids a in
      absurd (ground (arith, contains-collect (has_vertex h) ids [] i, e))
  | inr (x, ys, e) ↦
      let found : (i : ℕ) → contains i (x ∷ ys) ≡ (contains i ids && has_vertex h i) =
        λ i. ap (contains i) (sym e) ∙ ground (arith, contains-collect (has_vertex h) ids [] i) in
      let distinct : IsDistinct (x ∷ ys) =
        subst IsDistinct e (collect-IsDistinct (has_vertex h) ids [] d tt (λ i c. refl)) in
      let there : all_of (has_vertex h) (x ∷ ys) ≡ true =
        all_of-intro (has_vertex h) (x ∷ ys) (λ i c. ground (arith, found i)) in
      let (g, returned, r) = merge_vertex_stack_lem h x ys w distinct there in
      (g, x, ys, merge_vertex_set-cons h ids x ys e ∙ returned, found, r)
]
