-- ===== src/Minors/Mapp.antt =====
-- src/minors/MinorOrder.cpp, generateMapp: the map from the vertices of the bigger graph to those of
-- the smaller one that a choice of edges gives.
use Prim.Native.String.{String}
use text.Mathlib.Text.{◌==◌ as str_eq}
use uncover.Base.{
  ℕ, suc, ◌≡◌, refl, List, [], ◌∷◌, Bool, true, false, none, some, arith, length, lookup, insert,
  lookup-insert, insert_id, get_elem?, ◌==◌, if◌then◌else◌, Bool-cases, Option-cases, inl, inr,
}
use uncover.Graphs.Hypergraph.{Hypergraph, Edge}
use uncover.Graphs.Mapping.{Mapping, get_tar}
use uncover.Graphs.Mapping.Inverse.{sends-get_tar}
use uncover.Engine.MatchFinder.{Result, ok, err, ◌>>=◌, out_of_range, undefined_behaviour}
use uncover.Engine.MatchFinder.Partial.{carries, Extends}

-- `at` of a map that is keyed by labels.
unfoldable pub label_at : String → List (String × List ℕ) → Result (List ℕ)
label_at l [] = err out_of_range
label_at l ((k, ids) ∷ edges) = let rest = label_at l edges in if str_eq k l then ok ids else rest

-- The edge at an index of the vector of a label; a missing edge is a null pointer.
unfoldable pub chosen_edge : Hypergraph → List (String × List ℕ) → String → ℕ → Result Edge
unfolding label_at
chosen_edge h edges l i = do
  ids ← label_at l edges
  elim (get_elem? ids i) [
    | none ↦ err out_of_range
    | some e ↦ elim (lookup e h.edges) [ none ↦ err undefined_behaviour | some a ↦ ok a ]
  ]

-- The loop over the vertices of two edges. If the edge of the bigger graph has more vertices, it
-- runs over the end of the other one.
unfoldable pub map_vertices : List ℕ → List ℕ → Mapping → Result (Mapping × Bool)
map_vertices [] ss m = ok (m, true)
map_vertices (b ∷ bs) [] m = err undefined_behaviour
map_vertices (b ∷ bs) (s ∷ ss) m =
    let kept = map_vertices bs ss m in
    let grown = map_vertices bs ss (insert b s m) in
    elim (get_tar m b) [ none ↦ grown | some t ↦ if t == s then kept else ok (m, false) ]

-- What generateMapp fills: `nodeMap` and `preservedEdges`, with the result so far.
pub record Filled : Type 0 where
  pub node_map : Mapping
  pub preserved : List ℕ
  pub consistent : Bool

-- The two graphs and the maps from labels to edges.
pub record GraphPair : Type 0 where
  pub smaller : Hypergraph
  pub bigger : Hypergraph
  pub edges_s : List (String × List ℕ)
  pub edges_b : List (String × List ℕ)

-- The loop over the edges of one label, from an index on.
unfoldable pub map_label : GraphPair → String → ℕ → List ℕ → Filled → Result Filled
unfolding chosen_edge map_vertices
map_label g l i [] x = ok x
map_label g l i (k ∷ ks) x = do
  a ← chosen_edge g.smaller g.edges_s l i
  b ← chosen_edge g.bigger g.edges_b l k
  (m, fits) ← map_vertices b.vertices a.vertices x.node_map
  let x' : Filled = record {
    node_map = m;
    preserved = insert_id b.id x.preserved;
    consistent = fits;
  }
  elim fits [ true ↦ map_label g l (suc i) ks x' | false ↦ ok x' ]

unfoldable pub map_labels : GraphPair → List (String × List ℕ) → Filled → Result Filled
unfolding map_label
map_labels g [] x = ok x
map_labels g ((l, ks) ∷ rest) x = do
  x' ← map_label g l 0 ks x
  elim x'.consistent [ true ↦ map_labels g rest x' | false ↦ ok x' ]

unfoldable pub generate_mapp : GraphPair → List (String × List ℕ) → Result Filled
unfolding map_labels
generate_mapp g choice =
    map_labels g choice (record { node_map = []; preserved = []; consistent = true })

-- What a loop adds to the map so that it has a property: nothing else, if it succeeds, and it fails
-- only if no map above the one before has the property.
pub record Least (P : Mapping → Type 0) (m m' : Mapping) (fits : Bool) : Type 0 where
  pub holds : fits ≡ true → P m'
  pub grows : Extends m' m
  pub below : (f : Mapping) → Extends f m → P f → (fits ≡ true) × Extends f m'

pub map_vertices_lem :
    (bs ss : List ℕ) (m : Mapping)
    → length bs ≡ length ss
    → (m' : Mapping) × (fits : Bool) × (map_vertices bs ss m ≡ ok (m', fits))
      × Least (λ f. carries f bs ss ≡ true) m m' fits
unfolding map_vertices
map_vertices_lem [] [] m l =
    (m, true, refl, record { holds = λ h. refl; grows = λ i t h. h; below = λ f x c. (refl, x) })
map_vertices_lem [] (s ∷ ss) m l = absurd (omega arith)
map_vertices_lem (b ∷ bs) [] m l = absurd (omega arith)
map_vertices_lem (b ∷ bs) (s ∷ ss) m l = elim (Option-cases (get_tar m b)) [
  | inl gone ↦
      let (m', fits, is_ok, h) = map_vertices_lem bs ss (insert b s m) (omega arith) in
      let first : get_tar m' b ≡ some s = h.grows b s (ground (arith, lookup-insert b b s m)) in
      (
        m',
        fits,
        ground (arith, gone, is_ok),
        record {
          holds = λ e. let rest = h.holds e in ground (arith, first, rest);
          grows = λ i t e. h.grows i t (ground (arith, e, gone, lookup-insert b i s m));
          below = λ f x c.
              let at : get_tar f b ≡ some s = sends-get_tar f b s (ground (arith, c)) in
              h.below f (λ i t e. ground (arith, e, at, x i t, lookup-insert b i s m))
                (ground (arith, c));
        },
      )
  | inr (t, is_t) ↦ elim (Bool-cases (t == s)) [
    | inl same ↦
        let (m', fits, is_ok, h) = map_vertices_lem bs ss m (omega arith) in
        let first : get_tar m' b ≡ some t = h.grows b t is_t in
        (
          m',
          fits,
          ground (arith, is_t, same, is_ok),
          record {
            holds = λ e. let rest = h.holds e in ground (arith, first, same, rest);
            grows = h.grows;
            below = λ f x c. h.below f x (ground (arith, c));
          },
        )
    | inr other ↦ (
      m,
      false,
      ground (arith, is_t, other),
      record {
        holds = λ e. cc;
        grows = λ i u e. e;
        below = λ f x c. let at = x b t is_t in absurd (ground (arith, c, at, other));
      },
    )
  ]
]
