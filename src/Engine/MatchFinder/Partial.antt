-- ===== src/Engine/MatchFinder/Partial.antt =====
-- What a mapping between the IDs of two graphs preserves: partial and total morphisms.
use text.Mathlib.Text.{◌==◌ as str_eq}
use uncover.Base.{
  ℕ, ◌≡◌, refl, List, [], ◌∷◌, Bool, true, false, ◌&&◌, none, some, arith, length, contains, lookup,
  Option-cases, inl, inr, ◌⊎◌,
}
use uncover.Graphs.Hypergraph.{Hypergraph, Edge, has_vertex, has_edge, edges_at}
use uncover.Graphs.Mapping.{Mapping, has_src, get_tar}
use uncover.Graphs.Mapping.Inverse.{sends}

-- The mapping sends one sequence of vertices to the other, place by place.
abbrev pub carries : Mapping → List ℕ → List ℕ → Bool
carries m [] [] = true
carries m [] (w ∷ ws) = false
carries m (v ∷ vs) [] = false
carries m (v ∷ vs) (w ∷ ws) = sends m v w && carries m vs ws

-- Both are edges, with the same label, and the mapping sends the vertices of the one to those of
-- the other.
abbrev pub edge_sent : Hypergraph → Hypergraph → Mapping → ℕ → ℕ → Bool
edge_sent source target m e t = elim (lookup e source.edges) [
  | none ↦ false
  | some a ↦ elim (lookup t target.edges) [
    | none ↦ false
    | some b ↦ str_eq a.label b.label && carries m a.vertices b.vertices
  ]
]

-- A vertex with an edge.
abbrev pub is_attached : Hypergraph → ℕ → Bool
is_attached h v = elim (edges_at h.connected v) [ [] ↦ false | _ ∷ _ ↦ true ]

-- What is mapped, is mapped like in a morphism.
pub record IsPartial (source target : Hypergraph) (m : Mapping) : Type 0 where
  pub edges :
      (e t : ℕ)
      → has_edge source e ≡ true
      → get_tar m e ≡ some t
      → edge_sent source target m e t ≡ true
  pub vertices :
      (v x : ℕ) → has_vertex source v ≡ true → get_tar m v ≡ some x → has_vertex target x ≡ true

-- A morphism: every vertex goes to a vertex, and every edge to an edge, with label and vertices.
pub record IsMorphism (source target : Hypergraph) (m : Mapping) : Type 0 where
  pub partial : IsPartial source target m
  pub all_vertices : (v : ℕ) → has_vertex source v ≡ true → has_src m v ≡ true
  pub all_edges : (e : ℕ) → has_edge source e ≡ true → has_src m e ≡ true

abbrev pub Extends : Mapping → Mapping → Type 0
Extends f m = (i t : ℕ) → get_tar m i ≡ some t → get_tar f i ≡ some t

abbrev pub IsInjective : Mapping → Type 0
IsInjective m = (i j t : ℕ) → get_tar m i ≡ some t → get_tar m j ≡ some t → i ≡ j

pub carries_mono :
    (f m : Mapping) (vs ws : List ℕ) → Extends f m → carries m vs ws ≡ true → carries f vs ws ≡ true
carries_mono f m [] [] x h = refl
carries_mono f m [] (w ∷ ws) x h = cc
carries_mono f m (v ∷ vs) [] x h = cc
carries_mono f m (v ∷ vs) (w ∷ ws) x h = ground (arith, carries_mono f m vs ws x, x v w)

pub edge_sent_mono :
    (source target : Hypergraph) (f m : Mapping) (e t : ℕ)
    → Extends f m
    → edge_sent source target m e t ≡ true
    → edge_sent source target f e t ≡ true
edge_sent_mono source target f m e t x h = elim (Option-cases (lookup e source.edges)) [
  | inl gone ↦ ground (arith, gone)
  | inr (a, is_a) ↦ elim (Option-cases (lookup t target.edges)) [
    | inl gone ↦ ground (arith, is_a, gone)
    | inr (b, is_b) ↦ ground (arith, is_a, is_b, carries_mono f m a.vertices b.vertices x)
  ]
]

-- The edges behind a sent edge.
pub edge_sent-cases :
    (source target : Hypergraph) (m : Mapping) (e t : ℕ)
    → edge_sent source target m e t ≡ true
    → (a : Edge) × (b : Edge) × (lookup e source.edges ≡ some a)
      × (lookup t target.edges ≡ some b)
      × (str_eq a.label b.label ≡ true)
      × (carries m a.vertices b.vertices ≡ true)
edge_sent-cases source target m e t h = elim (Option-cases (lookup e source.edges)) [
  | inl gone ↦ absurd (ground (arith, gone))
  | inr (a, is_a) ↦ elim (Option-cases (lookup t target.edges)) [
    | inl gone ↦ absurd (ground (arith, is_a, gone))
    | inr (b, is_b) ↦ (a, b, is_a, is_b, ground (arith, is_a, is_b), ground (arith, is_a, is_b))
  ]
]

pub carries-length : (m : Mapping) (vs ws : List ℕ) → carries m vs ws ≡ true → length vs ≡ length ws
carries-length m [] [] h = refl
carries-length m [] (w ∷ ws) h = cc
carries-length m (v ∷ vs) [] h = cc
carries-length m (v ∷ vs) (w ∷ ws) h = ground (arith, carries-length m vs ws)

pub carries-has_src :
    (m : Mapping) (v : ℕ) (vs ws : List ℕ)
    → carries m vs ws ≡ true
    → contains v vs ≡ true
    → has_src m v ≡ true
carries-has_src m v [] [] h c = cc
carries-has_src m v [] (w ∷ ws) h c = cc
carries-has_src m v (x ∷ vs) [] h c = cc
carries-has_src m v (x ∷ vs) (w ∷ ws) h c = ground (arith, carries-has_src m v vs ws)

-- Two vertices of one edge.
abbrev pub OnOneEdge : Hypergraph → ℕ → ℕ → Type 0
OnOneEdge h x y =
    (e : ℕ) × (a : Edge) × (lookup e h.edges ≡ some a)
    × (contains x a.vertices ≡ true)
    × (contains y a.vertices ≡ true)

-- Different elements have different targets, unless they are vertices of one edge.
abbrev pub IsAlmostInjective : Hypergraph → Mapping → Type 0
IsAlmostInjective h m =
    (x y t : ℕ) → get_tar m x ≡ some t → get_tar m y ≡ some t → (x ≡ y) ⊎ OnOneEdge h x y
