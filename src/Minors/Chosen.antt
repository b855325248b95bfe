-- ===== src/Minors/Chosen.antt =====
-- generateMapp gives the least map that sends the chosen edges to their partners.
use Prim.Native.String.{String}
use uncover.Base.{
  ℕ, suc, ◌≡◌, refl, List, [], ◌∷◌, Bool, true, false, arith, length, insert_id, if◌then◌else◌,
  Bool-cases, inl, inr, ◌∙◌, subst, sym,
}
use uncover.Graphs.Hypergraph.{Edge}
use uncover.Graphs.Mapping.{Mapping}
use uncover.Engine.MatchFinder.{ok}
use uncover.Engine.MatchFinder.Partial.{carries, carries_mono, Extends}
use uncover.Minors.Mapp.{
  GraphPair, Filled, Least, chosen_edge, map_vertices, map_vertices_lem, map_label, map_labels,
  generate_mapp,
}

-- The edges that a choice pairs: those of the smaller graph in their order, and the chosen ones of
-- the bigger graph.
abbrev pub Paired : GraphPair → String → ℕ → List ℕ → List (Edge × Edge) → Type 0
Paired g l i [] [] = Unit
Paired g l i [] (q ∷ qs) = ⊥
Paired g l i (k ∷ ks) [] = ⊥
Paired g l i (k ∷ ks) ((a, b) ∷ qs) =
    (chosen_edge g.smaller g.edges_s l i ≡ ok a)
    × (chosen_edge g.bigger g.edges_b l k ≡ ok b)
    × Paired g l (suc i) ks qs

abbrev pub PairedAll : GraphPair → List (String × List ℕ) → List (List (Edge × Edge)) → Type 0
PairedAll g [] [] = Unit
PairedAll g [] (qs ∷ qss) = ⊥
PairedAll g (c ∷ choice) [] = ⊥
PairedAll g ((l, ks) ∷ choice) (qs ∷ qss) = Paired g l 0 ks qs × PairedAll g choice qss

-- Both edges of every pair have equally many vertices.
abbrev pub Fits : List (Edge × Edge) → Type 0
Fits [] = Unit
Fits ((a, b) ∷ qs) = (length b.vertices ≡ length a.vertices) × Fits qs

abbrev pub FitsAll : List (List (Edge × Edge)) → Type 0
FitsAll [] = Unit
FitsAll (qs ∷ qss) = Fits qs × FitsAll qss

-- The map sends the vertices of each chosen edge to those of its partner, in their order.
abbrev pub Sends : List (Edge × Edge) → Mapping → Type 0
Sends [] f = Unit
Sends ((a, b) ∷ qs) f = (carries f b.vertices a.vertices ≡ true) × Sends qs f

abbrev pub SendsAll : List (List (Edge × Edge)) → Mapping → Type 0
SendsAll [] f = Unit
SendsAll (qs ∷ qss) f = Sends qs f × SendsAll qss f

Sends-mono : (qs : List (Edge × Edge)) (f m : Mapping) → Extends f m → Sends qs m → Sends qs f
Sends-mono [] f m x h = tt
Sends-mono ((a, b) ∷ qs) f m x h =
    (carries_mono f m b.vertices a.vertices x h.0, Sends-mono qs f m x h.1)

-- One property after the other.
Least-then :
    (P Q : Mapping → Type 0) (m m' m'' : Mapping) (fits : Bool)
    → ((f g : Mapping) → Extends f g → P g → P f)
    → Least P m m' true
    → Least Q m' m'' fits
    → Least (λ f. P f × Q f) m m'' fits
Least-then P Q m m' m'' fits up h k = record {
  holds = λ e. (up m'' m' k.grows (h.holds refl), k.holds e);
  grows = λ i t e. k.grows i t (h.grows i t e);
  below = λ f x (p, q). k.below f (h.below f x p).1 q;
}

Least-fails :
    (P Q : Mapping → Type 0) (m m' : Mapping)
    → Least P m m' false
    → Least (λ f. P f × Q f) m m' false
Least-fails P Q m m' h = record {
  holds = λ e. cc;
  grows = h.grows;
  below = λ f x (p, q). h.below f x p;
}

map_label-step :
    (g : GraphPair) (l : String) (i k : ℕ) (ks : List ℕ) (x : Filled) (a b : Edge) (m : Mapping)
    (fits : Bool)
    → chosen_edge g.smaller g.edges_s l i ≡ ok a
    → chosen_edge g.bigger g.edges_b l k ≡ ok b
    → map_vertices b.vertices a.vertices x.node_map ≡ ok (m, fits)
    → (let x' : Filled = record {
      node_map = m;
      preserved = insert_id b.id x.preserved;
      consistent = fits;
    } in
        map_label g l i (k ∷ ks) x ≡ (if fits then map_label g l (suc i) ks x' else ok x'))
unfolding map_label
map_label-step g l i k ks x a b m true p q r =
    rw (p, map_label) (rw (q, map_label) (rw (r, map_label) refl))
map_label-step g l i k ks x a b m false p q r =
    rw (p, map_label) (rw (q, map_label) (rw (r, map_label) refl))

map_label_lem :
    (g : GraphPair) (l : String) (i : ℕ) (ks : List ℕ) (qs : List (Edge × Edge)) (x : Filled)
    → Paired g l i ks qs
    → Fits qs
    → x.consistent ≡ true
    → (x' : Filled) × (map_label g l i ks x ≡ ok x')
      × Least (Sends qs) x.node_map x'.node_map x'.consistent
unfolding map_label
map_label_lem g l i [] [] x p s c =
    (x, refl, record { holds = λ e. tt; grows = λ i t h. h; below = λ f y h. (c, y) })
map_label_lem g l i [] (q ∷ qs) x p s c = absurd p
map_label_lem g l i (k ∷ ks) [] x p s c = absurd p
map_label_lem g l i (k ∷ ks) ((a, b) ∷ qs) x (pa, pb, p) s c =
    let (m, fits, is_ok, h) = map_vertices_lem b.vertices a.vertices x.node_map s.0 in
    let step = map_label-step g l i k ks x a b m fits pa pb is_ok in
    let carried : Mapping → Type 0 = λ f. carries f b.vertices a.vertices ≡ true in
    elim (Bool-cases fits) [
      | inl e ↦
          let x' : Filled = record {
            node_map = m;
            preserved = insert_id b.id x.preserved;
            consistent = fits;
          } in
          let (x'', is_ok', h') = map_label_lem g l (suc i) ks qs x' p s.1 e in
          let go_on : (if fits then map_label g l (suc i) ks x' else ok x')
              ≡ map_label g l (suc i) ks x' =
            ground (arith, e) in
          (
            x'',
            step ∙ go_on ∙ is_ok',
            Least-then carried (Sends qs) x.node_map m x''.node_map x''.consistent
                (λ f k y d. carries_mono f k b.vertices a.vertices y d)
                (subst (Least carried x.node_map m) e h) h',
          )
      | inr e ↦
          let x' : Filled = record {
            node_map = m;
            preserved = insert_id b.id x.preserved;
            consistent = fits;
          } in
          let stop : (if fits then map_label g l (suc i) ks x' else ok x') ≡ ok x' =
            ground (arith, e) in
          (
            x',
            step ∙ stop,
            subst (Least (λ f. carried f × Sends qs f) x.node_map m) (sym e) (
                Least-fails carried (Sends qs) x.node_map m
                  (subst (Least carried x.node_map m) e h)),
          )
    ]

map_labels-step :
    (g : GraphPair) (l : String) (ks : List ℕ) (choice : List (String × List ℕ)) (x x' : Filled)
    → map_label g l 0 ks x ≡ ok x'
    → map_labels g ((l, ks) ∷ choice) x ≡ (if x'.consistent then map_labels g choice x' else ok x')
unfolding map_labels
map_labels-step g l ks choice x x' h =
    rw (h, map_labels)
      (elim (Bool-cases x'.consistent) [ inl e ↦ ground (arith, e) | inr e ↦ ground (arith, e) ])

map_labels_lem :
    (g : GraphPair) (choice : List (String × List ℕ)) (qss : List (List (Edge × Edge))) (x : Filled)
    → PairedAll g choice qss
    → FitsAll qss
    → x.consistent ≡ true
    → (x' : Filled) × (map_labels g choice x ≡ ok x')
      × Least (SendsAll qss) x.node_map x'.node_map x'.consistent
unfolding map_labels
map_labels_lem g [] [] x p s c =
    (x, refl, record { holds = λ e. tt; grows = λ i t h. h; below = λ f y h. (c, y) })
map_labels_lem g [] (qs ∷ qss) x p s c = absurd p
map_labels_lem g (k ∷ choice) [] x p s c = absurd p
map_labels_lem g ((l, ks) ∷ choice) (qs ∷ qss) x p s c =
    let (x', is_ok, h) = map_label_lem g l 0 ks qs x p.0 s.0 c in
    let step = map_labels-step g l ks choice x x' is_ok in
    elim (Bool-cases x'.consistent) [
      | inl e ↦
          let (x'', is_ok', h') = map_labels_lem g choice qss x' p.1 s.1 e in
          let go_on : (if x'.consistent then map_labels g choice x' else ok x')
              ≡ map_labels g choice x' =
            ground (arith, e) in
          (
            x'',
            step ∙ go_on ∙ is_ok',
            Least-then (Sends qs) (SendsAll qss) x.node_map x'.node_map x''.node_map x''.consistent
                (λ f k y d. Sends-mono qs f k y d)
                (subst (Least (Sends qs) x.node_map x'.node_map) e h) h',
          )
      | inr e ↦
          let stop : (if x'.consistent then map_labels g choice x' else ok x') ≡ ok x' =
            ground (arith, e) in
          (
            x',
            step ∙ stop,
            subst (Least (λ f. Sends qs f × SendsAll qss f) x.node_map x'.node_map) (sym e) (
                Least-fails (Sends qs) (SendsAll qss) x.node_map x'.node_map
                  (subst (Least (Sends qs) x.node_map x'.node_map) e h)),
          )
    ]

-- For a choice whose edges exist and have equally many vertices as their partners, nothing is read
-- out of range. The result is true if and only if some map sends the vertices of every chosen edge
-- to those of its partner, and then the map that is filled does, and is part of every map that does.
pub generate_mapp_lem :
    (g : GraphPair) (choice : List (String × List ℕ)) (qss : List (List (Edge × Edge)))
    → PairedAll g choice qss
    → FitsAll qss
    → (x : Filled) × (generate_mapp g choice ≡ ok x)
      × (x.consistent ≡ true → SendsAll qss x.node_map)
      × ((f : Mapping) → SendsAll qss f → (x.consistent ≡ true) × Extends f x.node_map)
unfolding generate_mapp
generate_mapp_lem g choice qss p s =
    let (x, is_ok, h) =
      map_labels_lem g choice qss (record { node_map = []; preserved = []; consistent = true }) p s
        refl in
    (x, is_ok, h.holds, λ f d. h.below f (λ i t e. cc) d)
