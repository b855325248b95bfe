-- ===== src/Engine/MatchFinder/Nodes.antt =====
-- The loop of mapEdges over the vertices of an edge.
use uncover.Base.{
  ℕ, ◌≡◌, refl, List, [], ◌∷◌, ◌++◌, true, false, not, ◌&&◌, none, some, arith, contains, insert,
  lookup, lookup-insert, insert_id, contains-insert_id, ◌==◌, ap, ◌∙◌, if-intro, Bool-cases, inl,
  inr, Option-cases, ◌<◌, subst,
}
use uncover.Graphs.Hypergraph.{Hypergraph, Edge, has_vertex, edges_at}
use uncover.Graphs.Hypergraph.Incidence.{IsWf, contains-count, count_pos, occurs}
use uncover.Graphs.Mapping.{has_src, get_tar}
use uncover.Engine.MatchFinder.{Problem, Search, Extension, mark_edges, map_one, map_nodes, clashes}
use uncover.Engine.MatchFinder.Partial.{is_attached}
use uncover.Engine.MatchFinder.Possible.{Back, first_image, or_else, free_in}
use uncover.Engine.MatchFinder.Undo.{Restores-fresh, RestoresIds-insert}
use uncover.Engine.MatchFinder.Extend.{Growing, IsOpen, map_one-Growing, touched-contains}

-- An edge at a vertex contains it.
pub edges_at-lookup :
    (h : Hypergraph) (v e : ℕ)
    → IsWf h
    → contains e (edges_at h.connected v) ≡ true
    → (a : Edge) × (lookup e h.edges ≡ some a) × (contains v a.vertices ≡ true)
edges_at-lookup h v e w c =
    let often : 0 < occurs h.edges v e =
      ground (arith, w.incident v e, contains-count e (edges_at h.connected v) c) in
    elim (Option-cases (lookup e h.edges)) [
      | inl gone ↦ absurd (ground (arith, gone))
      | inr (a, is_a) ↦ (a, is_a, count_pos v a.vertices (ground (arith, is_a)))
    ]

pub lookup-edges_at :
    (h : Hypergraph) (v e : ℕ) (a : Edge)
    → IsWf h
    → lookup e h.edges ≡ some a
    → contains v a.vertices ≡ true
    → contains e (edges_at h.connected v) ≡ true
lookup-edges_at h v e a w is_a c =
    let often : 0 < occurs h.edges v e = ground (arith, is_a, contains-count v a.vertices c) in
    count_pos e (edges_at h.connected v) (ground (arith, w.incident v e))

pub mark_edges-current :
    (es : List ℕ) (x : Extension) → (mark_edges es x).state.current ≡ x.state.current
unfolding mark_edges
mark_edges-current [] x = refl
mark_edges-current (e ∷ es) x =
    if-intro (λ y. (mark_edges es y).state.current ≡ x.state.current)
      (not (has_src x.state.current e) && not (contains e x.state.mappable)) _ _
      (λ b. mark_edges-current es _) (λ b. mark_edges-current es x)

module _ (p : Problem) (before : Search) where
  mark_one :
      (e v : ℕ) (x : Extension) (a : Edge)
      → Growing p before x
      → lookup e p.source.edges ≡ some a
      → contains v a.vertices ≡ true
      → has_src x.state.current v ≡ true
      → (not (has_src x.state.current e) && not (contains e x.state.mappable)) ≡ true
      → Growing p before (record x {
        state = record x.state { mappable = insert_id e x.state.mappable };
        mappable_diff = x.mappable_diff ++ e ∷ [];
      })
  mark_one e v x a g is_a c m b =
      let fresh : has_src x.state.current e ≡ false = ground (arith, b) in
      let shut : contains e x.state.mappable ≡ false = ground (arith, b) in
      record {
        back = g.back;
        forth = g.forth;
        domain = g.domain;
        open_edges = λ i k. elim (Bool-cases (e == i)) [
          | inl same ↦
              let here : IsOpen p.source x.state.current e =
                (a, is_a, fresh, touched-contains x.state.current v a.vertices c m) in
              let same' : e ≡ i = ground (arith, same) in
              subst (IsOpen p.source x.state.current) same' here
          | inr other ↦
              g.open_edges i (ground (arith, k, other, contains-insert_id e i x.state.mappable))
        ];
        kept_current = g.kept_current;
        kept_rev = g.kept_rev;
        kept_mappable =
            RestoresIds-insert x.state.mappable x.mappable_diff before.mappable e g.kept_mappable
              shut;
        found = g.found;
        ordered = g.ordered;
      }

  mark_edges-Growing :
      (es : List ℕ) (v : ℕ) (x : Extension)
      → Growing p before x
      → ((e : ℕ)
          → contains e es ≡ true
          → (a : Edge) × (lookup e p.source.edges ≡ some a) × (contains v a.vertices ≡ true))
      → has_src x.state.current v ≡ true
      → Growing p before (mark_edges es x)
  unfolding mark_edges
  mark_edges-Growing [] v x g at m = g
  mark_edges-Growing (e ∷ es) v x g at m =
      let later : (i : ℕ)
          → contains i es ≡ true
          → (a : Edge) × (lookup i p.source.edges ≡ some a) × (contains v a.vertices ≡ true) =
        λ i c. at i (ground (arith, c)) in
      let (a, is_a, c) = at e (ground arith) in
      if-intro (λ y. Growing p before (mark_edges es y))
        (not (has_src x.state.current e) && not (contains e x.state.mappable)) _ _
        (λ b. mark_edges-Growing es v _ (mark_one e v x a g is_a c m b) later m)
        (λ b. mark_edges-Growing es v x g later m)

  -- Nothing that the round maps to was the target of another source before.
  fresh-target :
      (x : Extension) (s t : ℕ)
      → Growing p before x
      → Back p before.current before.rev_current
      → has_src x.state.current s ≡ false
      → clashes before.rev_current t s ≡ false
      → p.injective ≡ true
      → get_tar before.rev_current t ≡ none
  fresh-target x s t g back fresh free i = elim (Option-cases (get_tar before.rev_current t)) [
    | inl gone ↦ gone
    | inr (u, is_u) ↦
        let gone : get_tar before.current s ≡ none =
          Restores-fresh x.state.current x.current_diff before.current s g.kept_current
            (ground (arith, fresh)) in
        let same : u ≡ s = ground (arith, is_u, free) in
        absurd (ground (arith, back i t u is_u, same, gone))
  ]

  pub map_nodes-Growing :
      (ss ts : List ℕ) (x : Extension)
      → IsWf p.source
      → Back p before.current before.rev_current
      → ((v : ℕ)
          → contains v ss ≡ true
          → has_vertex p.source v ≡ true × is_attached p.source v ≡ true)
      → (p.injective ≡ true → free_in before.rev_current ss ts ≡ true)
      → Growing p before x
      → Growing p before (map_nodes p ss ts x)
  unfolding map_nodes
  map_nodes-Growing [] ts x w back at free g = g
  map_nodes-Growing (s ∷ ss) [] x w back at free g = g
  map_nodes-Growing (s ∷ ss) (t ∷ ts) x w back at free g =
      let later : (v : ℕ)
          → contains v ss ≡ true
          → has_vertex p.source v ≡ true × is_attached p.source v ≡ true =
        λ v c. at v (ground (arith, c)) in
      let free' : p.injective ≡ true → free_in before.rev_current ss ts ≡ true =
        λ i. ground (arith, free i) in
      let (vertex, near) = at s (ground arith) in
      if-intro (λ y. Growing p before (map_nodes p ss ts y)) (has_src x.state.current s) _ _
        (λ b. map_nodes-Growing ss ts x w back later free' g)
        (λ b.
          let shut : contains s x.state.mappable ≡ false =
            elim (Bool-cases (contains s x.state.mappable)) [
              | inr n ↦ n
              | inl c ↦
                  let (a, is_a, _, _) = g.open_edges s c in
                  absurd (ground (arith, is_a, vertex, w.separate s))
            ] in
          let one : Growing p before (map_one p s t x) =
            map_one-Growing p before x s t g b shut (ground (arith, near))
              (λ i. fresh-target x s t g back b (ground (arith, free i)) i) in
          map_nodes-Growing ss ts _ w back later free' (
            mark_edges-Growing (edges_at p.source.connected s) s (map_one p s t x) one
              (λ e c. edges_at-lookup p.source s e w c)
              (ground (arith, lookup-insert s s t x.state.current))))

pub map_nodes-get_tar :
    (p : Problem) (ss ts : List ℕ) (x : Extension) (i : ℕ)
    → get_tar (map_nodes p ss ts x).state.current i
      ≡ or_else (get_tar x.state.current i) (first_image ss ts i)
unfolding map_nodes
map_nodes-get_tar p [] ts x i = ground arith
map_nodes-get_tar p (s ∷ ss) [] x i = ground arith
map_nodes-get_tar p (s ∷ ss) (t ∷ ts) x i =
    if-intro
      (λ y.
        get_tar (map_nodes p ss ts y).state.current i
        ≡ or_else (get_tar x.state.current i) (first_image (s ∷ ss) (t ∷ ts) i))
      (has_src x.state.current s) _ _ (λ b. ground (arith, b, map_nodes-get_tar p ss ts x i))
      (λ b.
        let fresh = mark_edges (edges_at p.source.connected s) (map_one p s t x) in
        let same = mark_edges-current (edges_at p.source.connected s) (map_one p s t x) in
        let step : get_tar (map_nodes p ss ts fresh).state.current i
            ≡ or_else (get_tar (insert s t x.state.current) i) (first_image ss ts i) =
          map_nodes-get_tar p ss ts fresh i
          ∙ ap (λ m. or_else (get_tar m i) (first_image ss ts i)) same in
        ground (arith, b, step, lookup-insert s i t x.state.current))
