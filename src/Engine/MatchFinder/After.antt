-- ===== src/Engine/MatchFinder/After.antt =====
-- The state of mapEdges after an edge and its vertices are mapped.
use uncover.Base.{
  ℕ, suc, ◌≡◌, refl, [], true, false, some, arith, contains, lookup, lookup-insert, ◌==◌,
  if◌then◌else◌, ap, ◌∙◌, Bool-cases, inl, inr, length, Option-cases, ltb, ◌⊎◌, none, sym,
}
use uncover.Graphs.Hypergraph.{Edge, has_edge}
use uncover.Graphs.Mapping.{Mapping, has_src, get_tar}
use uncover.Engine.MatchFinder.{
  ok, Problem, Search, Extension, map_one, map_nodes, extend, check_nodes,
}
use uncover.Engine.MatchFinder.Partial.{
  IsPartial, edge_sent, edge_sent_mono, carries, Extends, IsAlmostInjective, OnOneEdge,
}
use uncover.Engine.MatchFinder.Possible.{
  first_image, or_else, check_nodes-carries, check_nodes-free_in,
}
use uncover.Engine.MatchFinder.Extend.{Growing, map_one-Growing}
use uncover.Engine.MatchFinder.Nodes.{map_nodes-Growing, map_nodes-get_tar}
use uncover.Engine.MatchFinder.Invariant.{
  Input, Invariant, unmapped, unmapped-insert, first_image-none, first_image-contains,
  carries-first_image, vertices-attached, free_in-first_image,
}
use text.Mathlib.Text.{◌==◌ as str_eq}

-- An edge `e` that is to be mapped to `t` in the state `s`: what is known of both.
pub record Chosen (p : Problem) (s : Search) (e t : ℕ) : Type 0 where
  pub a : Edge
  pub b : Edge
  pub is_a : lookup e p.source.edges ≡ some a
  pub is_b : lookup t p.target.edges ≡ some b
  pub label : str_eq a.label b.label ≡ true
  pub sized : length a.vertices ≡ length b.vertices
  pub passed : check_nodes p [] s.current s.rev_current a.vertices b.vertices ≡ true
  pub unused : p.injective ≡ true → has_src s.rev_current t ≡ false
  pub fresh : has_src s.current e ≡ false

module _ (p : Problem) (given : Input p) (s : Search) (e t : ℕ) (c : Chosen p s e t) where
  begun : Extension
  begun = map_one p e t (record { state = s; current_diff = []; rev_diff = []; mappable_diff = [] })

  pub after : Extension
  after = map_nodes p c.a.vertices c.b.vertices begun

  pub extend-after : extend p s e t ≡ ok after
  unfolding extend after begun
  extend-after =
      let fits : ltb (length c.b.vertices) (length c.a.vertices) ≡ false =
        ground (arith, c.sized) in
      ground (arith, c.is_a, c.is_b, fits)

  after-get_tar :
      (i : ℕ)
      → get_tar after.state.current i
        ≡ or_else
            (if e == i then some t else get_tar s.current i)
            (first_image c.a.vertices c.b.vertices i)
  unfolding after begun
  after-get_tar i =
      map_nodes-get_tar p c.a.vertices c.b.vertices begun i
      ∙ ap (λ o. or_else o (first_image c.a.vertices c.b.vertices i))
          (lookup-insert e i t s.current)

  -- An edge is none of the vertices.
  edge-apart : (i : ℕ) → has_edge p.source i ≡ true → contains i c.a.vertices ≡ false
  edge-apart i h = elim (Bool-cases (contains i c.a.vertices)) [
    | inr n ↦ n
    | inl k ↦
        let (vertex, _) = vertices-attached p.source e i c.a given.source_wf c.is_a k in
        absurd (ground (arith, h, vertex, given.source_wf.separate i))
  ]

  after-edge :
      (i : ℕ)
      → has_edge p.source i ≡ true
      → get_tar after.state.current i ≡ (if e == i then some t else get_tar s.current i)
  after-edge i h =
      let apart = first_image-none c.a.vertices c.b.vertices i (edge-apart i h) in
      ground (arith, after-get_tar i, apart)

  after-Extends : Extends after.state.current s.current
  after-Extends i u h = ground (arith, after-get_tar i, h, c.fresh)

  after-carries : carries after.state.current c.a.vertices c.b.vertices ≡ true
  after-carries =
      check_nodes-carries p [] s.current s.rev_current after.state.current c.a.vertices c.b.vertices
        c.sized c.passed
        (λ i k.
          let edge : has_edge p.source e ≡ true = ground (arith, c.is_a) in
          ground (arith, after-get_tar i, k, edge-apart e edge))

  pub after-IsPartial :
      IsPartial p.source p.target s.current → IsPartial p.source p.target after.state.current
  after-IsPartial part = record {
    edges = λ i u h at. elim (Bool-cases (e == i)) [
      | inl same ↦
          let here : i ≡ e = ground (arith, same) in
          let there : u ≡ t = ground (arith, same, at, after-edge i h) in
          let sent : edge_sent p.source p.target after.state.current e t ≡ true =
            ground (arith, c.is_a, c.is_b, c.label, after-carries) in
          ground (arith, here, there, sent)
      | inr other ↦
          edge_sent_mono p.source p.target after.state.current s.current i u after-Extends
            (part.edges i u h (ground (arith, other, at, after-edge i h)))
    ];
    vertices = λ v u h at.
        let other : (e == v) ≡ false = ground (arith, c.is_a, h, given.source_wf.separate v) in
        elim (Option-cases (get_tar s.current v)) [
          | inr (w, is_w) ↦ part.vertices v u h (ground (arith, other, is_w, at, after-get_tar v))
          | inl gone ↦
              let image : first_image c.a.vertices c.b.vertices v ≡ some u =
                ground (arith, other, gone, at, after-get_tar v) in
              let (_, k) = first_image-contains c.a.vertices c.b.vertices v u image in
              let (vertex, _) = vertices-attached p.target t u c.b given.target_wf c.is_b k in
              vertex
        ];
  }

  pub after-counted :
      suc (unmapped after.state.current p.source.edges) ≡ unmapped s.current p.source.edges
  after-counted =
      unmapped-insert s.current after.state.current e p.source.edges
        (λ i h. ground (arith, after-edge i h)) given.ordered (ground (arith, c.is_a)) c.fresh

  pub after-Growing : (n : ℕ) → Invariant p n s → contains e s.mappable ≡ false → Growing p s after
  unfolding after begun
  after-Growing n inv shut =
      let none_yet : Extension = record {
        state = s;
        current_diff = [];
        rev_diff = [];
        mappable_diff = [];
      } in
      let still : Growing p s none_yet = record {
        back = inv.back;
        forth = inv.forth;
        domain = inv.domain;
        open_edges = inv.open_edges;
        kept_current = λ i. refl;
        kept_rev = λ i. refl;
        kept_mappable = λ i. refl;
        found = refl;
        ordered = inv.ordered;
      } in
      let one : Growing p s (map_one p e t none_yet) =
        map_one-Growing p s none_yet e t still c.fresh shut (ground (arith, c.is_a))
          (λ i. ground (arith, c.unused i)) in
      map_nodes-Growing p s c.a.vertices c.b.vertices (map_one p e t none_yet) given.source_wf
        inv.back (λ v k. vertices-attached p.source e v c.a given.source_wf c.is_a k)
        (λ i. check_nodes-free_in p [] s.current s.rev_current c.a.vertices c.b.vertices i c.passed)
        one

  pub after-below :
      (f : Mapping)
      → Extends f s.current
      → get_tar f e ≡ some t
      → edge_sent p.source p.target f e t ≡ true
      → Extends f after.state.current
  after-below f x at sent i u h =
      let kept : carries f c.a.vertices c.b.vertices ≡ true =
        ground (arith, sent, c.is_a, c.is_b) in
      elim (Bool-cases (e == i)) [
        | inl same ↦ ground (arith, same, at, h, after-get_tar i)
        | inr other ↦ elim (Option-cases (get_tar s.current i)) [
          | inr (w, is_w) ↦ x i u (ground (arith, other, is_w, h, after-get_tar i))
          | inl gone ↦
              carries-first_image f c.a.vertices c.b.vertices i u kept
                (ground (arith, other, gone, h, after-get_tar i))
        ]
      ]

  -- Where an entry comes from: it is old, it is the one of the edge, or that of one of its vertices.
  abbrev Origin : ℕ → ℕ → Type 0
  Origin x u =
      (get_tar s.current x ≡ some u)
      ⊎ ((x ≡ e) × (u ≡ t))
      ⊎ ((get_tar s.current x ≡ none) × (first_image c.a.vertices c.b.vertices x ≡ some u))

  after-Origin : (x u : ℕ) → get_tar after.state.current x ≡ some u → Origin x u
  after-Origin x u at = elim (Bool-cases (e == x)) [
    | inl same ↦
        inr (inl (ground (arith, same), ground (arith, same, c.fresh, at, after-get_tar x)))
    | inr other ↦ elim (Option-cases (get_tar s.current x)) [
      | inr (w, is_w) ↦ inl (ground (arith, other, is_w, at, after-get_tar x))
      | inl gone ↦ inr (inr (gone, ground (arith, other, gone, at, after-get_tar x)))
    ]
  ]

  module _ (n : ℕ) (inv : Invariant p n s) (j : p.injective ≡ true) where
    -- The target of the edge has no other source.
    edge-unused : (y : ℕ) → get_tar s.current y ≡ some t → ⊥
    edge-unused y h = ground (arith, c.unused j, inv.forth j y t h)

    -- Neither has the new target of a vertex.
    node-unused :
        (x y u : ℕ)
        → get_tar s.current x ≡ none
        → first_image c.a.vertices c.b.vertices x ≡ some u
        → get_tar s.current y ≡ some u
        → ⊥
    node-unused x y u gone image h =
        let free =
          check_nodes-free_in p [] s.current s.rev_current c.a.vertices c.b.vertices j c.passed in
        let clear = free_in-first_image s.rev_current c.a.vertices c.b.vertices x u free image in
        elim (Option-cases (get_tar s.rev_current u)) [
          | inl k ↦ ground (arith, k, inv.forth j y u h)
          | inr (w, k) ↦
              let same : w ≡ x = ground (arith, k, clear) in
              ground (arith, same, gone, inv.back j u w k)
        ]

    -- It is no edge.
    node-edge : (x : ℕ) → first_image c.a.vertices c.b.vertices x ≡ some t → ⊥
    node-edge x image =
        let (_, k) = first_image-contains c.a.vertices c.b.vertices x t image in
        let (vertex, _) = vertices-attached p.target t t c.b given.target_wf c.is_b k in
        ground (arith, c.is_b, vertex, given.target_wf.separate t)

    Origin-apart : (x y u : ℕ) → Origin x u → Origin y u → (x ≡ y) ⊎ OnOneEdge p.source x y
    Origin-apart x y u (inl h) (inl h') = inv.apart j x y u h h'
    Origin-apart x y u (inl h) (inr (inl (_, is_t))) = absurd (edge-unused x (h ∙ ap some is_t))
    Origin-apart x y u (inl h) (inr (inr (gone, image))) = absurd (node-unused y x u gone image h)
    Origin-apart x y u (inr (inl (_, is_t))) (inl h) = absurd (edge-unused y (h ∙ ap some is_t))
    Origin-apart x y u (inr (inl (is_e, _))) (inr (inl (is_e', _))) = inl (is_e ∙ sym is_e')
    Origin-apart x y u (inr (inl (_, is_t))) (inr (inr (_, image))) =
        absurd (node-edge y (image ∙ ap some is_t))
    Origin-apart x y u (inr (inr (gone, image))) (inl h) = absurd (node-unused x y u gone image h)
    Origin-apart x y u (inr (inr (_, image))) (inr (inl (_, is_t))) =
        absurd (node-edge x (image ∙ ap some is_t))
    Origin-apart x y u (inr (inr (_, image))) (inr (inr (_, image'))) =
        let (k, _) = first_image-contains c.a.vertices c.b.vertices x u image in
        let (k', _) = first_image-contains c.a.vertices c.b.vertices y u image' in
        inr (e, c.a, c.is_a, k, k')

  pub after-apart :
      (n : ℕ)
      → Invariant p n s
      → p.injective ≡ true
      → IsAlmostInjective p.source after.state.current
  after-apart n inv j x y u at at' =
      Origin-apart n inv j x y u (after-Origin x u at) (after-Origin y u at')
