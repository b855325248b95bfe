-- ===== src/Graphs/UqRule/Right.antt =====
-- Steps 1 and 2 of extendRuleByUQ.
use uncover.Base.{
  ℕ, suc, ◌+◌, ◌≤◌, ◌<◌, ◌^◌, ◌≡◌, ◌⊎◌, inl, inr, refl, List, [], ◌∷◌, true, some, arith, lookup,
  all_of, length, Option-cases, List-cases, contains, insert_id, IsOrdered,
}
use uncover.Graphs.Hypergraph.{Edge, Result, ok, has_vertex, has_edge, add_vertex}
use uncover.Graphs.Hypergraph.Incidence.{IsWf}
use uncover.Graphs.Mapping.{Mapping, get_tar, set_tar, set_at, inverse}
use uncover.Graphs.Mapping.Inverse.{sends-get_tar, inverse_lem, inverse_of_lem}
use uncover.Graphs.AnonRule.{AnonRule}
use uncover.Graphs.UqRule.{
  Quantification, mapped_vertices, single_preimage, Place, fresh, present, absent, place, RightSide,
  right_vertices, copy_right_edge, right_edge, right_edges,
}
use uncover.Graphs.UqRule.Growth.{
  Grown, Grown-trans, IsTyped, IsTyped-vertex, IsTyped-edge, IsTyped-set_tar, IsTyped-Grown,
  Grown-has_edge, IsWf-attached, mapped_vertices-all, add_vertex-Adds, add_edge-Adds,
}

-- The quantification belongs to the rule: all maps send vertices to vertices and edges to edges of
-- well-formed graphs.
pub record Fits (q : Quantification) (r : AnonRule) : Type 0 where
  pub quant_left : IsWf q.rule.left
  pub quant_right : IsWf q.rule.right
  pub quant_map : IsTyped q.rule.interface q.rule.left q.rule.right
  pub ordered : IsOrdered q.rule.interface
  pub inter : IsTyped q.inter q.rule.left r.left
  pub left : IsWf r.left
  pub right : IsWf r.right
  pub map : IsTyped r.interface r.left r.right

single_preimage-sends :
    (m : Mapping) (x p : ℕ) → IsOrdered m → single_preimage m x ≡ some p → get_tar m p ≡ some x
unfolding single_preimage
single_preimage-sends m x p o e = elim (List-cases (set_at (inverse m) x)) [
  | inl q ↦ absurd (ground (arith, q))
  | inr (p', rest, q) ↦ elim (List-cases rest) [
    | inl q' ↦
        let same : p' ≡ p = ground (arith, q, q') in
        let there : contains p (set_at (inverse m) x) ≡ true = ground (arith, q, same) in
        sends-get_tar m p x (ground (arith, inverse_lem m p x o, inverse_of_lem m p x o, there))
    | inr (p'', rest', q') ↦ absurd (ground (arith, q, q'))
  ]
]

Place-cases : (o : Place) → (o ≡ fresh) ⊎ (((u : ℕ) × (o ≡ present u)) ⊎ (o ≡ absent))
Place-cases fresh = inl refl
Place-cases (present u) = inr (inl (u, refl))
Place-cases absent = inr (inr refl)

place-present :
    (q : Quantification) (m : Mapping) (x u : ℕ)
    → place q m x ≡ present u
    → (p : ℕ) × (t : ℕ) × (single_preimage q.rule.interface x ≡ some p)
      × (get_tar q.inter p ≡ some t)
      × (get_tar m t ≡ some u)
unfolding place
place-present q m x u e = elim (Option-cases (single_preimage q.rule.interface x)) [
  | inl k ↦ absurd (ground (arith, k))
  | inr (p, k) ↦ elim (Option-cases (get_tar q.inter p)) [
    | inl k' ↦ absurd (ground (arith, k, k'))
    | inr (t, k') ↦ elim (Option-cases (get_tar m t)) [
      | inl k'' ↦ absurd (ground (arith, k, k', k''))
      | inr (u', k'') ↦ (p, t, k, k', ground (arith, k, k', k''))
    ]
  ]
]

module _ (q : Quantification) (r : AnonRule) (f : Fits q r) where
  abbrev IsSameKind : ℕ → ℕ → Type 0
  IsSameKind x u =
      ((has_vertex q.rule.right x ≡ true) × (has_vertex r.right u ≡ true))
      ⊎ ((has_edge q.rule.right x ≡ true) × (has_edge r.right u ≡ true))

  place-IsSameKind : (x u : ℕ) → place q r.interface x ≡ present u → IsSameKind x u
  place-IsSameKind x u e =
      let (p, t, e1, e2, e3) = place-present q r.interface x u e in
      elim (f.quant_map p x (single_preimage-sends q.rule.interface x p f.ordered e1)) [
        | inl (k, k') ↦
            let v = IsTyped-vertex q.inter q.rule.left r.left p t f.inter f.quant_left k e2 in
            inl (k', IsTyped-vertex r.interface r.left r.right t u f.map f.left v e3)
        | inr (k, k') ↦
            let v = IsTyped-edge q.inter q.rule.left r.left p t f.inter f.quant_left k e2 in
            inr (k', IsTyped-edge r.interface r.left r.right t u f.map f.left v e3)
      ]

  -- The state of the two loops, with room for that many more IDs below the limit.
  pub record RightInv (limit room : ℕ) (s : RightSide) : Type 0 where
    pub grows : Grown r.right s.graph
    pub typed : IsTyped s.map q.rule.right s.graph
    pub counted : s.graph.last_used_id + room ≤ limit

  present-RightInv :
      (limit room x u : ℕ) (s : RightSide)
      → place q r.interface x ≡ present u
      → RightInv limit (suc room) s
      → RightInv limit room (record s { map = set_tar s.map x u })
  present-RightInv limit room x u s e i =
      let kind : ((has_vertex q.rule.right x ≡ true) × (has_vertex s.graph u ≡ true))
          ⊎ ((has_edge q.rule.right x ≡ true) × (has_edge s.graph u ≡ true)) =
        elim (place-IsSameKind x u e) [
          | inl (k, k') ↦ inl (k, i.grows.vertices u k')
          | inr (k, k') ↦ inr (k, Grown-has_edge u i.grows k')
        ] in
      record {
        grows = i.grows;
        typed = IsTyped-set_tar s.map q.rule.right s.graph x u i.typed kind;
        counted = omega (arith, i.counted);
      }

  skip-RightInv :
      (limit room : ℕ) (s : RightSide) → RightInv limit (suc room) s → RightInv limit room s
  skip-RightInv limit room s i = record {
    grows = i.grows;
    typed = i.typed;
    counted = omega (arith, i.counted);
  }

  module _ (limit : ℕ) (small : limit < 2 ^ 32) where
    pub right_vertices-RightInv :
        (vs : List ℕ) (room : ℕ) (s : RightSide)
        → all_of (has_vertex q.rule.right) vs ≡ true
        → RightInv limit (length vs + room) s
        → RightInv limit room (right_vertices q r.interface vs s)
    unfolding right_vertices
    right_vertices-RightInv [] room s a i = record {
      grows = i.grows;
      typed = i.typed;
      counted = omega (arith, i.counted);
    }
    right_vertices-RightInv (v ∷ vs) room s a i =
        let (x, (g, c, _, _, _)) =
          add_vertex-Adds s.graph i.grows.well_formed (omega (arith, i.counted)) in
        let (h, n) = add_vertex s.graph in
        let wide : RightInv limit (suc (length vs + room)) s = record {
          grows = i.grows;
          typed = i.typed;
          counted = omega (arith, i.counted);
        } in
        let there : has_vertex q.rule.right v ≡ true = ground arith in
        let others : all_of (has_vertex q.rule.right) vs ≡ true = ground arith in
        let added : RightSide = record {
          graph = h;
          map = set_tar s.map v n;
          gen = insert_id n s.gen;
        } in
        let added-RightInv : RightInv limit (length vs + room) added = record {
          grows = Grown-trans i.grows g;
          typed =
              IsTyped-set_tar s.map q.rule.right h v n
                (IsTyped-Grown s.map q.rule.right s.graph h i.typed g) (inl (there, x));
          counted = omega (arith, i.counted);
        } in
        elim (Place-cases (place q r.interface v)) [
          | inl e ↦ rw e (right_vertices-RightInv vs room added others added-RightInv)
          | inr (inl (u, e)) ↦ rw e (
              right_vertices-RightInv vs room (record s { map = set_tar s.map v u }) others
                (present-RightInv limit (length vs + room) v u s e wide))
          | inr (inr e) ↦ rw e (
              right_vertices-RightInv vs room s others
                (skip-RightInv limit (length vs + room) s wide))
        ]

    -- What a loop over the edges gives.
    abbrev pub RightDone : ℕ → Result RightSide → Type 0
    RightDone room o = (s : RightSide) × (o ≡ ok s) × RightInv limit room s

    copy_right_edge-RightDone :
        (e : ℕ) (ed : Edge) (room : ℕ) (s : RightSide)
        → lookup e q.rule.right.edges ≡ some ed
        → RightInv limit (suc room) s
        → RightDone room (copy_right_edge e ed s)
    unfolding copy_right_edge
    copy_right_edge-RightDone e ed room s k i =
        elim (Option-cases (mapped_vertices s.map ed.vertices)) [
          | inl none_all ↦ rw (copy_right_edge, none_all) (s, refl, skip-RightInv limit room s i)
          | inr (ts, all) ↦
              let there =
                mapped_vertices-all s.map q.rule.right s.graph ed.vertices ts i.typed f.quant_right
                  (IsWf-attached q.rule.right e ed f.quant_right k) all in
              let (g, n, done, found, (grown, c, _, _, _)) =
                add_edge-Adds s.graph i.grows.well_formed (omega (arith, i.counted)) ed.label ts
                  there in
              let copied : RightSide = record {
                graph = g;
                map = set_tar s.map e n;
                gen = insert_id n s.gen;
              } in
              let both : (has_edge q.rule.right e ≡ true) × (has_edge g n ≡ true) =
                (ground (arith, k), ground (arith, found)) in
              rw (copy_right_edge, all, done)
                (
                  copied,
                  refl,
                  record {
                    grows = Grown-trans i.grows grown;
                    typed =
                        IsTyped-set_tar s.map q.rule.right g e n
                          (IsTyped-Grown s.map q.rule.right s.graph g i.typed grown) (inr both);
                    counted = omega (arith, i.counted);
                  },
                )
        ]

    right_edge-RightDone :
        (e : ℕ) (ed : Edge) (room : ℕ) (s : RightSide)
        → lookup e q.rule.right.edges ≡ some ed
        → RightInv limit (suc room) s
        → RightDone room (right_edge q r.interface e ed s)
    unfolding right_edge
    right_edge-RightDone e ed room s k i = elim (Place-cases (place q r.interface e)) [
      | inl p ↦ rw (right_edge, p) (copy_right_edge-RightDone e ed room s k i)
      | inr (inl (u, p)) ↦
          rw (right_edge, p)
            (record s { map = set_tar s.map e u }, refl, present-RightInv limit room e u s p i)
      | inr (inr p) ↦ rw (right_edge, p) (s, refl, skip-RightInv limit room s i)
    ]

    pub right_edges-RightDone :
        (es : List ℕ) (room : ℕ) (s : RightSide)
        → all_of (has_edge q.rule.right) es ≡ true
        → RightInv limit (length es + room) s
        → RightDone room (right_edges q r.interface es s)
    unfolding right_edges
    right_edges-RightDone [] room s a i =
        (s, refl, record { grows = i.grows; typed = i.typed; counted = omega (arith, i.counted) })
    right_edges-RightDone (e ∷ es) room s a i = elim (Option-cases (lookup e q.rule.right.edges)) [
      | inl k ↦ absurd (ground arith)
      | inr (ed, k) ↦
          let wide : RightInv limit (suc (length es + room)) s = record {
            grows = i.grows;
            typed = i.typed;
            counted = omega (arith, i.counted);
          } in
          let (s', d, j) = right_edge-RightDone e ed (length es + room) s k wide in
          let (s'', d', j') = right_edges-RightDone es room s' (ground arith) j in
          rw (right_edges, k, d) (s'', d', j')
    ]
