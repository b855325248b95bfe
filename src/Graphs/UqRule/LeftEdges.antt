-- ===== src/Graphs/UqRule/LeftEdges.antt =====
-- Step 4 of extendRuleByUQ: the edges on the left side.
use uncover.Graphs.UqRule.Left.{
  LeftInv, LeftInv-spent, copied, copied-LeftInv, Covers, has_src-set_tar,
}
use uncover.Base.{
  ℕ, suc, ◌+◌, ◌<◌, ◌^◌, ◌≡◌, inl, inr, refl, List, [], ◌∷◌, true, false, some, arith, lookup,
  all_of, length, Option-cases, Bool-cases, all_of-contains, all_of-intro,
}
use uncover.Graphs.Hypergraph.{Hypergraph, Edge, Result, ok, has_vertex, has_edge}
use uncover.Graphs.Mapping.{Mapping, get_tar, has_src}
use uncover.Graphs.AnonRule.{AnonRule}
use uncover.Graphs.UqRule.{Quantification, mapped_vertices, LeftSide, copy_left_edge, left_edges}
use uncover.Graphs.UqRule.Growth.{Grown, IsTyped, add_edge-Adds, IsWf-attached, mapped_vertices-all}
use uncover.Graphs.UqRule.Right.{Fits}

mapped_vertices-found :
    (m : Mapping) (vs : List ℕ)
    → all_of (has_src m) vs ≡ true
    → (ts : List ℕ) × (mapped_vertices m vs ≡ some ts)
unfolding mapped_vertices
mapped_vertices-found m [] a = ([], refl)
mapped_vertices-found m (v ∷ vs) a = elim (Option-cases (get_tar m v)) [
  | inl k ↦ absurd (ground (arith, k))
  | inr (t, k) ↦
      let (ts, e) = mapped_vertices-found m vs (ground arith) in
      (t ∷ ts, rw (mapped_vertices, k, e) refl)
]

-- The right side with its map stands as the first two steps have left it.
module _ (q : Quantification) (r : AnonRule) (f : Fits q r) (g : Hypergraph) (r2r : Mapping)
    (above : Grown r.right g) (images : IsTyped r2r q.rule.right g) where
  module _ (limit : ℕ) (small : limit < 2 ^ 32) where
    -- What step 4 gives.
    abbrev pub LeftDone : List ℕ → ℕ → LeftSide → Result LeftSide → Type 0
    LeftDone xs room s o =
        (s' : LeftSide) × (o ≡ ok s')
        × LeftInv q r f g r2r above images limit room s'
        × Covers q r f g r2r above images xs s s'

    abbrev pub HasVertices : LeftSide → Type 0
    HasVertices s = (v : ℕ) → has_vertex q.rule.left v ≡ true → has_src s.map v ≡ true

    -- The check of step 4 is always true, and the edge is added with its label.
    pub copy_left_edge-eq :
        (e : ℕ) (ed : Edge) (room : ℕ) (s : LeftSide)
        → lookup e q.rule.left.edges ≡ some ed
        → HasVertices s
        → LeftInv q r f g r2r above images limit (suc room) s
        → (ts : List ℕ) × (h : Hypergraph) × (i : ℕ) × (mapped_vertices s.map ed.vertices ≡ some ts)
          × (copy_left_edge q r2r e ed s ≡ ok (copied q r f g r2r above images e h i s))
          × (lookup i h.edges ≡ some (record { id = i; label = ed.label; vertices = ts }))
          × Grown s.graph h
          × (h.last_used_id ≡ suc s.graph.last_used_id)
          × (has_vertex s.graph i ≡ false)
          × (has_edge s.graph i ≡ false)
          × (s.graph.last_used_id < i)
    unfolding copy_left_edge
    copy_left_edge-eq e ed room s k all v =
        let attached = IsWf-attached q.rule.left e ed f.quant_left k in
        let checked : all_of (has_src s.map) ed.vertices ≡ true =
          all_of-intro (has_src s.map) ed.vertices
            (λ w c. all w (all_of-contains (has_vertex q.rule.left) ed.vertices w attached c)) in
        let (ts, found) = mapped_vertices-found s.map ed.vertices checked in
        let there =
          mapped_vertices-all s.map q.rule.left s.graph ed.vertices ts v.typed f.quant_left attached
            found in
        let (h, i, done, same, (grown, up, fresh, fresh', new)) =
          add_edge-Adds s.graph v.grows.well_formed (omega (arith, v.counted)) ed.label ts there in
        (
          ts,
          h,
          i,
          found,
          rw (copy_left_edge, found, done) refl,
          same,
          grown,
          up,
          fresh,
          fresh',
          new,
        )

    copy_left_edge-LeftDone :
        (e : ℕ) (ed : Edge) (room : ℕ) (s : LeftSide)
        → lookup e q.rule.left.edges ≡ some ed
        → HasVertices s
        → LeftInv q r f g r2r above images limit (suc room) s
        → LeftDone (e ∷ []) room s (copy_left_edge q r2r e ed s)
    copy_left_edge-LeftDone e ed room s k all v =
        let (ts, h, i, found, done, same, grown, up, _, _, new) =
          copy_left_edge-eq e ed room s k all v in
        let both : (has_edge q.rule.left e ≡ true) × (has_edge h i ≡ true) =
          (ground (arith, k), ground (arith, same)) in
        (
          copied q r f g r2r above images e h i s,
          done,
          copied-LeftInv q r f g r2r above images limit room e i h s v grown up new (inr both),
          λ x c. ground (arith, has_src-set_tar s.map e i x),
        )

    pub left_edges-LeftDone :
        (es : List ℕ) (room : ℕ) (s : LeftSide)
        → all_of (has_edge q.rule.left) es ≡ true
        → HasVertices s
        → LeftInv q r f g r2r above images limit (length es + room) s
        → LeftDone es room s (left_edges q r2r es s)
    unfolding left_edges
    left_edges-LeftDone [] room s a all v = (
      s,
      refl,
      LeftInv-spent q r f g r2r above images limit (0 + room) room s (omega arith) v,
      λ x k. k,
    )
    left_edges-LeftDone (e ∷ es) room s a all v = elim (Option-cases (lookup e q.rule.left.edges)) [
      | inl k ↦ absurd (ground arith)
      | inr (ed, k) ↦
          let wide =
            LeftInv-spent q r f g r2r above images limit (suc (length es) + room)
              (suc (length es + room)) s (omega arith) v in
          elim (Bool-cases (has_src q.inter e)) [
            | inl p ↦
                let less =
                  LeftInv-spent q r f g r2r above images limit (suc (length es + room))
                    (length es + room) s (omega arith) wide in
                let (s', d, v', c) = left_edges-LeftDone es room s (ground arith) all less in
                rw (left_edges, k, p) (s', d, v', λ x k'. c x (ground (arith, v.defined e p)))
            | inr p ↦
                let (s1, d1, v1, c1) =
                  copy_left_edge-LeftDone e ed (length es + room) s k all wide in
                let all1 : HasVertices s1 = λ w k'. c1 w (ground (arith, all w k')) in
                let (s', d, v', c) = left_edges-LeftDone es room s1 (ground arith) all1 v1 in
                rw (left_edges, k, p, d1) (s', d, v', λ x k'. c x (ground (arith, c1 x)))
          ]
    ]
