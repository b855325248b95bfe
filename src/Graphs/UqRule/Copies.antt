-- ===== src/Graphs/UqRule/Copies.antt =====
-- Steps 3 and 4 of extendRuleByUQ give every new element of a quantification a copy.
use uncover.Base.{
  ℕ, suc, ◌+◌, ◌<◌, ◌^◌, ◌≡◌, ◌⊎◌, inl, inr, refl, List, [], ◌∷◌, true, false, some, arith, lookup,
  all_of, length, Option-cases, Bool-cases, contains, ◌==◌, subst, ==_iff, ◌∙◌,
}
use uncover.Graphs.Hypergraph.{Hypergraph, Edge, ok, has_vertex, has_edge, add_vertex}
use uncover.Graphs.Mapping.{Mapping, has_src, set_tar}
use uncover.Graphs.AnonRule.{AnonRule}
use uncover.Graphs.UqRule.{
  Quantification, mapped_vertices, LeftSide, left_vertices, copy_left_edge, left_edges,
}
use uncover.Graphs.UqRule.Growth.{Grown, IsTyped, add_vertex-Adds}
use uncover.Graphs.UqRule.Right.{Fits}
use uncover.Graphs.UqRule.Left.{copied, LeftInv, LeftInv-spent, copied-LeftInv, has_src-set_tar}
use uncover.Graphs.UqRule.LeftEdges.{copy_left_edge-eq, HasVertices}
use uncover.Graphs.UqRule.Copy.{
  Copy, Copy-kept, Copy-new, CopiesAll, edge_not_vertex, edge_apart, skipped,
  mapped_vertices-set_tar,
}

module _ (q : Quantification) (r : AnonRule) (f : Fits q r) (g : Hypergraph) (r2r : Mapping)
    (above : Grown r.right g) (images : IsTyped r2r q.rule.right g) where
  module _ (limit : ℕ) (small : limit < 2 ^ 32) where
    pub left_vertices-Copy :
        (vs : List ℕ) (room : ℕ) (s : LeftSide)
        → all_of (has_vertex q.rule.left) vs ≡ true
        → LeftInv q r f g r2r above images limit (length vs + room) s
        → (x : ℕ) → has_vertex q.rule.left x ≡ true
        → has_src q.inter x ≡ false
        → (contains x vs ≡ true) ⊎ Copy q r2r x s
        → Copy q r2r x (left_vertices q r2r vs s)
    unfolding left_vertices
    left_vertices-Copy [] room s a v x k n (inl c) = absurd (ground arith)
    left_vertices-Copy [] room s a v x k n (inr c) = c
    left_vertices-Copy (w ∷ vs) room s a v x k n c = elim (Bool-cases (has_src q.inter w)) [
      | inl p ↦
          let less =
            LeftInv-spent q r f g r2r above images limit (suc (length vs) + room) (length vs + room)
              s (omega arith) v in
          rw (left_vertices, p)
            (left_vertices-Copy vs room s (ground arith) less x k n
              (skipped q r f g r2r above images w x vs s p n c))
      | inr p ↦
          let (there, (grown, up, no_vertex, no_edge, new)) =
            add_vertex-Adds s.graph v.grows.well_formed (omega (arith, v.counted)) in
          let (h, i) = add_vertex s.graph in
          let wide =
            LeftInv-spent q r f g r2r above images limit (suc (length vs) + room)
              (suc (length vs + room)) s (omega arith) v in
          let next =
            copied-LeftInv q r f g r2r above images limit (length vs + room) w i h s wide grown up
              new (inl (ground arith, there)) in
          let s' = copied q r f g r2r above images w h i s in
          let c' : (contains x vs ≡ true) ⊎ Copy q r2r x s' = elim (Bool-cases (w == x)) [
            | inl e ↦ inr (
                subst (λ z. Copy q r2r z s') ((==_iff w x).0 e)
                  (Copy-new q r f g r2r above images w i h s v.rule_typed no_vertex no_edge
                    (grown.well_formed.vertex_old i there)
                    (λ ed l.
                      absurd (edge_not_vertex q r f g r2r above images w ed (ground arith) l))))
            | inr e ↦ elim c [
              | inl c0 ↦ inl (ground (arith, e))
              | inr c0 ↦ inr (
                  Copy-kept q r f g r2r above images x w i h s grown new (ground (arith, e))
                    (λ ed l. absurd (edge_not_vertex q r f g r2r above images x ed k l)) c0)
            ]
          ] in
          rw (left_vertices, p) (left_vertices-Copy vs room s' (ground arith) next x k n c')
    ]

    copy_left_edge-Copy :
        (e : ℕ) (ed : Edge) (room : ℕ) (s : LeftSide)
        → lookup e q.rule.left.edges ≡ some ed
        → HasVertices q r f g r2r above images limit small s
        → LeftInv q r f g r2r above images limit (suc room) s
        → (s' : LeftSide) × (copy_left_edge q r2r e ed s ≡ ok s')
          × LeftInv q r f g r2r above images limit room s'
          × HasVertices q r f g r2r above images limit small s'
          × CopiesAll q r f g r2r above images (e ∷ []) s s'
    copy_left_edge-Copy e ed room s k all v =
        let (ts, h, i, found, done, same, grown, up, no_vertex, no_edge, new) =
          copy_left_edge-eq q r f g r2r above images limit small e ed room s k all v in
        let is_edge : has_edge q.rule.left e ≡ true = ground (arith, k) in
        let there : has_edge h i ≡ true = ground (arith, same) in
        let s' = copied q r f g r2r above images e h i s in
        let own : (ed' : Edge)
            → lookup e q.rule.left.edges ≡ some ed'
            → (ts : List ℕ) × (mapped_vertices (set_tar s.map e i) ed'.vertices ≡ some ts)
              × (lookup i h.edges ≡ some (record { id = i; label = ed'.label; vertices = ts })) =
          λ ed' l.
            let is_ed : ed ≡ ed' = ground (arith, k) in
            subst
              (λ z.
                (ts : List ℕ) × (mapped_vertices (set_tar s.map e i) z.vertices ≡ some ts)
                × (lookup i h.edges ≡ some (record { id = i; label = z.label; vertices = ts })))
              is_ed
              (
                ts,
                mapped_vertices-set_tar s.map e i ed.vertices
                      (edge_apart q r f g r2r above images e e ed is_edge k)
                    ∙ found,
                same,
              ) in
        let new_one =
          Copy-new q r f g r2r above images e i h s v.rule_typed no_vertex no_edge
            (grown.well_formed.edge_old i there) own in
        (
          s',
          done,
          copied-LeftInv q r f g r2r above images limit room e i h s v grown up new
              (inr (is_edge, there)),
          λ w k'. ground (arith, has_src-set_tar s.map e i w, all w k'),
          λ x n c. elim (Bool-cases (e == x)) [
            | inl p ↦ subst (λ z. Copy q r2r z s') ((==_iff e x).0 p) new_one
            | inr p ↦ elim c [
              | inl c0 ↦ absurd (ground (arith, p))
              | inr c0 ↦
                  Copy-kept q r f g r2r above images x e i h s grown new (ground (arith, p))
                    (λ ed' l. edge_apart q r f g r2r above images e x ed' is_edge l) c0
            ]
          ],
        )

    pub left_edges-Copy :
        (es : List ℕ) (room : ℕ) (s : LeftSide)
        → all_of (has_edge q.rule.left) es ≡ true
        → HasVertices q r f g r2r above images limit small s
        → LeftInv q r f g r2r above images limit (length es + room) s
        → (s' : LeftSide) × (left_edges q r2r es s ≡ ok s')
          × LeftInv q r f g r2r above images limit room s'
          × CopiesAll q r f g r2r above images es s s'
    unfolding left_edges
    left_edges-Copy [] room s a all v = (
      s,
      refl,
      LeftInv-spent q r f g r2r above images limit (0 + room) room s (omega arith) v,
      λ x n c. elim c [ inl c0 ↦ absurd (ground arith) | inr c0 ↦ c0 ],
    )
    left_edges-Copy (e ∷ es) room s a all v = elim (Option-cases (lookup e q.rule.left.edges)) [
      | inl k ↦ absurd (ground arith)
      | inr (ed, k) ↦
          let spent = LeftInv-spent q r f g r2r above images limit in
          elim (Bool-cases (has_src q.inter e)) [
            | inl p ↦
                let (s', d, v', c) =
                  left_edges-Copy es room s (ground arith) all
                    (spent (suc (length es) + room) (length es + room) s (omega arith) v) in
                rw (left_edges, k, p)
                  (s', d, v', λ x n o. c x n (skipped q r f g r2r above images e x es s p n o))
            | inr p ↦
                let (s1, d1, v1, all1, c1) =
                  copy_left_edge-Copy e ed (length es + room) s k all
                    (spent (suc (length es) + room) (suc (length es + room)) s (omega arith) v) in
                let (s', d, v', c) = left_edges-Copy es room s1 (ground arith) all1 v1 in
                rw (left_edges, k, p, d1)
                  (
                    s',
                    d,
                    v',
                    λ x n o. c x n (elim o [
                      | inl o0 ↦ elim (Bool-cases (e == x)) [
                        | inl t ↦ inr (c1 x n (inl (ground (arith, t))))
                        | inr t ↦ inl (ground (arith, t))
                      ]
                      | inr o0 ↦ inr (c1 x n (inr o0))
                    ]),
                  )
          ]
    ]
