-- ===== src/Graphs/UqRule/Marked.antt =====
-- The vertices that addQuantification marks.
use uncover.Base.{
  ◌++◌, ℕ, ◌≡◌, ◌↔◌, ◌⊎◌, inl, inr, refl, List, [], ◌∷◌, true, none, some, arith, contains,
  insert_id, contains-insert_id, keys, Option-cases, Bool-cases, ◌==◌, ==_iff, ap, ◌∙◌,
}
use uncover.Graphs.Mapping.{Mapping, get_tar}
use uncover.Graphs.UqRule.{Quantification, UqRule, mark_vertices, add_quantification}

-- A vertex of the list is sent to `t`, and on to `u` by the main rule.
abbrev pub Sent : Mapping → List ℕ → ℕ → Type 0
Sent inter vs t = (v : ℕ) × (contains v vs ≡ true) × (get_tar inter v ≡ some t)

abbrev pub SentOn : Mapping → Mapping → List ℕ → ℕ → Type 0
SentOn inter main vs u = (t : ℕ) × Sent inter vs t × (get_tar main t ≡ some u)

-- The set `rightUQVertices` after one vertex of the left side is marked.
abbrev marked_right : Mapping → ℕ → List ℕ → List ℕ
marked_right main t rs = elim (get_tar main t) [ none ↦ rs | some u ↦ insert_id u rs ]

module _ (inter main : Mapping) where
  mark_vertices-left :
      (vs ls rs : List ℕ) (t : ℕ)
      → (contains t (mark_vertices inter main vs ls rs).0 ≡ true)
        ↔ ((contains t ls ≡ true) ⊎ Sent inter vs t)
  unfolding mark_vertices
  mark_vertices-left [] ls rs t =
      (λ h. inl h, λ h. elim h [ inl k ↦ k | inr (v, c, _) ↦ absurd (ground arith) ])
  mark_vertices-left (w ∷ vs) ls rs t = elim (Option-cases (get_tar inter w)) [
    | inl k ↦
        let (p, q) = mark_vertices-left vs ls rs t in
        rw (mark_vertices, k)
          (
            λ h. elim (p h) [ inl a ↦ inl a | inr (v, c, e) ↦ inr (v, ground (arith, c), e) ],
            λ h. elim h [
              | inl a ↦ q (inl a)
              | inr (v, c, e) ↦ elim (Bool-cases (w == v)) [
                | inl same ↦ absurd (ground (arith, k, ap (get_tar inter) ((==_iff w v).0 same), e))
                | inr other ↦ q (inr (v, ground (arith, other), e))
              ]
            ],
          )
    | inr (t', k) ↦
        let (p, q) = mark_vertices-left vs (insert_id t' ls) (marked_right main t' rs) t in
        rw (mark_vertices, k)
          (
            λ h. elim (p h) [
              | inl a ↦ elim (Bool-cases (t' == t)) [
                | inl same ↦ inr (w, ground arith, k ∙ ap some ((==_iff t' t).0 same))
                | inr other ↦ inl (ground (arith, contains-insert_id t' t ls, other))
              ]
              | inr (v, c, e) ↦ inr (v, ground (arith, c), e)
            ],
            λ h. elim h [
              | inl a ↦ q (inl (ground (arith, contains-insert_id t' t ls)))
              | inr (v, c, e) ↦ elim (Bool-cases (w == v)) [
                | inl same ↦
                    let found : t' ≡ t =
                      ground (arith, k, ap (get_tar inter) ((==_iff w v).0 same), e) in
                    q (inl (ground (arith, contains-insert_id t' t ls, found)))
                | inr other ↦ q (inr (v, ground (arith, other), e))
              ]
            ],
          )
  ]

  marked_right_iff :
      (t : ℕ) (rs : List ℕ) (u : ℕ)
      → (contains u (marked_right main t rs) ≡ true)
        ↔ ((contains u rs ≡ true) ⊎ (get_tar main t ≡ some u))
  marked_right_iff t rs u = elim (Option-cases (get_tar main t)) [
    | inl k ↦ (
      λ h. inl (ground (arith, k)),
      λ h. elim h [ inl a ↦ ground (arith, k) | inr e ↦ absurd (ground (arith, k)) ],
    )
    | inr (u', k) ↦ (
      λ h. elim (Bool-cases (u' == u)) [
        | inl same ↦ inr (k ∙ ap some ((==_iff u' u).0 same))
        | inr other ↦ inl (ground (arith, k, contains-insert_id u' u rs, other))
      ],
      λ h. elim h [
        | inl a ↦ ground (arith, k, contains-insert_id u' u rs)
        | inr e ↦
            let same : u' ≡ u = ground (arith, k) in
            ground (arith, k, contains-insert_id u' u rs, same)
      ],
    )
  ]

  mark_vertices-right :
      (vs ls rs : List ℕ) (u : ℕ)
      → (contains u (mark_vertices inter main vs ls rs).1 ≡ true)
        ↔ ((contains u rs ≡ true) ⊎ SentOn inter main vs u)
  unfolding mark_vertices
  mark_vertices-right [] ls rs u =
      (λ h. inl h, λ h. elim h [ inl k ↦ k | inr (t, (v, c, _), _) ↦ absurd (ground arith) ])
  mark_vertices-right (w ∷ vs) ls rs u = elim (Option-cases (get_tar inter w)) [
    | inl k ↦
        let (p, q) = mark_vertices-right vs ls rs u in
        rw (mark_vertices, k)
          (
            λ h. elim (p h) [
              | inl a ↦ inl a
              | inr (t, (v, c, e), m) ↦ inr (t, (v, ground (arith, c), e), m)
            ],
            λ h. elim h [
              | inl a ↦ q (inl a)
              | inr (t, (v, c, e), m) ↦ elim (Bool-cases (w == v)) [
                | inl same ↦ absurd (ground (arith, k, ap (get_tar inter) ((==_iff w v).0 same), e))
                | inr other ↦ q (inr (t, (v, ground (arith, other), e), m))
              ]
            ],
          )
    | inr (t', k) ↦
        let (p, q) = mark_vertices-right vs (insert_id t' ls) (marked_right main t' rs) u in
        let (p', q') = marked_right_iff t' rs u in
        rw (mark_vertices, k)
          (
            λ h. elim (p h) [
              | inl a ↦ elim (p' a) [ inl b ↦ inl b | inr m ↦ inr (t', (w, ground arith, k), m) ]
              | inr (t, (v, c, e), m) ↦ inr (t, (v, ground (arith, c), e), m)
            ],
            λ h. elim h [
              | inl a ↦ q (inl (q' (inl a)))
              | inr (t, (v, c, e), m) ↦ elim (Bool-cases (w == v)) [
                | inl same ↦
                    let found : t' ≡ t =
                      ground (arith, k, ap (get_tar inter) ((==_iff w v).0 same), e) in
                    q (inl (q' (inr (ap (get_tar main) found ∙ m))))
                | inr other ↦ q (inr (t, (v, ground (arith, other), e), m))
              ]
            ],
          )
  ]

-- addQuantification adds the quantification at the end. It marks, next to what is marked already,
-- exactly the vertices of the left side of the main rule that a left vertex of the quantification
-- is sent to, and on the right side the images of these.
pub add_quantification_lem :
    (r : UqRule) (q : Quantification) (i : ℕ)
    → let r' = add_quantification r q in
      let vs = keys q.rule.left.vertices in
      (r'.quantifications ≡ r.quantifications ++ q ∷ [])
      × ((contains i r'.left_uq ≡ true) ↔ ((contains i r.left_uq ≡ true) ⊎ Sent q.inter vs i))
      × ((contains i r'.right_uq ≡ true)
          ↔ ((contains i r.right_uq ≡ true) ⊎ SentOn q.inter r.main_rule.interface vs i))
unfolding add_quantification
add_quantification_lem r q i =
    let vs = keys q.rule.left.vertices in
    let main = r.main_rule.interface in
    (
      refl,
      mark_vertices-left q.inter main vs r.left_uq r.right_uq i,
      mark_vertices-right q.inter main vs r.left_uq r.right_uq i,
    )
