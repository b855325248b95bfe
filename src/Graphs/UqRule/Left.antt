-- ===== src/Graphs/UqRule/Left.antt =====
-- Step 3 of extendRuleByUQ, and what steps 3 and 4 keep.
use uncover.Base.{
  ℕ, suc, ◌+◌, ◌≤◌, ◌<◌, ◌^◌, ◌≡◌, ◌⊎◌, inl, inr, refl, List, [], ◌∷◌, true, false, some, arith,
  all_of, length, Option-cases, Bool-cases, contains, insert_id, ◌||◌, ◌==◌, ◌∙◌, lookup-insert,
}
use uncover.Graphs.Hypergraph.{Hypergraph, has_vertex, has_edge, add_vertex}
use uncover.Graphs.Mapping.{Mapping, get_tar, has_src, set_tar}
use uncover.Graphs.AnonRule.{AnonRule}
use uncover.Graphs.UqRule.{Quantification, LeftSide, map_copy, left_vertices}
use uncover.Graphs.UqRule.Growth.{
  Grown, Grown-trans, Grown-IsTyped, IsTyped, IsTyped-vertex, IsTyped-edge, IsTyped-set_tar,
  IsTyped-Grown, add_vertex-Adds,
}
use uncover.Graphs.UqRule.Right.{Fits}

pub has_src-set_tar :
    (m : Mapping) (s t x : ℕ) → has_src (set_tar m s t) x ≡ ((s == x) || has_src m x)
has_src-set_tar m s t x = ground (arith, lookup-insert s x t m)

pub map_copy-other :
    (q : Quantification) (r2r m : Mapping) (x i j : ℕ)
    → (i == j) ≡ false
    → get_tar (map_copy q r2r x i m) j ≡ get_tar m j
unfolding map_copy
map_copy-other q r2r m x i j n = elim (Option-cases (get_tar q.rule.interface x)) [
  | inl k ↦ rw (map_copy, k) refl
  | inr (y, k) ↦ elim (Option-cases (get_tar r2r y)) [
    | inl k' ↦ rw (map_copy, k, k') refl
    | inr (u, k') ↦ rw (map_copy, k, k') (ground (arith, lookup-insert i j u m))
  ]
]

-- The right side with its map stands as the first two steps have left it.
module _ (q : Quantification) (r : AnonRule) (f : Fits q r) (g : Hypergraph) (r2r : Mapping)
    (above : Grown r.right g) (images : IsTyped r2r q.rule.right g) where
  module _ (h : Hypergraph) (m : Mapping) (x i : ℕ) (typed : IsTyped m h g)
      (kind : ((has_vertex q.rule.left x ≡ true) × (has_vertex h i ≡ true))
        ⊎ ((has_edge q.rule.left x ≡ true) × (has_edge h i ≡ true))) where
    map_copy-IsTyped : IsTyped (map_copy q r2r x i m) h g
    unfolding map_copy
    map_copy-IsTyped = elim (Option-cases (get_tar q.rule.interface x)) [
      | inl k ↦ rw (map_copy, k) typed
      | inr (y, k) ↦ elim (Option-cases (get_tar r2r y)) [
        | inl k' ↦ rw (map_copy, k, k') typed
        | inr (u, k') ↦
            let same : ((has_vertex h i ≡ true) × (has_vertex g u ≡ true))
                ⊎ ((has_edge h i ≡ true) × (has_edge g u ≡ true)) =
              elim kind [
                | inl (p, p') ↦ inl (
                  p',
                  IsTyped-vertex r2r q.rule.right g y u images f.quant_right
                      (IsTyped-vertex q.rule.interface q.rule.left q.rule.right x y f.quant_map
                        f.quant_left p k)
                      k',
                )
                | inr (p, p') ↦ inr (
                  p',
                  IsTyped-edge r2r q.rule.right g y u images f.quant_right
                      (IsTyped-edge q.rule.interface q.rule.left q.rule.right x y f.quant_map
                        f.quant_left p k)
                      k',
                )
              ] in
            rw (map_copy, k, k') (IsTyped-set_tar m h g i u typed same)
      ]
    ]

  -- The state of the two loops, with room for that many more IDs below the limit.
  pub record LeftInv (limit room : ℕ) (s : LeftSide) : Type 0 where
    pub grows : Grown r.left s.graph
    pub typed : IsTyped s.map q.rule.left s.graph
    pub rule_typed : IsTyped s.rule_map s.graph g
    pub kept : (i : ℕ) → i ≤ r.left.last_used_id → get_tar s.rule_map i ≡ get_tar r.interface i
    pub defined : (x : ℕ) → has_src q.inter x ≡ true → has_src s.map x ≡ true
    pub fresh :
        (x i : ℕ) → has_src q.inter x ≡ false → get_tar s.map x ≡ some i → r.left.last_used_id < i
    pub distinct :
        (x y i : ℕ)
        → has_src q.inter x ≡ false
        → has_src q.inter y ≡ false
        → get_tar s.map x ≡ some i
        → get_tar s.map y ≡ some i
        → x ≡ y
    pub counted : s.graph.last_used_id + room ≤ limit

  pub LeftInv-spent :
      (limit room room' : ℕ) (s : LeftSide)
      → room' ≤ room
      → LeftInv limit room s
      → LeftInv limit room' s
  LeftInv-spent limit room room' s l i = record {
    grows = i.grows;
    typed = i.typed;
    rule_typed = i.rule_typed;
    kept = i.kept;
    defined = i.defined;
    fresh = i.fresh;
    distinct = i.distinct;
    counted = omega (arith, i.counted);
  }

  LeftInv-old :
      (limit room : ℕ) (s : LeftSide) (x i : ℕ)
      → LeftInv limit room s
      → get_tar s.map x ≡ some i
      → i ≤ s.graph.last_used_id
  LeftInv-old limit room s x i v k = elim (v.typed x i k) [
    | inl (_, there) ↦ v.grows.well_formed.vertex_old i there
    | inr (_, there) ↦ v.grows.well_formed.edge_old i there
  ]

  -- One element is added, as a copy of `x`.
  abbrev pub copied : ℕ → Hypergraph → ℕ → LeftSide → LeftSide
  copied x h i s = record {
    graph = h;
    map = set_tar s.map x i;
    rule_map = map_copy q r2r x i s.rule_map;
    gen = insert_id i s.gen;
  }

  copied-distinct :
      (limit room w i : ℕ) (s : LeftSide)
      → LeftInv limit room s
      → s.graph.last_used_id < i
      → (x y j : ℕ) → has_src q.inter x ≡ false
      → has_src q.inter y ≡ false
      → get_tar (set_tar s.map w i) x ≡ some j
      → get_tar (set_tar s.map w i) y ≡ some j
      → x ≡ y
  copied-distinct limit room w i s v new x y j n n' k k' = elim (Bool-cases (w == x)) [
    | inl p ↦ elim (Bool-cases (w == y)) [
      | inl p' ↦ ground (arith, p, p')
      | inr p' ↦
          let old =
            LeftInv-old limit room s y j v (ground (arith, p', lookup-insert w y i s.map)) in
          absurd (ground (arith, p, lookup-insert w x i s.map))
    ]
    | inr p ↦
        let before : get_tar s.map x ≡ some j = ground (arith, p, lookup-insert w x i s.map) in
        elim (Bool-cases (w == y)) [
          | inl p' ↦
              let old = LeftInv-old limit room s x j v before in
              absurd (ground (arith, p', lookup-insert w y i s.map))
          | inr p' ↦ v.distinct x y j n n' before (ground (arith, p', lookup-insert w y i s.map))
        ]
  ]

  pub copied-LeftInv :
      (limit room x i : ℕ) (h : Hypergraph) (s : LeftSide)
      → LeftInv limit (suc room) s
      → Grown s.graph h
      → h.last_used_id ≡ suc s.graph.last_used_id
      → s.graph.last_used_id < i
      → ((has_vertex q.rule.left x ≡ true) × (has_vertex h i ≡ true))
        ⊎ ((has_edge q.rule.left x ≡ true) × (has_edge h i ≡ true))
      → LeftInv limit room (copied x h i s)
  copied-LeftInv limit room x i h s v grown c new kind =
      let lifted = Grown-IsTyped s.rule_map s.graph g h grown v.rule_typed in
      record {
        grows = Grown-trans v.grows grown;
        typed =
            IsTyped-set_tar s.map q.rule.left h x i
              (IsTyped-Grown s.map q.rule.left s.graph h v.typed grown) kind;
        rule_typed = map_copy-IsTyped h s.rule_map x i lifted kind;
        kept = λ j k.
            map_copy-other q r2r s.rule_map x i j (ground (arith, v.grows.counts_up)) ∙ v.kept j k;
        defined = λ y k. ground (arith, has_src-set_tar s.map x i y, v.defined y k);
        fresh = λ y j n k. elim (Bool-cases (x == y)) [
          | inl p ↦ ground (arith, p, lookup-insert x y i s.map, v.grows.counts_up)
          | inr p ↦ v.fresh y j n (ground (arith, p, lookup-insert x y i s.map))
        ];
        distinct = copied-distinct limit (suc room) x i s v new;
        counted = omega (arith, v.counted);
      }

  -- The elements of the list have images under `l2l`, and no element has lost its own.
  abbrev pub Covers : List ℕ → LeftSide → LeftSide → Type 0
  Covers xs s s' = (x : ℕ) → (contains x xs || has_src s.map x) ≡ true → has_src s'.map x ≡ true

  module _ (limit : ℕ) (small : limit < 2 ^ 32) where
    pub left_vertices-LeftInv :
        (vs : List ℕ) (room : ℕ) (s : LeftSide)
        → all_of (has_vertex q.rule.left) vs ≡ true
        → LeftInv limit (length vs + room) s
        → LeftInv limit room (left_vertices q r2r vs s) × Covers vs s (left_vertices q r2r vs s)
    unfolding left_vertices
    left_vertices-LeftInv [] room s a v =
        (LeftInv-spent limit (0 + room) room s (omega arith) v, λ x k. k)
    left_vertices-LeftInv (w ∷ vs) room s a v = elim (Bool-cases (has_src q.inter w)) [
      | inl k ↦
          let less =
            LeftInv-spent limit (suc (length vs) + room) (length vs + room) s (omega arith) v in
          let (v', c) = left_vertices-LeftInv vs room s (ground arith) less in
          rw (left_vertices, k) (v', λ x k'. c x (ground (arith, v.defined w k)))
      | inr k ↦
          let (there, (grown, up, _, _, new)) =
            add_vertex-Adds s.graph v.grows.well_formed (omega (arith, v.counted)) in
          let (h, i) = add_vertex s.graph in
          let wide =
            LeftInv-spent limit (suc (length vs) + room) (suc (length vs + room)) s (omega arith)
              v in
          let next =
            copied-LeftInv limit (length vs + room) w i h s wide grown up new
              (inl (ground arith, there)) in
          let (v', c) = left_vertices-LeftInv vs room (copied w h i s) (ground arith) next in
          rw (left_vertices, k) (v', λ x k'. c x (ground (arith, has_src-set_tar s.map w i x)))
    ]
