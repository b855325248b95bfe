-- ===== src/Graphs/UqRule/Instance.antt =====
-- The operations of UQRuleInstance.cpp that an instance does not take from its rule.
use uncover.Base.{
  ℕ, List, [], ◌∷◌, Bool, true, false, not, ◌&&◌, Option, none, some, ◌==◌, select, contains,
  erase_id, contains-erase_id, contains-select, if◌then◌else◌, ◌≡◌, ◌↔◌, refl, arith, IsOrdered,
  inl, inr, Option-cases, Bool-cases, subst, ap, ◌∙◌, ==_iff, subst, ap, ◌∙◌, ==_iff,
}
use uncover.Graphs.Hypergraph.{Hypergraph, Result, ok, ◌>>=◌, has_vertex}
use uncover.Graphs.Hypergraph.Incidence.{IsWf}
use uncover.Graphs.Hypergraph.Queries.{conn_edges_count}
use uncover.Graphs.Mapping.{Mapping, get_tar, has_src, has_tar}
use uncover.Graphs.AnonRule.{is_back_applicable, fill_split_rule}
use uncover.Graphs.AnonRule.Backward.{NoDangling, IdentifiesOld, is_back_applicable_lem}
use uncover.Graphs.AnonRule.Fill.{SplitInto, fill_split_rule_lem}
use uncover.Graphs.UqRule.{UqRuleInstance}

-- `!=` on two counts, of which `none` is the -1 for a vertex that is not there.
abbrev pub same_count : Option ℕ → Option ℕ → Bool
same_count none none = true
same_count none (some b) = false
same_count (some a) none = false
same_count (some a) (some b) = a == b

-- The loop of isBackApplicable over `rightUQVertices`.
pub same_neighbours : Hypergraph → Hypergraph → Mapping → List ℕ → Bool
same_neighbours right graph match [] = true
same_neighbours right graph match (v ∷ vs) =
    let rest = same_neighbours right graph match vs in
    let compared : (ℕ → Bool) = λ x.
      if same_count (conn_edges_count right v) (conn_edges_count graph x) then rest else false in
    elim (get_tar match v) [ none ↦ false | some x ↦ compared x ]

pub is_back_applicable_instance : UqRuleInstance → Hypergraph → Mapping → Result Bool
unfolding same_neighbours
is_back_applicable_instance i graph match = do
  applicable ← is_back_applicable i.rule graph match
  ok (if applicable then same_neighbours i.rule.right graph match i.right_uq else false)

-- The two loops that erase the IDs that are no vertices of a graph.
pub erase_dead_ids : List ℕ → List ℕ → List ℕ
erase_dead_ids [] ids = ids
erase_dead_ids (d ∷ ds) ids = erase_dead_ids ds (erase_id d ids)

pub without_dead : Hypergraph → List ℕ → List ℕ
unfolding erase_dead_ids
without_dead h ids = erase_dead_ids (select (λ v. not (has_vertex h v)) ids) ids

-- fillSplitRule; the rules themselves are split as AnonRule does it.
pub fill_split_instance : UqRuleInstance → UqRuleInstance × UqRuleInstance
unfolding without_dead
fill_split_instance i =
    let (partial, total) = fill_split_rule i.rule in
    (
      record {
        rule = partial;
        left_uq = i.left_uq;
        right_uq = without_dead partial.right i.left_uq;
      },
      record { rule = total; left_uq = without_dead total.left i.left_uq; right_uq = i.right_uq },
    )

same_count_iff : (a b : Option ℕ) → (same_count a b ≡ true) ↔ (a ≡ b)
same_count_iff none none = ground arith
same_count_iff none (some b) = ground arith
same_count_iff (some a) none = ground arith
same_count_iff (some a) (some b) = ground arith

-- The match sends the vertex to one with as many edges.
abbrev pub SameNeighbours : Hypergraph → Hypergraph → Mapping → ℕ → Type 0
SameNeighbours right graph match v =
    (x : ℕ) × (get_tar match v ≡ some x) × (conn_edges_count right v ≡ conn_edges_count graph x)

module _ (right graph : Hypergraph) (match : Mapping) where
  same_neighbours-step :
      (w : ℕ) (ids : List ℕ)
      → (same_neighbours right graph match (w ∷ ids) ≡ true)
        ↔ (SameNeighbours right graph match w × (same_neighbours right graph match ids ≡ true))
  unfolding same_neighbours
  same_neighbours-step w ids = elim (Option-cases (get_tar match w)) [
    | inl k ↦ (λ h. absurd (ground (arith, k)), λ ((x, e, _), _). absurd (ground (arith, k)))
    | inr (x, k) ↦
        let (p, q) = same_count_iff (conn_edges_count right w) (conn_edges_count graph x) in
        (
          λ h. ((x, k, p (ground (arith, k))), ground (arith, k)),
          λ ((x', e, s), rest).
              let same : x' ≡ x = ground (arith, k) in
              let counted = q (s ∙ ap (conn_edges_count graph) same) in ground (arith, k, counted),
        )
  ]

  same_neighbours_iff :
      (ids : List ℕ)
      → (same_neighbours right graph match ids ≡ true)
        ↔ ((v : ℕ) → contains v ids ≡ true → SameNeighbours right graph match v)
  unfolding same_neighbours
  same_neighbours_iff [] = (λ h v k. cc, λ h. refl)
  same_neighbours_iff (w ∷ ids) =
      let (p, q) = same_neighbours_iff ids in
      let (p', q') = same_neighbours-step w ids in
      (
        λ h v c. elim (Bool-cases (w == v)) [
          | inl e ↦ subst (SameNeighbours right graph match) ((==_iff w v).0 e) (p' h).0
          | inr e ↦ p (p' h).1 v (ground (arith, e))
        ],
        λ h. q' (h w (ground arith), q (λ v c. h v (ground arith))),
      )

contains-erase_dead_ids :
    (v : ℕ) (ds ids : List ℕ)
    → contains v (erase_dead_ids ds ids) ≡ (not (contains v ds) && contains v ids)
unfolding erase_dead_ids
contains-erase_dead_ids v [] ids = ground arith
contains-erase_dead_ids v (d ∷ ds) ids =
    ground (arith, contains-erase_dead_ids v ds (erase_id d ids), contains-erase_id d v ids)

contains-without_dead :
    (h : Hypergraph) (v : ℕ) (ids : List ℕ)
    → contains v (without_dead h ids) ≡ (has_vertex h v && contains v ids)
unfolding without_dead
contains-without_dead h v ids = ground (
  arith,
  contains-erase_dead_ids v (select (λ x. not (has_vertex h x)) ids) ids,
  contains-select (λ x. not (has_vertex h x)) ids v,
)

-- While the match is defined on every created vertex of the right side, isBackApplicable of an
-- instance returns, and answers true if and only if the rule is applicable backwards and the match
-- sends each vertex that is marked as quantified to a vertex with as many edges.
pub is_back_applicable_instance_lem :
    (i : UqRuleInstance) (graph : Hypergraph) (match : Mapping)
    → IsOrdered match
    → ((v : ℕ)
        → has_vertex i.rule.right v ≡ true
        → has_tar i.rule.interface v ≡ false
        → has_src match v ≡ true)
    → (b : Bool) × (is_back_applicable_instance i graph match ≡ ok b)
      × ((b ≡ true) ↔ (
          NoDangling i.rule graph match
          × IdentifiesOld i.rule match
          × ((v : ℕ) → contains v i.right_uq ≡ true → SameNeighbours i.rule.right graph match v)))
unfolding is_back_applicable_instance
is_back_applicable_instance_lem i graph match o total =
    let (b, e, (p, q)) = is_back_applicable_lem i.rule graph match o total in
    let (p', q') = same_neighbours_iff i.rule.right graph match i.right_uq in
    let answer = if b then same_neighbours i.rule.right graph match i.right_uq else false in
    let forward : answer ≡ true
        → (b ≡ true) × (same_neighbours i.rule.right graph match i.right_uq ≡ true) =
      λ h. ground arith in
    rw e (
      answer,
      refl,
      (
        λ h. let (k, k') = forward h in let (x, y) = p k in (x, y, p' k'),
        λ (x, y, z). ground (arith, q (x, y), q' z),
      ),
    )

-- fillSplitRule of an instance splits the rule as that of a rule with a well-formed left side, and
-- marks in the middle, on both sides alike, the marked vertices of the left side that the rule
-- maps; the outer sides keep their marks.
pub fill_split_instance_lem :
    (i : UqRuleInstance)
    → IsWf i.rule.left
    → let (p, t) = fill_split_instance i in
      SplitInto i.rule p.rule t.rule
      × (p.left_uq ≡ i.left_uq)
      × (t.right_uq ≡ i.right_uq)
      × (t.left_uq ≡ p.right_uq)
      × ((v : ℕ)
          → contains v p.right_uq
            ≡ (has_vertex i.rule.left v && has_src i.rule.interface v && contains v i.left_uq))
unfolding fill_split_instance
fill_split_instance_lem i w =
    let (p, t) = fill_split_rule i.rule in
    let split = fill_split_rule_lem i.rule w in
    (
      split,
      refl,
      refl,
      ap (λ h. without_dead h i.left_uq) split.middle,
      λ v. ground (arith, contains-without_dead p.right v i.left_uq, split.vertices v),
    )
