-- ===== src/Graphs/AnonRule/Backward.antt =====
-- isBackApplicable.
use uncover.Base.{
  ℕ, ◌≡◌, ◌↔◌, refl, List, [], ◌∷◌, Bool, true, false, ◌||◌, none, some, arith, length, keys,
  contains-keys, all_of, all_of-contains, all_of-intro, contains, insert_id, contains-insert_id,
  contains-single, contains-other, IsOrdered, ltb, ◌==◌, if◌then◌else◌, Bool-cases, Option-cases,
  inl, inr,
}
use uncover.Graphs.Hypergraph.{Hypergraph, ok, has_vertex, edges_at}
use uncover.Graphs.Mapping.{Mapping, has_src, has_tar, get_tar, inverse}
use uncover.Graphs.Mapping.Inverse.{
  sends, all_of-inverse, lookup-inverse, lookup-inverse-IsDistinct, inverse-found,
}
use uncover.Graphs.AnonRule.{
  AnonRule, targets_into, targets, dangling_free, identifies_old, is_back_applicable,
}

contains-targets_into :
    (m : Mapping) (ids : List ℕ) (i : ℕ)
    → contains i (targets_into m ids) ≡ (has_tar m i || contains i ids)
unfolding targets_into
contains-targets_into [] ids i = refl
contains-targets_into ((s, t) ∷ m) ids i =
    ground (arith, contains-targets_into m (insert_id t ids) i, contains-insert_id t i ids)

contains-targets : (m : Mapping) (i : ℕ) → contains i (targets m) ≡ has_tar m i
unfolding targets
contains-targets m i = ground (arith, contains-targets_into m [] i)

-- No created vertex is matched to one with an edge that the match leaves out.
abbrev pub NoDangling : AnonRule → Hypergraph → Mapping → Type 0
NoDangling r graph match =
    (v x e : ℕ)
    → has_vertex r.right v ≡ true
    → has_tar r.interface v ≡ false
    → get_tar match v ≡ some x
    → contains e (edges_at graph.connected x) ≡ true
    → has_tar match e ≡ true

-- What the match identifies is not created by the rule.
abbrev pub IdentifiesOld : AnonRule → Mapping → Type 0
IdentifiesOld r match =
    (s s' t : ℕ)
    → sends match s t ≡ true
    → sends match s' t ≡ true
    → (s == s') ≡ false
    → has_tar r.interface s ≡ true

both :
    {P Q : Type 0} (a b : Bool)
    → (a ≡ true) ↔ P
    → (b ≡ true) ↔ Q
    → ((if a then b else false) ≡ true) ↔ (P × Q)
both true b (p, p') (q, q') = (λ h. (p refl, q h), λ (x, y). q' y)
both false b (p, p') (q, q') = (λ h. cc, λ (x, y). p' x)

module _ (rp gp : List ℕ) (graph : Hypergraph) (match : Mapping) where
  -- The test of one vertex of the right side.
  abbrev free_at : ℕ → Bool
  free_at v = if contains v rp then true else elim (get_tar match v) [
    | none ↦ true
    | some x ↦ all_of (λ e. contains e gp) (edges_at graph.connected x)
  ]

  dangling_free-all_of :
      (vs : List ℕ)
      → ((v : ℕ) → contains v vs ≡ true → contains v rp ≡ false → has_src match v ≡ true)
      → dangling_free rp gp graph match vs ≡ ok (all_of free_at vs)
  unfolding dangling_free
  dangling_free-all_of [] f = refl
  dangling_free-all_of (v ∷ vs) f =
      let rest : (x : ℕ) → contains x vs ≡ true → contains x rp ≡ false → has_src match x ≡ true =
        λ x c d. f x (ground arith) d in
      let defined : contains v rp ≡ false → has_src match v ≡ true = λ d. f v (ground arith) d in
      ground (arith, dangling_free-all_of vs rest, defined)

module _ (r : AnonRule) (graph : Hypergraph) (match : Mapping) where
  abbrev free : ℕ → Bool
  free = free_at (targets r.interface) (targets match) graph match

  free-NoDangling : all_of free (keys r.right.vertices) ≡ true ↔ NoDangling r graph match
  free-NoDangling = (
    λ h v x e hv created m c. ground (
      arith,
      all_of-contains free (keys r.right.vertices) v h,
      contains-keys v r.right.vertices,
      contains-targets r.interface v,
      contains-targets match e,
      all_of-contains (λ y. contains y (targets match)) (edges_at graph.connected x) e,
    ),
    λ f. all_of-intro free (keys r.right.vertices) (λ v c. elim (Option-cases (get_tar match v)) [
      | inl e ↦ ground (arith, e)
      | inr (x, e) ↦
          let held : (y : ℕ)
              → contains y (edges_at graph.connected x) ≡ true
              → has_tar r.interface v ≡ false
              → contains y (targets match) ≡ true =
            λ y d created.
              ground (arith, f v x y, contains-keys v r.right.vertices, contains-targets match y) in
          elim (Bool-cases (has_tar r.interface v)) [
            | inl old ↦ ground (arith, contains-targets r.interface v)
            | inr created ↦ ground (
              arith,
              e,
              all_of-intro (λ y. contains y (targets match)) (edges_at graph.connected x)
                  (λ y d. held y d created),
            )
          ]
    ]),
  )

  abbrev old_only : List ℕ → Bool
  old_only ss =
      if ltb 1 (length ss) then all_of (λ s. contains s (targets r.interface)) ss else true

  identifies-IdentifiesOld :
      IsOrdered match
      → (identifies_old (targets r.interface) (inverse match) ≡ true) ↔ IdentifiesOld r match
  identifies-IdentifiesOld o =
      let (to, from) = all_of-inverse old_only match in
      (
        λ h s s' t k k' ne.
            let (ss, found) = inverse-found match s t o k in
            ground (
              arith,
              to h t ss found,
              lookup-inverse match s t ss o found,
              lookup-inverse match s' t ss o found,
              contains-single s s' ss,
              all_of-contains (λ x. contains x (targets r.interface)) ss s,
              contains-targets r.interface s,
            ),
        λ f. from (λ t ss found. elim (Bool-cases (ltb 1 (length ss))) [
          | inr one ↦ rw one refl
          | inl many ↦
              let old : (s : ℕ) → contains s ss ≡ true → contains s (targets r.interface) ≡ true =
                λ s c.
                  let (s', c', ne) =
                    contains-other s ss (lookup-inverse-IsDistinct match t ss found) many c in
                  ground (
                    arith,
                    f s s' t,
                    lookup-inverse match s t ss o found,
                    lookup-inverse match s' t ss o found,
                    contains-targets r.interface s,
                  ) in
              rw many (all_of-intro (λ x. contains x (targets r.interface)) ss old)
        ]),
      )

  -- isBackApplicable returns if the match is defined on every created vertex, and answers true if
  -- and only if the dangling condition and the identification condition hold.
  pub is_back_applicable_lem :
      IsOrdered match
      → ((v : ℕ)
          → has_vertex r.right v ≡ true
          → has_tar r.interface v ≡ false
          → has_src match v ≡ true)
      → (b : Bool) × (is_back_applicable r graph match ≡ ok b)
        × ((b ≡ true) ↔ (NoDangling r graph match × IdentifiesOld r match))
  unfolding is_back_applicable
  is_back_applicable_lem o total =
      let defined : (v : ℕ)
          → contains v (keys r.right.vertices) ≡ true
          → contains v (targets r.interface) ≡ false
          → has_src match v ≡ true =
        λ v c d.
          total v (ground (arith, contains-keys v r.right.vertices))
            (ground (arith, contains-targets r.interface v)) in
      let returned =
        dangling_free-all_of (targets r.interface) (targets match) graph match
          (keys r.right.vertices) defined in
      (
        if all_of free (keys r.right.vertices)
            then identifies_old (targets r.interface) (inverse match)
            else false,
        rw returned refl,
        both (all_of free (keys r.right.vertices))
            (identifies_old (targets r.interface) (inverse match)) free-NoDangling
            (identifies-IdentifiesOld o),
      )
