-- ===== src/Analysis/Backward/Rounds.antt =====
-- The loops over the rules and over the graphs of one round of the search.
use uncover.Base.{
  ℕ, ◌≡◌, refl, subst, List, [], ◌∷◌, ◌⊎◌, inl, inr, true, false, arith, In, Bool-cases, sym,
}
use native.Mathlib.Nat.{le_refl}
use uncover.Graphs.MinGraphList.Spec.{covers}
use uncover.Graphs.MinGraphList.Covers.{covers_trans}
use uncover.Graphs.MinGraphList.Ids.{has_id, has_id-member}
use uncover.Analysis.Backward.{
  Parts, Run, Flow, apply_one, apply_rules, process, rules_for, process_all,
}
use uncover.Analysis.Backward.Laws.{
  OrderLaws, Delivers, EnumeratorLaws, StepLaws, Valid, Grows, Stop, After, StepOf, StepFrom,
  ClosedBy,
}
use uncover.Analysis.Backward.Step.{After-bind, After-map, Grows-map}
use uncover.Analysis.Backward.Loop.{
  Passed, Passed-refl, Passed-trans, Stop-map, Passed-Stop, apply_loop_lem,
}

module _ {G R E : Type 0} (p : Parts G R E) where
  -- The enumerator's state does not matter for what a piece of the search adds.
  regrow_from :
      {Q : G → Type 0} (s : Run G E) (e : E) (t : Run G E)
      → Grows p Q (record s { poc = e }) t
      → Grows p Q s t
  regrow_from s e t a = record {
    covered = a.covered;
    stored = a.stored;
    kept = a.kept;
    origin = a.origin;
    gained = a.gained;
  }

module _ {G R E : Type 0} (p : Parts G R E) (order : OrderLaws p) (issued : E → ℕ)
    (enumerator : EnumeratorLaws p issued) (Pre : R → G → G → Type 0) (steps : StepLaws p Pre) where
  reset-Valid :
      (s : Run G E) (r : R) (g : G)
      → Valid p issued s
      → Valid p issued (record s { poc = p.reset_with s.poc r g })
  reset-Valid s r g v = record {
    minimal = v.minimal;
    indexed = v.indexed;
    below = λ i h. omega (arith, v.below i h, enumerator.issued-reset s.poc r g);
  }

  covered_by :
      (e : E) (r : R) (g h : G) (t : Run G E)
      → Pre r g h
      → ((k : G) → Delivers p (p.reset_with e r g) k → covers p.leq t.min.graphs k ≡ true)
      → covers p.leq t.min.graphs h ≡ true
  covered_by e r g h t pre c =
      let (k, d, below) = steps.complete e r g h pre in
      covers_trans p.leq p.get_id order.trans k h t.min.graphs (c k d) below

  not_stored :
      (s : Run G E) (g : G)
      → Valid p issued s
      → has_id p.get_id s.min (p.get_id g) ≡ false
      → In g s.min.graphs
      → ⊥
  not_stored s g v gone i = cc (has_id-member p.get_id s.min g v.indexed i)

  pub apply_one_lem :
      (s : Run G E) (r : R) (g : G)
      → Valid p issued s
      → let s' = record s { poc = p.reset_with s.poc r g } in
        After p
          (λ t.
            Passed p order issued enumerator (Pre r g) s t
            × ((h : G) → Pre r g h → covers p.leq t.min.graphs h ≡ true))
          (Stop p (Pre r g) s)
          (apply_one p s')
  unfolding apply_one
  apply_one_lem s r g v =
      let e = p.reset_with s.poc r g in
      let s' = record s { poc = e } in
      After-map p _ _ (Stop p (Delivers p e) s') (Stop p (Pre r g) s) (apply_one p s')
        (apply_loop_lem p order issued enumerator (p.left e) s' (le_refl (p.left e))
          (reset-Valid s r g v))
        (λ t b. (
          (
            b.0.0,
            regrow_from p s e t
                (Grows-map p _ _ s' t (λ x q. (steps.sound s.poc r g x q.0, q.1)) b.0.1),
          ),
          λ h pre. covered_by s.poc r g h t pre b.1,
        ))
        (λ t b. record {
          minimal = b.minimal;
          grows = regrow_from p s e t (Grows-map p _ _ s' t (steps.sound s.poc r g) b.grows);
          reason = b.reason;
        })

  -- What the loop over the rules achieves for the graph `g`.
  abbrev Applied : List R → G → Run G E → Flow G E → Type 0
  Applied rs g s =
      After p
        (λ t.
          Passed p order issued enumerator (StepOf p Pre rs g) s t
          × ClosedBy p Pre rs g t.min.graphs)
        (Stop p (StepOf p Pre rs g) s)

  Applied-step :
      (r : R) (rs : List R) (g : G) (s t : Run G E) (f : Flow G E)
      → Passed p order issued enumerator (Pre r g) s t
      → ((h : G) → Pre r g h → covers p.leq t.min.graphs h ≡ true)
      → Applied rs g t f
      → Applied (r ∷ rs) g s f
  Applied-step r rs g s t f a c h =
      let first : (x : G) → Pre r g x → StepOf p Pre (r ∷ rs) g x = λ x q. (r, inl refl, q) in
      let rest : (x : G) → StepOf p Pre rs g x → StepOf p Pre (r ∷ rs) g x =
        λ x q. (q.0, inr q.1, q.2) in
      After-map p _ _ (Stop p (StepOf p Pre rs g) t) (Stop p (StepOf p Pre (r ∷ rs) g) s) f h
        (λ u b. (
          Passed-trans p order issued enumerator (Pre r g) (StepOf p Pre rs g)
              (StepOf p Pre (r ∷ rs) g) s t u first rest a b.0,
          λ r' x i pre. elim i [
            | inl q ↦ b.0.1.covered x (c x (subst (λ k. Pre k g x) q pre))
            | inr i' ↦ b.1 r' x i' pre
          ],
        ))
        (λ u b.
          Passed-Stop p order issued enumerator (Pre r g) (StepOf p Pre rs g)
            (StepOf p Pre (r ∷ rs) g) s t u first rest a b)

  apply_rules_lem :
      (rs : List R) (g : G) (s : Run G E) → Valid p issued s → Applied rs g s (apply_rules p rs g s)
  unfolding apply_rules
  apply_rules_lem [] g s v =
      (Passed-refl p order issued enumerator (StepOf p Pre [] g) s v, λ r h i pre. absurd i)
  apply_rules_lem (r ∷ rs) g s v =
      After-bind p _ _ (Stop p (Pre r g) s) (Stop p (StepOf p Pre (r ∷ rs) g) s) _
        (apply_rules p rs g) (apply_one_lem s r g v)
        (λ t a. Applied-step r rs g s t _ a.0 a.1 (apply_rules_lem rs g t a.0.0))
        (λ t.
          Stop-map p order issued enumerator (Pre r g) (StepOf p Pre (r ∷ rs) g) s t
            (λ x q. (r, inl refl, q)))

  abbrev pub Closed : G → Run G E → Type 0
  Closed g t = ClosedBy p Pre (rules_for p g) g t.min.graphs

  -- A graph that `minimalGraphs` no longer contains is skipped; all rules are applied to any other.
  pub process_lem :
      (g : G) (s : Run G E)
      → Valid p issued s
      → After p
          (λ t.
            Passed p order issued enumerator (StepOf p Pre (rules_for p g) g) s t
            × (In g t.min.graphs → In g t.new ⊎ Closed g t))
          (Stop p (StepOf p Pre (rules_for p g) g) s)
          (process p g s)
  unfolding process
  process_lem g s v = elim (Bool-cases (has_id p.get_id s.min (p.get_id g))) [
    | inl listed ↦ rw listed (
        After-map p
          (λ t. Passed p order issued enumerator (StepOf p Pre (rules_for p g) g) s t × Closed g t)
          (λ t.
            Passed p order issued enumerator (StepOf p Pre (rules_for p g) g) s t
            × (In g t.min.graphs → In g t.new ⊎ Closed g t))
          (Stop p (StepOf p Pre (rules_for p g) g) s) (Stop p (StepOf p Pre (rules_for p g) g) s)
          (apply_rules p (rules_for p g) g s) (apply_rules_lem (rules_for p g) g s v)
          (λ t a. (a.0, λ _. inr a.1)) (λ t b. b))
    | inr gone ↦ rw gone (
      Passed-refl p order issued enumerator (StepOf p Pre (rules_for p g) g) s v,
      λ i. absurd (not_stored s g v gone i),
    )
  ]

  -- What one round achieves: of the graphs that it was given, those that are still stored are new
  -- once more, or all their predecessors are covered.
  abbrev pub Processed : List G → Run G E → Flow G E → Type 0
  Processed gs s =
      After p
        (λ t.
          Passed p order issued enumerator (StepFrom p Pre gs) s t
          × ((x : G) → In x gs → In x t.min.graphs → In x t.new ⊎ Closed x t))
        (Stop p (StepFrom p Pre gs) s)

  pub Closed-kept :
      (Q : G → Type 0) (x : G) (t u : Run G E) → Grows p Q t u → Closed x t → Closed x u
  Closed-kept Q x t u a c r h i pre = a.covered h (c r h i pre)

  -- A graph that was settled behind its own turn is settled at the end of the round.
  later_too :
      {Q : G → Type 0} (g x : G) (t u : Run G E)
      → x ≡ g
      → (In g t.min.graphs → In g t.new ⊎ Closed g t)
      → Grows p Q t u
      → In x u.min.graphs
      → In x u.new ⊎ Closed x u
  later_too {Q} g x t u q c a stored = elim (a.stored x stored) [
    | inl before ↦ elim (c (subst (λ k. In k t.min.graphs) q before)) [
      | inl new ↦ inl (a.kept x (subst (λ k. In k t.new) (sym q) new))
      | inr closed ↦ inr (subst (λ k. Closed k u) (sym q) (Closed-kept Q g t u a closed))
    ]
    | inr new ↦ inl new
  ]

  Processed-step :
      (g : G) (gs : List G) (s t : Run G E) (f : Flow G E)
      → Passed p order issued enumerator (StepOf p Pre (rules_for p g) g) s t
      → (In g t.min.graphs → In g t.new ⊎ Closed g t)
      → Processed gs t f
      → Processed (g ∷ gs) s f
  Processed-step g gs s t f a c h =
      let first : (x : G) → StepOf p Pre (rules_for p g) g x → StepFrom p Pre (g ∷ gs) x =
        λ x q. (g, inl refl, q) in
      let rest : (x : G) → StepFrom p Pre gs x → StepFrom p Pre (g ∷ gs) x =
        λ x q. (q.0, inr q.1, q.2) in
      After-map p
        (λ u.
          Passed p order issued enumerator (StepFrom p Pre gs) t u
          × ((x : G) → In x gs → In x u.min.graphs → In x u.new ⊎ Closed x u))
        (λ u.
          Passed p order issued enumerator (StepFrom p Pre (g ∷ gs)) s u
          × ((x : G) → In x (g ∷ gs) → In x u.min.graphs → In x u.new ⊎ Closed x u))
        (Stop p (StepFrom p Pre gs) t) (Stop p (StepFrom p Pre (g ∷ gs)) s) f h
        (λ u b. (
          Passed-trans p order issued enumerator (StepOf p Pre (rules_for p g) g)
              (StepFrom p Pre gs) (StepFrom p Pre (g ∷ gs)) s t u first rest a b.0,
          λ x i stored. elim i [
            | inl q ↦ later_too g x t u q c b.0.1 stored
            | inr i' ↦ b.1 x i' stored
          ],
        ))
        (λ u b.
          Passed-Stop p order issued enumerator (StepOf p Pre (rules_for p g) g) (StepFrom p Pre gs)
            (StepFrom p Pre (g ∷ gs)) s t u first rest a b)

  pub process_all_lem :
      (gs : List G) (s : Run G E) → Valid p issued s → Processed gs s (process_all p gs s)
  unfolding process_all
  process_all_lem [] s v =
      (Passed-refl p order issued enumerator (StepFrom p Pre []) s v, λ x i stored. absurd i)
  process_all_lem (g ∷ gs) s v =
      After-bind p
        (λ t.
          Passed p order issued enumerator (StepOf p Pre (rules_for p g) g) s t
          × (In g t.min.graphs → In g t.new ⊎ Closed g t))
        (λ u.
          Passed p order issued enumerator (StepFrom p Pre (g ∷ gs)) s u
          × ((x : G) → In x (g ∷ gs) → In x u.min.graphs → In x u.new ⊎ Closed x u))
        (Stop p (StepOf p Pre (rules_for p g) g) s) (Stop p (StepFrom p Pre (g ∷ gs)) s)
        (process p g s) (process_all p gs) (process_lem g s v)
        (λ t a. Processed-step g gs s t (process_all p gs t) a.0 a.1 (process_all_lem gs t a.0.0))
        (λ t.
          Stop-map p order issued enumerator (StepOf p Pre (rules_for p g) g)
            (StepFrom p Pre (g ∷ gs)) s t (λ x q. (g, inl refl, q)))
