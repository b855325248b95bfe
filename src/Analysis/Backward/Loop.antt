-- ===== src/Analysis/Backward/Loop.antt =====
-- The loops around applyOne: over the enumerator, the rules, and the graphs of one round.
use uncover.Base.{ℕ, zero, suc, ◌≤◌, ◌≡◌, ◌⊎◌, inl, inr, true, false, arith, Bool-cases, subst, sym}
use uncover.Graphs.MinGraphList.Spec.{covers}
use uncover.Analysis.Backward.{Parts, Run, Flow, going, ◌>>=◌, deliver, apply_loop}
use uncover.Analysis.Backward.Laws.{
  OrderLaws, Delivers, here, later, EnumeratorLaws, Valid, Stop, Missed, After,
}
use uncover.Analysis.Backward.Step.{
  After-bind, Grows-refl, Grows-trans, Grows-map, Stop-trans, Went, deliver_lem, After-map,
}

module _ {G R E : Type 0} (p : Parts G R E) where
  Delivers-cases :
      (e : E) (g : G)
      → Delivers p e g
      → (p.ended e ≡ false) × ((g ≡ p.current e) ⊎ Delivers p (p.next e) g)
  Delivers-cases e g (here open_e eq) = (open_e, inl eq)
  Delivers-cases e g (later open_e d) = (open_e, inr d)

  apply_loop_ended :
      (fuel : ℕ) (s : Run G E) → p.ended s.poc ≡ true → apply_loop p (suc fuel) s ≡ going s
  unfolding apply_loop
  apply_loop_ended fuel s e = rw (e, apply_loop)

  apply_loop_step :
      (fuel : ℕ) (s : Run G E)
      → p.ended s.poc ≡ false
      → apply_loop p (suc fuel) s ≡ (deliver p s (p.current s.poc) >>= apply_loop p fuel)
  unfolding apply_loop
  apply_loop_step fuel s e = rw (e, apply_loop)

module _ {G R E : Type 0} (p : Parts G R E) (order : OrderLaws p) (issued : E → ℕ)
    (enumerator : EnumeratorLaws p issued) where
  abbrev pub Passed : (G → Type 0) → Run G E → Run G E → Type 0
  Passed Q s t = Went p order issued enumerator Q s t

  pub Passed-refl : (Q : G → Type 0) (s : Run G E) → Valid p issued s → Passed Q s s
  Passed-refl Q s v = (v, Grows-refl p (λ x. Q x × Missed p x) s)

  pub Passed-trans :
      (Q Q' Q'' : G → Type 0) (s t u : Run G E)
      → ((x : G) → Q x → Q'' x)
      → ((x : G) → Q' x → Q'' x)
      → Passed Q s t
      → Passed Q' t u
      → Passed Q'' s u
  Passed-trans Q Q' Q'' s t u f f' a b = (
    b.0,
    Grows-trans p (λ x. Q'' x × Missed p x) s t u
        (Grows-map p (λ x. Q x × Missed p x) (λ x. Q'' x × Missed p x) s t (λ x q. (f x q.0, q.1))
          a.1)
        (Grows-map p (λ x. Q' x × Missed p x) (λ x. Q'' x × Missed p x) t u (λ x q. (f' x q.0, q.1))
          b.1),
  )

  pub Stop-map :
      (Q Q' : G → Type 0) (s u : Run G E) → ((x : G) → Q x → Q' x) → Stop p Q s u → Stop p Q' s u
  Stop-map Q Q' s u f b = record {
    minimal = b.minimal;
    grows = Grows-map p Q Q' s u f b.grows;
    reason = b.reason;
  }

  pub Passed-Stop :
      (Q Q' Q'' : G → Type 0) (s t u : Run G E)
      → ((x : G) → Q x → Q'' x)
      → ((x : G) → Q' x → Q'' x)
      → Passed Q s t
      → Stop p Q' t u
      → Stop p Q'' s u
  Passed-Stop Q Q' Q'' s t u f f' a b =
      Stop-trans p (λ x. Q x × Missed p x) Q'' s t u (λ x q. f x q.0) a.1 (Stop-map Q' Q'' t u f' b)

  less :
      (fuel : ℕ) (s t : Run G E)
      → p.left s.poc ≤ suc fuel
      → p.ended s.poc ≡ false
      → t.poc ≡ p.next s.poc
      → p.left t.poc ≤ fuel
  less fuel s t b e eq = rw eq (omega (arith, enumerator.left-next s.poc e))

  -- What the loop of applyOne achieves when it goes on and when it stops.
  abbrev pub Enumerated : Run G E → Flow G E → Type 0
  Enumerated s =
      After p
        (λ t.
          Passed (Delivers p s.poc) s t
          × ((h : G) → Delivers p s.poc h → covers p.leq t.min.graphs h ≡ true))
        (Stop p (Delivers p s.poc) s)

  -- One delivered graph, and then the loop from the next state of the enumerator.
  Enumerated-step :
      (s t : Run G E) (f : Flow G E)
      → p.ended s.poc ≡ false
      → Passed (λ x. x ≡ p.current s.poc) s t
      → covers p.leq t.min.graphs (p.current s.poc) ≡ true
      → t.poc ≡ p.next s.poc
      → Enumerated t f
      → Enumerated s f
  Enumerated-step s t f e a c eq =
      let Q = λ (x : G). x ≡ p.current s.poc in
      let first : (x : G) → x ≡ p.current s.poc → Delivers p s.poc x = λ x q. here e q in
      let rest : (x : G) → Delivers p t.poc x → Delivers p s.poc x =
        λ x d. later e (subst (λ k. Delivers p k x) eq d) in
      λ h.
        After-map p _ _ (Stop p (Delivers p t.poc) t) (Stop p (Delivers p s.poc) s) f h
          (λ u b. (
            Passed-trans Q (Delivers p t.poc) (Delivers p s.poc) s t u first rest a b.0,
            λ k d. elim ((Delivers-cases p s.poc k d).1) [
              | inl q ↦ rw q (b.0.1.covered (p.current s.poc) c)
              | inr d' ↦ b.1 k (subst (λ k'. Delivers p k' k) (sym eq) d')
            ],
          ))
          (λ u b. Passed-Stop Q (Delivers p t.poc) (Delivers p s.poc) s t u first rest a b)

  -- The loop of applyOne ends before the fuel does, and everything delivered is covered then.
  pub apply_loop_lem :
      (fuel : ℕ) (s : Run G E)
      → p.left s.poc ≤ fuel
      → Valid p issued s
      → Enumerated s (apply_loop p fuel s)
  unfolding apply_loop
  apply_loop_lem zero s b v = elim (Bool-cases (p.ended s.poc)) [
    | inl e ↦
        rw e
          (Passed-refl (Delivers p s.poc) s v, λ h d. absurd (cc ((Delivers-cases p s.poc h d).0)))
    | inr e ↦ absurd (omega (arith, enumerator.left-next s.poc e))
  ]
  apply_loop_lem (suc fuel) s b v = elim (Bool-cases (p.ended s.poc)) [
    | inl e ↦
        rw (apply_loop_ended p fuel s e)
          (Passed-refl (Delivers p s.poc) s v, λ h d. absurd (cc ((Delivers-cases p s.poc h d).0)))
    | inr e ↦
        let g = p.current s.poc in
        rw (apply_loop_step p fuel s e) (
          After-bind p
            (λ t.
              Passed (λ x. x ≡ g) s t
              × (covers p.leq t.min.graphs g ≡ true)
              × (t.poc ≡ p.next s.poc))
            (λ t.
              Passed (Delivers p s.poc) s t
              × ((h : G) → Delivers p s.poc h → covers p.leq t.min.graphs h ≡ true))
            (Stop p (λ x. x ≡ g) s) (Stop p (Delivers p s.poc) s) (deliver p s g)
            (apply_loop p fuel) (deliver_lem p order issued enumerator s v e)
            (λ t h.
              Enumerated-step s t (apply_loop p fuel t) e h.0 h.1 h.2
                (apply_loop_lem fuel t (less fuel s t b e h.2) h.0.0))
            (λ t. Stop-map (λ x. x ≡ g) (Delivers p s.poc) s t (λ x eq. here e eq)))
  ]
