-- ===== src/Analysis/Backward/Step.antt =====
-- applyOne and the loops around it: what one graph of `todoGraphs` contributes.
use uncover.Base.{some_of-cases, ℕ, ◌+◌, ◌≡◌, refl, inl, inr, true, false, arith, In, Bool-cases}
use uncover.Graphs.MinGraphList.{add_graph}
use uncover.Graphs.MinGraphList.Spec.{add_graph_lem, covers, IsMinimal}
use uncover.Graphs.MinGraphList.Covers.{
  covers-add_graph, add_graph-IsMinimal, add_graph-In, add_graph-added,
}
use uncover.Graphs.MinGraphList.Ids.{has_id, add_graph-IsIndexed, add_graph-has_id}
use uncover.Analysis.Backward.{
  Parts, Run, Flow, going, stopped, out_of_fuel, ◌>>=◌, offer, hits_initial, deliver,
  covers_initial,
}
use uncover.Analysis.Backward.Laws.{OrderLaws, EnumeratorLaws, Valid, Grows, Stop, Missed, After}

module _ {G R E : Type 0} (p : Parts G R E) where
  -- Sequencing: a property of the first loop is handed to the second.
  pub After-bind :
      (P P' Q Q' : Run G E → Type 0) (f : Flow G E) (k : Run G E → Flow G E)
      → After p P Q f
      → ((t : Run G E) → P t → After p P' Q' (k t))
      → ((t : Run G E) → Q t → Q' t)
      → After p P' Q' (f >>= k)
  After-bind P P' Q Q' (going t) k h go stop = go t h
  After-bind P P' Q Q' (stopped t) k h go stop = stop t h
  After-bind P P' Q Q' out_of_fuel k h go stop = h

  pub After-map :
      (P P' Q Q' : Run G E → Type 0) (f : Flow G E)
      → After p P Q f
      → ((t : Run G E) → P t → P' t)
      → ((t : Run G E) → Q t → Q' t)
      → After p P' Q' f
  After-map P P' Q Q' (going t) h go stop = go t h
  After-map P P' Q Q' (stopped t) h go stop = stop t h
  After-map P P' Q Q' out_of_fuel h go stop = h

  pub Grows-refl : (Q : G → Type 0) (s : Run G E) → Grows p Q s s
  Grows-refl Q s = record {
    covered = λ x h. h;
    stored = λ x h. inl h;
    kept = λ x h. h;
    origin = λ x h. inl h;
    gained = λ x h. inl h;
  }

  pub Grows-trans :
      (Q : G → Type 0) (s t u : Run G E) → Grows p Q s t → Grows p Q t u → Grows p Q s u
  Grows-trans Q s t u a b = record {
    covered = λ x h. b.covered x (a.covered x h);
    stored = λ x h. ground (arith, a.stored x, b.stored x h, b.kept x);
    kept = λ x h. b.kept x (a.kept x h);
    origin = λ x h. ground (arith, a.origin x, b.origin x h);
    gained = λ x h. ground (arith, a.gained x, b.gained x h, a.covered x, b.covered x);
  }

  pub Grows-map :
      (Q Q' : G → Type 0) (s t : Run G E) → ((x : G) → Q x → Q' x) → Grows p Q s t → Grows p Q' s t
  Grows-map Q Q' s t f a = record {
    covered = a.covered;
    stored = a.stored;
    kept = a.kept;
    origin = λ x h. ground (arith, a.origin x h, f x);
    gained = a.gained;
  }

  -- Where a piece stops behind another piece, the whole stops.
  pub Stop-trans :
      (Q Q' : G → Type 0) (s t u : Run G E)
      → ((x : G) → Q x → Q' x)
      → Grows p Q s t
      → Stop p Q' t u
      → Stop p Q' s u
  Stop-trans Q Q' s t u f a b = record {
    minimal = b.minimal;
    grows = Grows-trans Q' s t u (Grows-map Q Q' s t f a) b.grows;
    reason = b.reason;
  }

module _ {G R E : Type 0} (p : Parts G R E) (order : OrderLaws p) (issued : E → ℕ)
    (enumerator : EnumeratorLaws p issued) where
  offer-Grows :
      (s : Run G E) (g : G) → IsMinimal p.leq s.min.graphs → Grows p (λ x. x ≡ g) s (offer p s g)
  unfolding offer
  offer-Grows s g m = record {
    covered = λ x h. ground (arith, covers-add_graph p.leq p.get_id order.trans s.min g x);
    stored = λ x h.
        ground
          (arith, add_graph-In p.leq p.get_id s.min g x h, add_graph-added p.leq p.get_id s.min g);
    kept = λ x h. ground arith;
    origin = λ x h. ground arith;
    gained = λ x h. ground (
      arith,
      (add_graph_lem p.leq p.get_id order.trans s.min g m).added,
      covers-add_graph p.leq p.get_id order.trans s.min g g,
      order.refl g,
    );
  }

  offer-covers : (s : Run G E) (g : G) → covers p.leq (offer p s g).min.graphs g ≡ true
  unfolding offer
  offer-covers s g =
      ground (arith, covers-add_graph p.leq p.get_id order.trans s.min g g, order.refl g)

  -- A graph that the enumerator delivers has a new ID.
  fresh :
      (s : Run G E)
      → Valid p issued s
      → p.ended s.poc ≡ false
      → has_id p.get_id s.min (p.get_id (p.current s.poc)) ≡ false
  fresh s v e = elim (Bool-cases (has_id p.get_id s.min (p.get_id (p.current s.poc)))) [
    | inl h ↦ absurd (omega (arith, v.below _ h, enumerator.issued-current s.poc e))
    | inr h ↦ h
  ]

  -- The round of applyOne keeps the state valid.
  next-Valid :
      (s : Run G E) (n : ℕ)
      → Valid p issued s
      → p.ended s.poc ≡ false
      → Valid p issued (record (offer p s (p.current s.poc)) { ticks = n; poc = p.next s.poc })
  unfolding offer
  next-Valid s n v e =
      let g = p.current s.poc in
      record {
        minimal = add_graph-IsMinimal p.leq p.get_id order.trans s.min g v.minimal;
        indexed = add_graph-IsIndexed p.leq p.get_id s.min g v.indexed (fresh s v e);
        below = λ i h. elim (Bool-cases (has_id p.get_id s.min i)) [
          | inl old ↦ omega (
            arith,
            v.below i old,
            enumerator.issued-current s.poc e,
            enumerator.issued-next s.poc e,
          )
          | inr new ↦
              ground (
                arith,
                add_graph-has_id p.leq p.get_id s.min g i new,
                enumerator.issued-next s.poc e,
              )
        ];
      }

  regrow :
      (Q : G → Type 0) (s t : Run G E) (n : ℕ) (e : E)
      → Grows p Q s t
      → Grows p Q s (record t { ticks = n; poc = e })
  regrow Q s t n e a = record {
    covered = a.covered;
    stored = a.stored;
    kept = a.kept;
    origin = a.origin;
    gained = a.gained;
  }

  -- Where no initial graph was hit, a stored graph lies below none of them.
  offer-Missed :
      (s : Run G E) (g : G)
      → IsMinimal p.leq s.min.graphs
      → hits_initial p s g ≡ false
      → Grows p (λ x. (x ≡ g) × Missed p x) s (offer p s g)
  unfolding offer hits_initial
  offer-Missed s g m miss =
      let a = offer-Grows s g m in
      record {
        covered = a.covered;
        stored = a.stored;
        kept = a.kept;
        origin = λ x h. elim (Bool-cases (add_graph p.leq p.get_id s.min g).added) [
          | inl yes_added ↦ elim (a.origin x h) [
            | inl old ↦ inl old
            | inr e ↦ inr (e, rw e (ground arith))
          ]
          | inr not_added ↦ inl (rw not_added at h)
        ];
        gained = a.gained;
      }

  hit-Reason :
      (s : Run G E) (g : G)
      → hits_initial p s g ≡ true
      → (p.check_initial ≡ true)
        × ((h : G) × (i : G) × In h (offer p s g).min.graphs
            × In i p.initial_graphs
            × (p.leq h i ≡ true))
  unfolding offer hits_initial covers_initial
  hit-Reason s g hit =
      let (i, there, le) = some_of-cases (λ i. p.leq g i) p.initial_graphs (ground arith) in
      (ground arith, (g, i, add_graph-added p.leq p.get_id s.min g (ground arith), there, le))

  add_min : (s : Run G E) (g : G) → Valid p issued s → IsMinimal p.leq (offer p s g).min.graphs
  unfolding offer
  add_min s g v = add_graph-IsMinimal p.leq p.get_id order.trans s.min g v.minimal

  abbrev pub Went : (G → Type 0) → Run G E → Run G E → Type 0
  Went Q s t = Valid p issued t × Grows p (λ x. Q x × Missed p x) s t

  pub deliver_lem :
      (s : Run G E)
      → Valid p issued s
      → p.ended s.poc ≡ false
      → let g = p.current s.poc in
        After p
          (λ t.
            Went (λ x. x ≡ g) s t × (covers p.leq t.min.graphs g ≡ true) × (t.poc ≡ p.next s.poc))
          (Stop p (λ x. x ≡ g) s)
          (deliver p s g)
  unfolding deliver
  deliver_lem s v e =
      let g = p.current s.poc in
      elim (Bool-cases (hits_initial p s g)) [
        | inl hit ↦ rw hit (record {
          minimal = add_min s g v;
          grows = offer-Grows s g v.minimal;
          reason = inl (hit-Reason s g hit);
        })
        | inr miss ↦ elim (Bool-cases (p.out_of_time (offer p s g).ticks)) [
          | inl late ↦
              rw (miss, late)
                (record {
                  minimal = add_min s g v;
                  grows =
                      regrow (λ x. x ≡ g) s (offer p s g) ((offer p s g).ticks + 1)
                        (offer p s g).poc (offer-Grows s g v.minimal);
                  reason = inr ((offer p s g).ticks, refl, late);
                })
          | inr early ↦
              rw (miss, early)
                (
                  (
                    next-Valid s ((offer p s g).ticks + 1) v e,
                    regrow (λ x. (x ≡ g) × Missed p x) s (offer p s g) ((offer p s g).ticks + 1)
                        (p.next s.poc) (offer-Missed s g v.minimal miss),
                  ),
                  offer-covers s g,
                  refl,
                )
        ]
      ]
