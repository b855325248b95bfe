-- ===== src/Analysis/Backward/Search.antt =====
-- The outer loop of performAnalysis and its start: an invariant of the rounds.
use uncover.Base.{
  ℕ, zero, suc, ◌<◌, ◌≡◌, refl, List, [], ◌∷◌, ◌⊎◌, inl, inr, true, In, reverse, In-reverse,
  contains,
}
use mathlib.Core.Logic.{⊎_elim}
use uncover.Graphs.MinGraphList.{add_graphs, empty_list}
use uncover.Graphs.MinGraphList.Spec.{IsMinimal}
use uncover.Graphs.MinGraphList.Covers.{covers-add_graphs, add_graphs-IsMinimal, add_graphs-In}
use uncover.Graphs.MinGraphList.Ids.{
  HasDistinctIds, ids_of, add_graphs-IsIndexed, AreNew-empty, has_id-graph, contains-member,
}
use uncover.Analysis.Backward.{
  Parts, Run, Flow, Outcome, finished, aborted, unfinished, going, stopped, out_of_fuel,
  process_all, search, start, name_result, rules_for, settle,
}
use uncover.Analysis.Backward.Laws.{
  OrderLaws, EnumeratorLaws, StepLaws, Valid, Grows, Reason, Missed, StepFrom, ClosedBy, Sound,
  Reached, error, back,
}
use uncover.Analysis.Backward.Loop.{Passed}
use uncover.Analysis.Backward.Step.{Grows-map}
use uncover.Analysis.Backward.Rounds.{Processed, process_all_lem}

module _ {G R E : Type 0} (p : Parts G R E) (order : OrderLaws p) (issued : E → ℕ)
    (enumerator : EnumeratorLaws p issued) (Pre : R → G → G → Type 0) (steps : StepLaws p Pre)
    (errors : List G) where
  abbrev pub IsClosed : List G → G → Type 0
  IsClosed l g = ClosedBy p Pre (rules_for p g) g l

  -- The invariant of the outer loop, with the graphs that are left to do.
  pub record Inv (todo : List G) (s : Run G E) : Type 0 where
    pub valid : Valid p issued s
    pub sound : Sound p Pre errors s.min.graphs
    pub settled : (x : G) → In x s.min.graphs → In x todo ⊎ IsClosed s.min.graphs x
    pub reached_todo : (x : G) → In x todo → Reached p Pre errors x
    pub missed : (x : G) → In x s.min.graphs → In x errors ⊎ Missed p x

  StepFrom-Reached :
      (todo : List G) (x : G)
      → ((y : G) → In y todo → Reached p Pre errors y)
      → StepFrom p Pre todo x
      → Reached p Pre errors x
  StepFrom-Reached todo x f (g, i, (r, j, pre)) = back (f g i) j pre

  -- What a piece of the search adds is reached, if all that it starts from is.
  Grows-Sound :
      (todo : List G) (s t : Run G E)
      → Sound p Pre errors s.min.graphs
      → ((y : G) → In y todo → Reached p Pre errors y)
      → IsMinimal p.leq t.min.graphs
      → Grows p (StepFrom p Pre todo) (record s { new = [] }) t
      → Sound p Pre errors t.min.graphs
  Grows-Sound todo s t h f m a = record {
    minimal = m;
    base = λ x c. a.covered x (h.base x c);
    reached = λ x i. elim (a.stored x i) [
      | inl old ↦ h.reached x old
      | inr new ↦ elim (a.origin x new) [
        | inl none_before ↦ absurd none_before
        | inr q ↦ StepFrom-Reached todo x f q
      ]
    ];
  }

  -- A round keeps the invariant; what is left to do then is what it found.
  round-Inv :
      (todo : List G) (s t : Run G E)
      → Inv todo s
      → Passed p order issued enumerator (StepFrom p Pre todo) (record s { new = [] }) t
      → ((x : G) → In x todo → In x t.min.graphs → In x t.new ⊎ IsClosed t.min.graphs x)
      → Inv t.new t
  round-Inv todo s t h a c = record {
    valid = a.0;
    sound =
        Grows-Sound todo s t h.sound h.reached_todo a.0.minimal
          (Grows-map p _ (StepFrom p Pre todo) (record s { new = [] }) t (λ x q. q.0) a.1);
    settled = λ x i. elim (a.1.stored x i) [
      | inl old ↦ elim (h.settled x old) [
        | inl waiting ↦ c x waiting i
        | inr closed ↦ inr (λ r k j pre. a.1.covered k (closed r k j pre))
      ]
      | inr new ↦ inl new
    ];
    reached_todo = λ x i. elim (a.1.origin x i) [
      | inl none_before ↦ absurd none_before
      | inr q ↦ StepFrom-Reached todo x h.reached_todo q.0
    ];
    missed = λ x i. elim (a.1.stored x i) [
      | inl old ↦ h.missed x old
      | inr new ↦ elim (a.1.origin x new) [ inl none_before ↦ absurd none_before | inr q ↦ inr q.1 ]
    ];
  }

  -- What performAnalysis promises of the graphs that it has found, when it ends by itself and when
  -- it stops early.
  pub record Finished (l : List G) : Type 0 where
    pub sound : Sound p Pre errors l
    pub closed : (x : G) → In x l → IsClosed l x
    pub missed : (x : G) → In x l → In x errors ⊎ Missed p x

  abbrev pub Ended : Outcome G → Type 0
  Ended (finished l) = (m : List G) × (l ≡ name_result p m) × Finished m
  Ended (aborted l reads) = Sound p Pre errors l × Reason p l reads
  Ended unfinished = Unit {0}

  Ended-bind :
      (fuel : ℕ) (f : Flow G E) (todo : List G) (s : Run G E)
      → Inv todo s
      → Processed p order issued enumerator Pre steps todo (record s { new = [] }) f
      → ((t : Run G E) → Inv t.new t → Ended (search p fuel t.new t))
      → Ended (settle f (λ t. search p fuel t.new t))
  Ended-bind fuel (going t) todo s h a k = k t (round-Inv todo s t h a.0 a.1)
  Ended-bind fuel (stopped t) todo s h a k =
      (Grows-Sound todo s t h.sound h.reached_todo a.minimal a.grows, a.reason)
  Ended-bind fuel out_of_fuel todo s h a k = absurd a

  pub search_lem :
      (fuel : ℕ) (todo : List G) (s : Run G E) → Inv todo s → Ended (search p fuel todo s)
  unfolding search
  search_lem fuel [] s h = (
    s.min.graphs,
    refl,
    record {
      sound = h.sound;
      closed = λ x i. ⊎_elim (λ none_left. absurd none_left) (λ c. c) (h.settled x i);
      missed = h.missed;
    },
  )
  search_lem zero (g ∷ todo) s h = tt
  search_lem (suc fuel) (g ∷ todo) s h =
      Ended-bind fuel (process_all p (g ∷ todo) (record s { new = [] })) (g ∷ todo) s h
        (process_all_lem p order issued enumerator Pre steps (g ∷ todo) (record s { new = [] })
          (record { minimal = h.valid.minimal; indexed = h.valid.indexed; below = h.valid.below }))
        (λ t k. search_lem fuel t.new t k)

  -- The state behind the first call of addGraphs, with the graphs to do.
  pub start-Inv :
      (e : E)
      → HasDistinctIds p.get_id errors
      → ((i : ℕ) → contains i (ids_of p.get_id errors) ≡ true → i < issued e)
      → Inv (reverse errors) (start p errors e)
  start-Inv e d b =
      let m = (add_graphs p.leq p.get_id empty_list errors).0 in
      let minimal = add_graphs-IsMinimal p.leq p.get_id order.trans empty_list errors tt in
      let indexed =
        add_graphs-IsIndexed p.leq p.get_id empty_list errors
          (record { cached = λ i. refl; distinct = tt }) (AreNew-empty p.leq p.get_id errors d) in
      let from : (x : G) → In x m.graphs → In x errors = λ x i.
        ⊎_elim (λ none_before. absurd none_before) (λ j. j)
          (add_graphs-In p.leq p.get_id empty_list errors x i) in
      record {
        valid = record {
          minimal = minimal;
          indexed = indexed;
          below = λ i h.
              let (g, j, eq) = has_id-graph p.get_id m i indexed h in
              b i (rw (← eq) (contains-member p.get_id errors g (from g j)));
        };
        sound = record {
          minimal = minimal;
          base = λ x c. rw (covers-add_graphs p.leq p.get_id order.trans empty_list errors x) c;
          reached = λ x i. error (from x i);
        };
        settled = λ x i. inl ((In-reverse x errors).1 (from x i));
        reached_todo = λ x i. error ((In-reverse x errors).0 i);
        missed = λ x i. inl (from x i);
      }
