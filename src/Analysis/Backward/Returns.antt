-- ===== src/Analysis/Backward/Returns.antt =====
-- The search ends for a well-quasi-order.
use uncover.Base.{
  ℕ, suc, ◌<◌, ◌≡◌, ◌≢◌, refl, List, [], ◌∷◌, inl, inr, true, false, contains, Bool-cases,
  List-cases, reverse,
}
use uncover.Graphs.MinGraphList.Spec.{covers}
use uncover.Graphs.MinGraphList.Covers.{covers_trans}
use uncover.Graphs.MinGraphList.Ids.{HasDistinctIds, ids_of}
use uncover.Analysis.Backward.{
  Parts, Run, Flow, unfinished, going, stopped, out_of_fuel, process_all, search, settle, start,
  perform_analysis,
}
use uncover.Analysis.Backward.Laws.{OrderLaws, EnumeratorLaws, StepLaws, Valid, Bar, bar}
use uncover.Analysis.Backward.Rounds.{Processed, process_all_lem}
use uncover.Analysis.Backward.Search.{start-Inv}

module _ {G R E : Type 0} (p : Parts G R E) (order : OrderLaws p) (issued : E → ℕ)
    (enumerator : EnumeratorLaws p issued) (Pre : R → G → G → Type 0) (steps : StepLaws p Pre) where
  -- With some fuel the outer loop ends.
  abbrev Returns : List G → Run G E → Type 0
  Returns todo s = (fuel : ℕ) × (search p fuel todo s ≢ unfinished)

  abbrev SettleReturns : Flow G E → Type 0
  SettleReturns f = (fuel : ℕ) × (settle f (λ t. search p fuel t.new t) ≢ unfinished)

  -- A round that finds nothing is the last; any other round finds a graph that was not covered.
  settle_returns :
      (todo : List G) (s : Run G E) (f : Flow G E)
      → Processed p order issued enumerator Pre steps todo (record s { new = [] }) f
      → ((t : Run G E) (x : G)
          → Valid p issued t
          → covers p.leq s.min.graphs x ≡ false
          → covers p.leq t.min.graphs x ≡ true
          → ((y : G) → covers p.leq s.min.graphs y ≡ true → covers p.leq t.min.graphs y ≡ true)
          → Returns t.new t)
      → SettleReturns f
  unfolding search
  settle_returns todo s (going t) a k = elim (List-cases t.new) [
    | inl none_new ↦ (0, rw none_new (λ e. cc))
    | inr (x, rest, e) ↦ elim (a.0.1.gained x (rw e (inl refl))) [
      | inl none_before ↦ absurd none_before
      | inr (was, is) ↦ k t x a.0.0 was is a.0.1.covered
    ]
  ]
  settle_returns todo s (stopped t) a k = (0, λ e. cc)
  settle_returns todo s out_of_fuel a k = absurd a

  not_before :
      (l : List G) (s : Run G E) (x : G)
      → ((y : G) → covers p.leq l y ≡ true → covers p.leq s.min.graphs y ≡ true)
      → covers p.leq s.min.graphs x ≡ false
      → covers p.leq l x ≡ false
  not_before l s x c was = elim (Bool-cases (covers p.leq l x)) [ inl h ↦ cc (c x h) | inr h ↦ h ]

  -- The list of all graphs that were ever new covers no more than the stored graphs.
  grown :
      (l : List G) (s t : Run G E) (x : G)
      → ((y : G) → covers p.leq l y ≡ true → covers p.leq s.min.graphs y ≡ true)
      → covers p.leq t.min.graphs x ≡ true
      → ((y : G) → covers p.leq s.min.graphs y ≡ true → covers p.leq t.min.graphs y ≡ true)
      → (y : G) → covers p.leq (x ∷ l) y ≡ true
      → covers p.leq t.min.graphs y ≡ true
  grown l s t x c is grow y h = elim (Bool-cases (p.leq x y)) [
    | inl above ↦ covers_trans p.leq p.get_id order.trans x y t.min.graphs is above
    | inr apart ↦ grow y (c y (rw apart at h))
  ]

  search-Returns :
      (l : List G) (todo : List G) (s : Run G E)
      → Bar p.leq l
      → Valid p issued s
      → ((x : G) → covers p.leq l x ≡ true → covers p.leq s.min.graphs x ≡ true)
      → Returns todo s
  unfolding search
  search-Returns l [] s b v c = (0, λ e. cc)
  search-Returns l (g ∷ todo) s (bar next) v c =
      let w : Valid p issued (record s { new = [] }) = record {
        minimal = v.minimal;
        indexed = v.indexed;
        below = v.below;
      } in
      let (fuel, ends) =
        settle_returns (g ∷ todo) s (process_all p (g ∷ todo) (record s { new = [] }))
          (process_all_lem p order issued enumerator Pre steps (g ∷ todo) (record s { new = [] }) w)
          (λ t x valid was is grow.
            search-Returns (x ∷ l) t.new t (next x (not_before l s x c was)) valid
              (grown l s t x c is grow)) in
      (suc fuel, ends)

  -- If the order is a well-quasi-order, some bound on the search depth lets performAnalysis return,
  -- whatever the rules are: the search terminates. The error graphs have distinct IDs that were
  -- given away before.
  pub perform_analysis_returns :
      (errors : List G) (e : E)
      → HasDistinctIds p.get_id errors
      → ((i : ℕ) → contains i (ids_of p.get_id errors) ≡ true → i < issued e)
      → Bar p.leq []
      → (fuel : ℕ) × (perform_analysis p fuel errors e ≢ unfinished)
  unfolding perform_analysis
  perform_analysis_returns errors e distinct old wqo =
      let inv = start-Inv p order issued enumerator Pre steps errors e distinct old in
      let (fuel, ends) =
        search-Returns [] (reverse errors) (start p errors e) wqo inv.valid (λ x h. cc) in
      (
        fuel,
        elim (Bool-cases (p.out_of_time 0)) [
          | inl late ↦ rw late (λ eq. cc)
          | inr early ↦ rw early ends
        ],
      )
