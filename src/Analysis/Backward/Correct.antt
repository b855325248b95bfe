-- ===== src/Analysis/Backward/Correct.antt =====
-- What performAnalysis returns, against the abstract view of the search: the graphs from which the
-- error graphs can be reached, closed upwards under the order.
use uncover.Graphs.MinGraphList.Covers.{covers-cases, covers_trans, covers_member}
use uncover.Base.{
  subst, ℕ, ◌<◌, ◌≡◌, refl, List, [], ◌∷◌, true, arith, contains, if◌then◌else◌, all_of, reverse,
  In, Bool-cases, ◌⊎◌, inl, ◌↔◌, inr,
}
use uncover.Graphs.MinGraphList.Spec.{covers, IsMinimal, apart}
use uncover.Graphs.MinGraphList.Ids.{HasDistinctIds, ids_of}
use uncover.Analysis.Backward.{
  Parts, search, start, name_result, perform_analysis, covers_initial, aborted, finished, some_of,
  Outcome,
}
use uncover.Analysis.Backward.Laws.{
  error, back, OrderLaws, EnumeratorLaws, StepLaws, IsMonotone, Reached, Reason,
}
use uncover.Analysis.Backward.Search.{Ended, search_lem, start-Inv, Finished}

module _ {G R E : Type 0} (p : Parts G R E) (order : OrderLaws p) where
  covers-name_result : (l : List G) (x : G) → covers p.leq (name_result p l) x ≡ covers p.leq l x
  unfolding name_result
  covers-name_result [] x = refl
  covers-name_result (y ∷ l) x = ground (arith, covers-name_result l x, order.renamed y x)

  apart-name_result :
      (y : G) (l : List G)
      → all_of (apart p.leq y) l ≡ true
      → all_of (apart p.leq (if p.has_name y then y else p.set_default_name y)) (name_result p l)
        ≡ true
  unfolding name_result
  apart-name_result y [] h = refl
  apart-name_result y (x ∷ l) h = ground (
    arith,
    apart-name_result y l,
    order.renamed y x,
    order.renamed y (p.set_default_name x),
    order.renamed_right y x,
    order.renamed x y,
    order.renamed x (p.set_default_name y),
    order.renamed_right x y,
  )

  name_result-IsMinimal : (l : List G) → IsMinimal p.leq l → IsMinimal p.leq (name_result p l)
  unfolding name_result
  name_result-IsMinimal [] h = tt
  name_result-IsMinimal (y ∷ l) h = (apart-name_result y l h.0, name_result-IsMinimal l h.1)

covers_initial_member :
    {G R E : Type 0} (p : Parts G R E) (i y : G)
    → In i p.initial_graphs
    → p.leq y i ≡ true
    → covers_initial p y ≡ true
unfolding covers_initial
covers_initial_member {G} p i y k le = found p.initial_graphs k
  where
    found : (l : List G) → In i l → some_of (λ j. p.leq y j) l ≡ true
    found [] h = absurd h
    found (j ∷ l) h = ground (arith, found l)

module _ {G R E : Type 0} (p : Parts G R E) (order : OrderLaws p) (issued : E → ℕ)
    (enumerator : EnumeratorLaws p issued) (Pre : R → G → G → Type 0) (steps : StepLaws p Pre)
    (errors : List G) (e : E) (distinct : HasDistinctIds p.get_id errors)
    (old : (i : ℕ) → contains i (ids_of p.get_id errors) ≡ true → i < issued e) where
  perform_analysis-Ended :
      (fuel : ℕ)
      → Ended p order issued enumerator Pre steps errors
          (search p fuel (reverse errors) (start p errors e))
  perform_analysis-Ended fuel =
      search_lem p order issued enumerator Pre steps errors fuel (reverse errors) (start p errors e)
        (start-Inv p order issued enumerator Pre steps errors e distinct old)

  -- The result of a search that was not cut short comes from its last state.
  result-Ended :
      (fuel : ℕ) (o : Outcome G)
      → perform_analysis p fuel errors e ≡ o
      → Ended p order issued enumerator Pre steps errors o
  unfolding perform_analysis
  result-Ended fuel o h = elim (Bool-cases (p.out_of_time 0)) [
    | inl late ↦
        let s = start-Inv p order issued enumerator Pre steps errors e distinct old in
        subst (Ended p order issued enumerator Pre steps errors) (rw late at h)
          (s.sound, inr (0, refl, late))
    | inr early ↦
        subst (Ended p order issued enumerator Pre steps errors) (rw early at h)
          (perform_analysis-Ended fuel)
  ]

  -- By monotonicity a closed list covers all that is reached.
  covers-Reached :
      (m : List G)
      → IsMonotone p Pre
      → Finished p order issued enumerator Pre steps errors m
      → (y : G) → Reached p Pre errors y
      → covers p.leq m y ≡ true
  covers-Reached m mono f y (error i) = f.sound.base y (covers_member p.leq order.refl errors y i)
  covers-Reached m mono f y (back {g} {h} {r} reach i pre) =
      let (z, j, le) = covers-cases p.leq m g (covers-Reached m mono f g reach) in
      let (q, k, i', pre', le') = mono r g y z i pre le in
      covers_trans p.leq p.get_id order.trans k y m (f.closed z j q k i' pre') le'

  Finished-iff :
      (m : List G) (x : G)
      → IsMonotone p Pre
      → Finished p order issued enumerator Pre steps errors m
      → (covers p.leq m x ≡ true) ↔ ((y : G) × Reached p Pre errors y × (p.leq y x ≡ true))
  Finished-iff m x mono f = (
    λ c. let (y, i, le) = covers-cases p.leq m x c in (y, f.sound.reached y i, le),
    λ (y, reach, le).
        covers_trans p.leq p.get_id order.trans y x m (covers-Reached m mono f y reach) le,
  )

  -- When performAnalysis ends by itself, the upward closure of its result is exactly that of the
  -- graphs from which backward steps of a well-structured system are found to lead from the error
  -- graphs: a graph covers a result graph if and only if it covers a graph that is reached. The
  -- error graphs have distinct IDs that were given away before.
  pub perform_analysis_iff :
      (fuel : ℕ) (l : List G) (x : G)
      → IsMonotone p Pre
      → perform_analysis p fuel errors e ≡ finished l
      → (covers p.leq l x ≡ true) ↔ ((y : G) × Reached p Pre errors y × (p.leq y x ≡ true))
  perform_analysis_iff fuel l x mono h =
      let (m, eq, f) = result-Ended fuel (finished l) h in
      rw (eq, covers-name_result p order m x) (Finished-iff m x mono f)

  -- The result of performAnalysis is minimal: no graph of it lies below another, and none is stored
  -- twice. This holds however the search ends.
  pub perform_analysis-IsMinimal :
      (fuel : ℕ) (l : List G) (reads : ℕ)
      → (perform_analysis p fuel errors e ≡ finished l)
        ⊎ (perform_analysis p fuel errors e ≡ aborted l reads)
      → IsMinimal p.leq l
  perform_analysis-IsMinimal fuel l reads (inl h) =
      let (m, eq, f) = result-Ended fuel (finished l) h in
      rw eq (name_result-IsMinimal p order m f.sound.minimal)
  perform_analysis-IsMinimal fuel l reads (inr h) =
      (result-Ended fuel (aborted l reads) h).0.minimal

  -- A search that stops early returns graphs that are all reached from the error graphs and cover
  -- those, and it has a reason: the check of the initial graphs is on and some returned graph lies
  -- below an initial graph, or the last of the reads of the timer has answered that time is up.
  pub perform_analysis-aborted :
      (fuel : ℕ) (l : List G) (reads : ℕ)
      → perform_analysis p fuel errors e ≡ aborted l reads
      → ((x : G) → In x l → Reached p Pre errors x)
        × ((x : G) → covers p.leq errors x ≡ true → covers p.leq l x ≡ true)
        × Reason p l reads
  perform_analysis-aborted fuel l reads h =
      let (s, why) = result-Ended fuel (aborted l reads) h in (s.reached, s.base, why)

  missed_initial :
      (m : List G) (i : G)
      → p.check_initial ≡ true
      → In i p.initial_graphs
      → Finished p order issued enumerator Pre steps errors m
      → covers p.leq m i ≡ true
      → covers p.leq errors i ≡ true
  missed_initial m i on k f c =
      let (y, j, le) = covers-cases p.leq m i c in
      elim (f.missed y j) [
        | inl err ↦
            covers_trans p.leq p.get_id order.trans y i errors
              (covers_member p.leq order.refl errors y err) le
        | inr missed ↦ cc (covers_initial_member p i y k le)
      ]

  -- With the check of the initial graphs on, a search that ends by itself has found no graph below
  -- an initial graph, except where an error graph lies below it to begin with: those the check
  -- passes over.
  pub perform_analysis-initial :
      (fuel : ℕ) (l : List G) (i : G)
      → p.check_initial ≡ true
      → In i p.initial_graphs
      → perform_analysis p fuel errors e ≡ finished l
      → (covers p.leq l i ≡ true) ↔ (covers p.leq errors i ≡ true)
  perform_analysis-initial fuel l i on k h =
      let (m, eq, f) = result-Ended fuel (finished l) h in
      rw (eq, covers-name_result p order m i) (missed_initial m i on k f, f.sound.base i)
