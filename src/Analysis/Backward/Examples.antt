-- ===== src/Analysis/Backward/Examples.antt =====
-- A small system on which the search runs: a graph is an ID and a number of tokens, one graph is
-- below another if it has at most as many tokens, and a backward step takes one token away.
use uncover.Analysis.Backward.Returns.{perform_analysis_returns}
use uncover.Analysis.Backward.Correct.{
  perform_analysis-IsMinimal, perform_analysis_iff, perform_analysis-initial,
  perform_analysis-aborted,
}
use uncover.Graphs.MinGraphList.{add_graph, add_graphs}
use uncover.Graphs.MinGraphList.Spec.{IsMinimal, covers}
use uncover.Base.{
  zero, suc, ℕ, ◌+◌, ◌-◌, ◌<◌, ◌≡◌, refl, List, [], ◌∷◌, inl, Bool, true, false, arith, contains,
  leb, ◌==◌, ◌≢◌, ◌≤◌, In, ◌↔◌, suc,
}
use uncover.Graphs.MinGraphList.Ids.{has_id, HasDistinctIds, ids_of, has_id}
use uncover.Analysis.Backward.{
  deliver, offer, hits_initial, covers_initial, apply_loop, Parts, finished, perform_analysis,
  deliver, offer, hits_initial, covers_initial, apply_loop, has_id, add_graph, add_graphs,
  unfinished, aborted,
}
use uncover.Analysis.Backward.Laws.{
  OrderLaws, EnumeratorLaws, StepLaws, Delivers, here, later, IsMonotone, Bar, Reached, Reason, bar,
}

record Marking : Type 0 where
  id : ℕ
  tokens : ℕ

-- The enumerator: how many graphs are left, the tokens of the next one, and the counter of IDs.
record Enumerator : Type 0 where
  remaining : ℕ
  tokens : ℕ
  counter : ℕ

abbrev parts : Bool → (ℕ → Bool) → List Marking → Parts Marking (Unit {0}) Enumerator
parts check clock initial = record {
  get_id = λ g. g.id;
  has_name = λ g. false;
  set_default_name = λ g. g;
  leq = λ a b. leb a.tokens b.tokens;
  reset_with = λ e r g. record { remaining = 1; tokens = g.tokens - 1; counter = e.counter };
  ended = λ e. e.remaining == 0;
  current = λ e. record { id = e.counter; tokens = e.tokens };
  next = λ e. record { remaining = e.remaining - 1; tokens = e.tokens; counter = e.counter + 1 };
  left = λ e. e.remaining;
  std_rules = tt ∷ [];
  uq_instances = λ g. [];
  initial_graphs = initial;
  check_initial = check;
  out_of_time = clock;
}

abbrev never : ℕ → Bool
never n = false

abbrev Step : Unit {0} → Marking → Marking → Type 0
Step r g h = h.tokens ≡ g.tokens - 1

module _ (check : Bool) (clock : ℕ → Bool) (initial : List Marking) where
  order : OrderLaws (parts check clock initial)
  order = record {
    refl = λ a. ground arith;
    trans = λ a b c h k. ground arith;
    renamed = λ a b. refl;
    renamed_right = λ a b. refl;
  }

  abbrev issued : Enumerator → ℕ
  issued e = e.counter

  enumerator : EnumeratorLaws (parts check clock initial) issued
  enumerator = record {
    left-next = λ e h. ground arith;
    issued-current = λ e h. omega arith;
    issued-next = λ e h. omega arith;
    issued-reset = λ e r g. omega arith;
  }

  delivered_tokens :
      (e : Enumerator) (h : Marking)
      → Delivers (parts check clock initial) e h
      → h.tokens ≡ e.tokens
  delivered_tokens e h (here open_e eq) = ground arith
  delivered_tokens e h (later open_e d) = delivered_tokens _ h d

  steps : StepLaws (parts check clock initial) Step
  steps = record {
    sound = λ e r g h d. delivered_tokens _ h d;
    complete = λ e r g h pre.
        (record { id = e.counter; tokens = g.tokens - 1 }, here refl refl, ground arith);
  }

  monotone : IsMonotone (parts check clock initial) Step
  monotone r g h y i pre le =
      (tt, record { id = 0; tokens = y.tokens - 1 }, inl refl, refl, ground arith)

abbrev errors : List Marking
errors = record { id = 1; tokens = 2 } ∷ record { id = 2; tokens = 5 } ∷ []

abbrev first : Enumerator
first = record { remaining = 0; tokens = 0; counter = 3 }

abbrev plain : Parts Marking (Unit {0}) Enumerator
plain = parts false never []

distinct : HasDistinctIds plain.get_id errors
distinct = (refl, (refl, tt))

old : (i : ℕ) → contains i (ids_of plain.get_id errors) ≡ true → i < 3
old i h = ground arith

-- One token is taken away at a time, until nothing is left to take.
abbrev result : List Marking
result = record { id = 4; tokens = 0 } ∷ []

plain_run : perform_analysis plain 9 errors first ≡ finished result
unfolding perform_analysis deliver offer hits_initial covers_initial apply_loop has_id add_graph
    add_graphs
plain_run = refl

-- Five tokens are enough to reach a marking that covers the result, and so are none.
perform_analysis_iff_example :
    (covers plain.leq result (record { id = 0; tokens = 7 }) ≡ true)
    ↔ ((y : Marking) × Reached plain Step errors y × (leb y.tokens 7 ≡ true))
perform_analysis_iff_example =
    perform_analysis_iff plain (order false never []) (issued false never [])
      (enumerator false never []) Step (steps false never []) errors first distinct old 9 result
      (record { id = 0; tokens = 7 }) (monotone false never []) plain_run

perform_analysis-IsMinimal_example : IsMinimal plain.leq result
perform_analysis-IsMinimal_example =
    perform_analysis-IsMinimal plain (order false never []) (issued false never [])
      (enumerator false never []) Step (steps false never []) errors first distinct old 9 result 0
      (inl plain_run)

-- A marking with one token is initial, and the search stops when it takes it.
abbrev checked : Parts Marking (Unit {0}) Enumerator
checked = parts true never (record { id = 0; tokens = 1 } ∷ [])

abbrev partial_result : List Marking
partial_result = record { id = 3; tokens = 1 } ∷ []

checked_run : perform_analysis checked 9 errors first ≡ aborted partial_result 1
unfolding perform_analysis deliver offer hits_initial covers_initial apply_loop has_id add_graph
    add_graphs
checked_run = refl

perform_analysis-aborted_example :
    ((x : Marking) → In x partial_result → Reached checked Step errors x)
    × ((x : Marking)
        → covers checked.leq errors x ≡ true
        → covers checked.leq partial_result x ≡ true)
    × Reason checked partial_result 1
perform_analysis-aborted_example =
    perform_analysis-aborted checked (order true never (record { id = 0; tokens = 1 } ∷ []))
      (issued true never (record { id = 0; tokens = 1 } ∷ []))
      (enumerator true never (record { id = 0; tokens = 1 } ∷ [])) Step
      (steps true never (record { id = 0; tokens = 1 } ∷ [])) errors first distinct old 9
      partial_result 1 checked_run

-- An initial marking above an error graph that the search has nothing to add to.
abbrev stuck_error : List Marking
stuck_error = record { id = 1; tokens = 0 } ∷ []

abbrev met : Parts Marking (Unit {0}) Enumerator
met = parts true never stuck_error

met_run : perform_analysis met 9 stuck_error first ≡ finished stuck_error
unfolding perform_analysis deliver offer hits_initial covers_initial apply_loop has_id add_graph
    add_graphs
met_run = refl

met_old : (i : ℕ) → contains i (ids_of met.get_id stuck_error) ≡ true → i < 3
met_old i h = ground arith

perform_analysis-initial_example :
    (covers met.leq stuck_error (record { id = 1; tokens = 0 }) ≡ true)
    ↔ (covers met.leq stuck_error (record { id = 1; tokens = 0 }) ≡ true)
perform_analysis-initial_example =
    perform_analysis-initial met (order true never stuck_error) (issued true never stuck_error)
      (enumerator true never stuck_error) Step (steps true never stuck_error) stuck_error first
      (refl, tt) met_old 9 stuck_error (record { id = 1; tokens = 0 }) refl (inl refl) met_run

-- The number of tokens is a well-quasi-order.
Bar-below :
    (b : ℕ) (l : List Marking)
    → ((x : Marking) → b ≤ x.tokens → covers plain.leq l x ≡ true)
    → Bar plain.leq l
Bar-below zero l c = bar (λ g h. absurd (cc (c g (omega arith))))
Bar-below (suc b) l c = bar (λ g h. Bar-below b (g ∷ l) (λ x le. ground (arith, c g)))

perform_analysis_returns_example :
    (fuel : ℕ) × (perform_analysis plain fuel errors first ≢ unfinished)
perform_analysis_returns_example =
    perform_analysis_returns plain (order false never []) (issued false never [])
      (enumerator false never []) Step (steps false never []) errors first distinct old
      (bar (λ g h. Bar-below g.tokens (g ∷ []) (λ x le. ground arith)))
