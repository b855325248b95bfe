-- ===== src/Analysis/Backward/Laws.antt =====
-- What the documentation of Order, MinPOCEnumerator and BackwardAnalysis promises of the parts that
-- the search works with, and the words in which the results of the search are stated.
use uncover.Base.{◌∷◌, ℕ, ◌≤◌, ◌<◌, ◌≡◌, List, ◌⊎◌, true, false, ◌&&◌, In, ◌+◌}
use uncover.Graphs.MinGraphList.Spec.{covers, IsMinimal}
use uncover.Graphs.MinGraphList.Ids.{has_id, IsIndexed}
use uncover.Analysis.Backward.{
  Parts, Run, Flow, going, stopped, out_of_fuel, covers_initial, rules_for, Bool,
}

-- A quasi-order that does not look at names.
pub record OrderLaws {G R E : Type 0} (p : Parts G R E) : Type 0 where
  pub refl : (a : G) → p.leq a a ≡ true
  pub trans : (a b c : G) → p.leq a b ≡ true → p.leq b c ≡ true → p.leq a c ≡ true
  pub renamed : (a b : G) → p.leq (p.set_default_name a) b ≡ p.leq a b
  pub renamed_right : (a b : G) → p.leq a (p.set_default_name b) ≡ p.leq a b

-- The graphs that the enumerator still delivers in a state.
pub data Delivers {G R E : Type 0} (p : Parts G R E) : E → G → Type 0 where
  here : {e : E} {g : G} → p.ended e ≡ false → g ≡ p.current e → Delivers p e g
  later : {e : E} {g : G} → p.ended e ≡ false → Delivers p (p.next e) g → Delivers p e g

-- The enumerator ends, and the graphs that it delivers are new: `issued` is an ID below which all
-- IDs were given away before the current graph was made (gl_getNewStateID).
pub record EnumeratorLaws {G R E : Type 0} (p : Parts G R E) (issued : E → ℕ) : Type 0 where
  pub left-next : (e : E) → p.ended e ≡ false → p.left (p.next e) < p.left e
  pub issued-current : (e : E) → p.ended e ≡ false → issued e ≤ p.get_id (p.current e)
  pub issued-next : (e : E) → p.ended e ≡ false → p.get_id (p.current e) < issued (p.next e)
  pub issued-reset : (e : E) (r : R) (g : G) → issued e ≤ issued (p.reset_with e r g)

-- Reset with a rule and a graph, the enumerator delivers predecessors only, and below every
-- predecessor some graph: `Pre r g h` says that a backward step by `r` leads from `g` to `h`.
pub record StepLaws {G R E : Type 0} (p : Parts G R E) (Pre : R → G → G → Type 0) : Type 0 where
  pub sound : (e : E) (r : R) (g h : G) → Delivers p (p.reset_with e r g) h → Pre r g h
  pub complete :
      (e : E) (r : R) (g h : G)
      → Pre r g h
      → (k : G) × Delivers p (p.reset_with e r g) k × (p.leq k h ≡ true)

module _ {G R E : Type 0} (p : Parts G R E) where
  -- The graphs to which backward steps lead from the error graphs.
  pub data Reached (Pre : R → G → G → Type 0) (errors : List G) : G → Type 0 where
    error : {g : G} → In g errors → Reached Pre errors g
    back :
        {g h : G} {r : R}
        → Reached Pre errors g
        → In r (rules_for p g)
        → Pre r g h
        → Reached Pre errors h

  -- The state of the search between two calls of the enumerator.
  pub record Valid (issued : E → ℕ) (s : Run G E) : Type 0 where
    pub minimal : IsMinimal p.leq s.min.graphs
    pub indexed : IsIndexed p.get_id s.min
    pub below : (i : ℕ) → has_id p.get_id s.min i ≡ true → i < issued s.poc

  -- A piece of the search leads from `s` to `t`, and all that it adds satisfies `Q`.
  pub record Grows (Q : G → Type 0) (s t : Run G E) : Type 0 where
    pub covered : (x : G) → covers p.leq s.min.graphs x ≡ true → covers p.leq t.min.graphs x ≡ true
    pub stored : (x : G) → In x t.min.graphs → In x s.min.graphs ⊎ In x t.new
    pub kept : (x : G) → In x s.new → In x t.new
    pub origin : (x : G) → In x t.new → In x s.new ⊎ Q x
    pub gained :
        (x : G)
        → In x t.new
        → In x s.new ⊎ (covers p.leq s.min.graphs x ≡ false) × (covers p.leq t.min.graphs x ≡ true)

  -- Why the search stopped: it has found a graph that covers an initial one, or time is up.
  abbrev pub Reason : List G → ℕ → Type 0
  Reason l reads =
      ((p.check_initial ≡ true)
        × ((h : G) × (i : G) × In h l × In i p.initial_graphs × (p.leq h i ≡ true)))
      ⊎ ((n : ℕ) × (reads ≡ n + 1) × (p.out_of_time n ≡ true))

  pub record Stop (Q : G → Type 0) (s t : Run G E) : Type 0 where
    pub minimal : IsMinimal p.leq t.min.graphs
    pub grows : Grows Q s t
    pub reason : Reason t.min.graphs t.ticks

  -- No initial graph lies above the graph, if the search looks for that.
  abbrev pub Missed : G → Type 0
  Missed x = (p.check_initial && covers_initial p x) ≡ false

  -- Where a loop ends, in terms of what holds when it goes on and when it stops.
  abbrev pub After : (Run G E → Type 0) → (Run G E → Type 0) → Flow G E → Type 0
  After P Q (going t) = P t
  After P Q (stopped t) = Q t
  After P Q out_of_fuel = ⊥

module _ {G R E : Type 0} (p : Parts G R E) (Pre : R → G → G → Type 0) where
  -- A backward step from `g` by one of the rules.
  abbrev pub StepOf : List R → G → G → Type 0
  StepOf rs g x = (r : R) × In r rs × Pre r g x

  -- A backward step from one of the graphs.
  abbrev pub StepFrom : List G → G → Type 0
  StepFrom gs x = (g : G) × In g gs × StepOf (rules_for p g) g x

  -- All predecessors of `g` by the rules are covered by the list.
  abbrev pub ClosedBy : List R → G → List G → Type 0
  ClosedBy rs g l = (r : R) (h : G) → In r rs → Pre r g h → covers p.leq l h ≡ true

  -- What holds of the stored graphs in every state of the search.
  pub record Sound (errors l : List G) : Type 0 where
    pub minimal : IsMinimal p.leq l
    pub base : (x : G) → covers p.leq errors x ≡ true → covers p.leq l x ≡ true
    pub reached : (x : G) → In x l → Reached p Pre errors x

-- The rules are monotone (the system is well-structured): what a step leads to from a graph, some
-- step leads below from every smaller graph.
abbrev pub IsMonotone : {G R E : Type 0} (p : Parts G R E) → (R → G → G → Type 0) → Type 0
IsMonotone {G} {R} p Pre =
    (r : R) (g h y : G)
    → In r (rules_for p g)
    → Pre r g h
    → p.leq y g ≡ true
    → (q : R) × (k : G) × In q (rules_for p y) × Pre q y k × (p.leq k h ≡ true)

-- A well-quasi-order: graphs that the graphs before them do not cover can be listed only finitely
-- often.
pub data Bar {G : Type 0} (leq : G → G → Bool) : List G → Type 0 where
  bar : {l : List G} → ((g : G) → covers leq l g ≡ false → Bar leq (g ∷ l)) → Bar leq l
