-- ===== src/Subgraphs.antt =====
-- src/subgraphs/SubgraphOrder.cpp: the order that compares two graphs with the search for matches.
pub mod Examples
use uncover.Base.{
  ℕ, ◌≡◌, ◌≢◌, ◌⊎◌, refl, List, [], ◌∷◌, Bool, true, false, some, none, arith, inl, inr, In,
  List-cases, subst, sym, ◌∙◌, length, ap, Bool-cases, ◌≤◌,
}
use uncover.Graphs.Hypergraph.{Hypergraph}
use uncover.Graphs.Mapping.{Mapping}
use uncover.Engine.MatchFinder.{Result, ok, ◌>>=◌, Problem}
use uncover.Engine.MatchFinder.Partial.{IsMorphism, IsInjective, IsAlmostInjective}
use uncover.Engine.MatchFinder.Invariant.{Input}
use uncover.Engine.MatchFinder.First.{Enough}
use uncover.Engine.MatchFinder.Find.{find_matches, too_big}
use uncover.Engine.MatchFinder.Total.{find_matches_lem, Answers, find_matches-big}

-- The call of the field `matchFinder(true, true)`.
abbrev pub comparison : Hypergraph → Hypergraph → Problem
comparison smaller bigger = record {
  injective = true;
  stop_on_first = true;
  source = smaller;
  target = bigger;
}

-- `size() != 0`
abbrev pub is_found : List Mapping → Bool
is_found [] = false
is_found (m ∷ ms) = true

-- isLessOrEq; the first argument is the fuel of the search.
pub is_less_or_eq : ℕ → Hypergraph → Hypergraph → Result Bool
unfolding find_matches
is_less_or_eq n smaller bigger = do
  ms ← find_matches n (comparison smaller bigger)
  ok (is_found ms)

is_less_or_eq-run :
    (n : ℕ) (smaller bigger : Hypergraph) (ms : List Mapping)
    → find_matches n (comparison smaller bigger) ≡ ok ms
    → is_less_or_eq n smaller bigger ≡ ok (is_found ms)
unfolding is_less_or_eq
is_less_or_eq-run n smaller bigger ms h = rw h refl

-- What a comparison that is true stands for. Two vertices of one edge may have the same target.
pub record IsEmbedding (smaller bigger : Hypergraph) (m : Mapping) : Type 0 where
  pub morphism : IsMorphism smaller bigger m
  pub apart : IsAlmostInjective smaller m
  pub vertices : length smaller.vertices ≤ length bigger.vertices
  pub edges : length smaller.edges ≤ length bigger.edges

found-fits :
    (n : ℕ) (p : Problem) (m : Mapping) (ms : List Mapping)
    → find_matches n p ≡ ok (m ∷ ms)
    → too_big p ≡ false
found-fits n p m ms h = elim (Bool-cases (too_big p)) [
  | inl big ↦ absurd (ground (arith, h, find_matches-big p n big))
  | inr fits ↦ fits
]

-- For graphs that the search can be called with, with enough fuel and a size_t that counts the
-- vertices: the comparison fails with no error. It is true only if the bigger graph has at least as
-- many vertices and edges and there is a morphism from the smaller graph to the bigger one that
-- sends different elements to different targets, unless they are vertices of one edge. It is true
-- whenever there is an injective morphism.
pub is_less_or_eq_lem :
    (n : ℕ) (smaller bigger : Hypergraph)
    → Input (comparison smaller bigger)
    → Enough (comparison smaller bigger) n
    → (b : Bool) × (is_less_or_eq n smaller bigger ≡ ok b)
      × (b ≡ true → (m : Mapping) × IsEmbedding smaller bigger m)
      × ((f : Mapping) → IsMorphism smaller bigger f → IsInjective f → b ≡ true)
is_less_or_eq_lem n smaller bigger given enough =
    let (ms, is_ok, a) = find_matches_lem (comparison smaller bigger) n given enough in
    (
      is_found ms,
      is_less_or_eq-run n smaller bigger ms is_ok,
      λ e. elim (List-cases ms) [
        | inl empty ↦ absurd (ground (arith, e, empty))
        | inr (m, rest, full) ↦
            let here : In m ms = subst (In m) (sym full) (inl refl) in
            let fits = found-fits n (comparison smaller bigger) m rest (is_ok ∙ ap ok full) in
            (
              m,
              record {
                morphism = a.sound m here;
                apart = a.apart refl m here;
                vertices = ground (arith, fits);
                edges = ground (arith, fits);
              },
            )
      ],
      λ f morphism j. elim (List-cases ms) [
        | inl empty ↦ absurd (a.found f (morphism, λ i. j) empty)
        | inr (m, rest, full) ↦ ground (arith, full)
      ],
    )
