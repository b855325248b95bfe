-- ===== src/Engine/MatchFinder/Matches.antt =====
-- The search for the matches of the edges, from its start.
use uncover.Base.{
  ℕ, zero, suc, ◌≡◌, refl, List, [], ◌∷◌, false, arith, In, ap, subst, inl, inr, length, ◌≢◌,
}
use uncover.Graphs.Hypergraph.{Edge}
use uncover.Graphs.Mapping.{Mapping}
use uncover.Engine.MatchFinder.{◌>>=◌, ok, ◌>>=◌, Problem, Search, map_edges}
use uncover.Engine.MatchFinder.Invariant.{Input, Invariant, unmapped}
use uncover.Engine.MatchFinder.Targets.{IsEdgeMatch, IsCandidate, Hit}
use uncover.Engine.MatchFinder.Edges.{map_edges_lem}
use uncover.Engine.MatchFinder.Find.{empty_search, match_edges}

unmapped-nothing : (edges : List (ℕ × Edge)) → unmapped [] edges ≡ length edges
unmapped-nothing [] = refl
unmapped-nothing ((e, a) ∷ edges) = ground (arith, unmapped-nothing edges)

pub empty_search-Invariant : (p : Problem) → Invariant p (length p.source.edges) empty_search
empty_search-Invariant p = record {
  back = λ i t s h. cc;
  forth = λ i s t h. cc;
  apart = λ i x y t h. cc;
  domain = λ i h. cc;
  open_edges = λ e c. cc;
  partial = record { edges = λ e t h at. cc; vertices = λ v x h at. cc };
  counted = unmapped-nothing p.source.edges;
  ordered = tt;
}

match_edges-run :
    (p : Problem) (n : ℕ) (s : Search)
    → length p.source.edges ≡ n
    → map_edges p n empty_search ≡ ok s
    → match_edges p ≡ ok s.found
unfolding match_edges map_edges
match_edges-run p zero s l h = rw (l, match_edges) (ap (λ r. r >>= λ s. ok s.found) h)
match_edges-run p (suc n) s l h = rw (l, match_edges) (rw (h, match_edges) refl)

-- The search throws nothing and every result of it is a match of the edges. It finds a match if
-- there is a candidate, and when it does not stop at the first match, it finds the part that it
-- maps of every candidate.
pub match_edges_lem :
    (p : Problem)
    → Input p
    → (ms : List Mapping) × (match_edges p ≡ ok ms)
      × ((m : Mapping) → In m ms → IsEdgeMatch p m)
      × ((f : Mapping) → IsCandidate p f → (ms ≢ []) × (p.stop_on_first ≡ false → Hit f ms))
match_edges_lem p given =
    let (s, is_ok, pr) =
      map_edges_lem p (length p.source.edges) empty_search given (empty_search-Invariant p) in
    (
      s.found,
      match_edges-run p (length p.source.edges) s refl is_ok,
      λ m i. elim (pr.sound m i) [ inl gone ↦ absurd gone | inr match ↦ match ],
      λ f c. elim pr.ended [
        | inl stop ↦ (λ empty. ground (arith, stop, empty), λ r. absurd (ground (arith, stop, r)))
        | inr fin ↦
            let (m, i, x) = fin.complete f c (λ i t h. cc) in
            (λ empty. subst (λ ms. In m ms) empty i, λ r. (m, i, x))
      ],
    )
