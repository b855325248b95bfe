-- ===== src/Graphs/Hypergraph/Pairs.antt =====
-- The loop of mergeEdges over the pairs of attached vertices.
use uncover.Base.{
  ◌∙◌, ℕ, ◌≡◌, refl, List, [], ◌∷◌, Bool, true, false, not, ◌&&◌, ◌||◌, Option, arith, Bool-cases,
  inl, inr, lookup, contains, length, all_of, ◌==◌, ap,
}
use uncover.Graphs.Hypergraph.{
  Hypergraph, Edge, ok, err, invalid_input, has_vertex, merge_vertices, merge_pairs,
}
use uncover.Graphs.Hypergraph.Incidence.{IsWf}
use uncover.Graphs.Hypergraph.Redirect.{moved}
use uncover.Graphs.Hypergraph.Merge.{Merged, merge_vertices_lem}

-- No vertex of the second list is needed again, by either list, behind the place where it is
-- merged away.
abbrev pub mergeable : List ℕ → List ℕ → Bool
mergeable [] ws = true
mergeable (v ∷ vs) [] = true
mergeable (v ∷ vs) (w ∷ ws) =
    (v == w || not (contains w vs) && not (contains w ws)) && mergeable vs ws

-- The edge with the vertices of the second list replaced by those of the first, pair by pair.
abbrev pub moved_all : List ℕ → List ℕ → Option Edge → Option Edge
moved_all [] ws o = o
moved_all (v ∷ vs) [] o = o
moved_all (v ∷ vs) (w ∷ ws) o = moved_all vs ws (moved w v o)

module _ (h g : Hypergraph) (v w : ℕ) (m : Merged h v w g) where
  pub still_there :
      (vs : List ℕ)
      → (v == w || not (contains w vs)) ≡ true
      → all_of (has_vertex h) vs ≡ true
      → all_of (has_vertex g) vs ≡ true
  still_there [] e a = refl
  still_there (x ∷ vs) e a = ground (arith, still_there vs, m.vertices x)

  gone : (vs : List ℕ) → (v == w || not (contains w vs)) ≡ false → all_of (has_vertex g) vs ≡ false
  gone [] e = ground arith
  gone (x ∷ vs) e = ground (arith, gone vs, m.vertices w, m.vertices x)

  still_missing :
      (vs : List ℕ) → all_of (has_vertex h) vs ≡ false → all_of (has_vertex g) vs ≡ false
  still_missing [] a = cc
  still_missing (x ∷ vs) a = ground (arith, still_missing vs, m.vertices x)

merge_pairs-ok :
    (h g : Hypergraph) (v w x : ℕ) (vs ws : List ℕ)
    → merge_vertices h v w ≡ ok (g, x)
    → merge_pairs h (v ∷ vs) (w ∷ ws) ≡ merge_pairs g vs ws
unfolding merge_pairs
merge_pairs-ok h g v w x vs ws e = rw (e, merge_pairs)

merge_pairs-err :
    (h : Hypergraph) (v w : ℕ) (vs ws : List ℕ)
    → (has_vertex h v && has_vertex h w) ≡ false
    → merge_pairs h (v ∷ vs) (w ∷ ws) ≡ err invalid_input
unfolding merge_pairs merge_vertices
merge_pairs-err h v w vs ws e = rw (e, merge_pairs, merge_vertices)

merge_pairs-missing :
    (h : Hypergraph) (vs ws : List ℕ)
    → IsWf h
    → length vs ≡ length ws
    → (all_of (has_vertex h) vs && all_of (has_vertex h) ws) ≡ false
    → merge_pairs h vs ws ≡ err invalid_input
merge_pairs-missing h [] [] wf l a = cc
merge_pairs-missing h [] (w ∷ ws) wf l a = absurd (omega arith)
merge_pairs-missing h (v ∷ vs) [] wf l a = absurd (omega arith)
merge_pairs-missing h (v ∷ vs) (w ∷ ws) wf l a =
    elim (Bool-cases (has_vertex h v && has_vertex h w)) [
      | inr e ↦ merge_pairs-err h v w vs ws e
      | inl e ↦
          let hv : has_vertex h v ≡ true = ground arith in
          let hw : has_vertex h w ≡ true = ground arith in
          let (g, returned, m) = merge_vertices_lem h v w wf hv hw in
          merge_pairs-ok h g v w v vs ws returned
          ∙ merge_pairs-missing g vs ws m.well_formed (omega arith)
              (ground (arith, still_missing h g v w m vs, still_missing h g v w m ws))
    ]

-- What the loop leaves when it runs to its end.
pub record MergedAll (h : Hypergraph) (vs ws : List ℕ) (g : Hypergraph) : Type 0 where
  pub well_formed : IsWf g
  pub edges : (i : ℕ) → lookup i g.edges ≡ moved_all vs ws (lookup i h.edges)

pub merge_pairs_lem :
    (h : Hypergraph) (vs ws : List ℕ)
    → IsWf h
    → length vs ≡ length ws
    → all_of (has_vertex h) vs ≡ true
    → all_of (has_vertex h) ws ≡ true
    → mergeable vs ws ≡ true
    → (g : Hypergraph) × (merge_pairs h vs ws ≡ ok g) × MergedAll h vs ws g
unfolding merge_pairs
merge_pairs_lem h [] ws wf l a b c = (h, refl, record { well_formed = wf; edges = λ i. refl })
merge_pairs_lem h (v ∷ vs) [] wf l a b c = absurd (omega arith)
merge_pairs_lem h (v ∷ vs) (w ∷ ws) wf l a b c =
    let hv : has_vertex h v ≡ true = ground arith in
    let hw : has_vertex h w ≡ true = ground arith in
    let (g, returned, m) = merge_vertices_lem h v w wf hv hw in
    let a' : all_of (has_vertex g) vs ≡ true =
      still_there h g v w m vs (ground arith) (ground arith) in
    let b' : all_of (has_vertex g) ws ≡ true =
      still_there h g v w m ws (ground arith) (ground arith) in
    let (g', returned', r) =
      merge_pairs_lem g vs ws m.well_formed (omega arith) a' b' (ground arith) in
    (
      g',
      merge_pairs-ok h g v w v vs ws returned ∙ returned',
      record {
        well_formed = r.well_formed;
        edges = λ i. r.edges i ∙ ap (moved_all vs ws) (m.edges i);
      },
    )

pub merge_pairs-overlap :
    (h : Hypergraph) (vs ws : List ℕ)
    → IsWf h
    → length vs ≡ length ws
    → all_of (has_vertex h) vs ≡ true
    → all_of (has_vertex h) ws ≡ true
    → mergeable vs ws ≡ false
    → merge_pairs h vs ws ≡ err invalid_input
merge_pairs-overlap h [] ws wf l a b c = cc
merge_pairs-overlap h (v ∷ vs) [] wf l a b c = cc
merge_pairs-overlap h (v ∷ vs) (w ∷ ws) wf l a b c =
    let hv : has_vertex h v ≡ true = ground arith in
    let hw : has_vertex h w ≡ true = ground arith in
    let (g, returned, m) = merge_vertices_lem h v w wf hv hw in
    merge_pairs-ok h g v w v vs ws returned
    ∙ elim (Bool-cases (v == w || not (contains w vs) && not (contains w ws))) [
      | inr e ↦
          merge_pairs-missing g vs ws m.well_formed (omega arith)
            (ground (arith, gone h g v w m vs, gone h g v w m ws))
      | inl e ↦
          let a' : all_of (has_vertex g) vs ≡ true =
            still_there h g v w m vs (ground arith) (ground arith) in
          let b' : all_of (has_vertex g) ws ≡ true =
            still_there h g v w m ws (ground arith) (ground arith) in
          merge_pairs-overlap g vs ws m.well_formed (omega arith) a' b' (ground arith)
    ]
