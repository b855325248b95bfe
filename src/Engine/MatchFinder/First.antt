-- ===== src/Engine/MatchFinder/First.antt =====
-- mapIsolatedNodes when it stops at the first match, and why the target has room for an injective
-- one.
use uncover.Engine.MatchFinder.Filled.{IsFilled}
use uncover.Engine.MatchFinder.Added.{sequences}
use uncover.Engine.MatchFinder.Isolated.{extend_first}
use uncover.Engine.ExpEnumerator.Count.{power}
use native.Mathlib.Nat.{mul-le-mul_right}
use uncover.Base.{
  zero, suc, List-cases, not, ◌+◌, ℕ, ◌≡◌, true, false, some, arith, Bool-cases, Option-cases, inl,
  inr, length, keys, contains-keys, select, contains-select, select-IsDistinct, select-complement,
  pigeonhole, ◌≤◌, ◌<◌, ◌^◌, suc, ◌+◌, List, ◌∷◌, IsDistinct, [], not, List-cases, ap,
}
use uncover.Graphs.Hypergraph.{has_edge, has_vertex, ok}
use uncover.Graphs.Mapping.{Mapping, get_tar, has_tar, has_src}
use uncover.Engine.MatchFinder.{Problem, ok}
use uncover.Engine.MatchFinder.Partial.{IsMorphism, IsInjective, edge_sent-cases}
use uncover.Engine.MatchFinder.Invariant.{Input}
use uncover.Engine.MatchFinder.Targets.{IsEdgeMatch}
use uncover.Engine.MatchFinder.Find.{too_big}
use uncover.Engine.MatchFinder.Morphism.{isolated, fresh-isolated, isolated-contains}
use uncover.Engine.MatchFinder.Free.{
  unused, has_tar-get_tar, keys-IsDistinct, length-keys, map_all_to_lem, map_free_lem, IsFilling,
}

-- An injective morphism needs as many vertices and edges in the target as in the source.
pub injective-fits :
    (p : Problem) (f : Mapping)
    → Input p
    → IsMorphism p.source p.target f
    → IsInjective f
    → too_big p ≡ false
injective-fits p f given morphism j =
    let R : ℕ → ℕ → Type 0 = λ s t. get_tar f s ≡ some t in
    let vertices : length (keys p.source.vertices) ≤ length (keys p.target.vertices) =
      pigeonhole R (keys p.source.vertices) (keys p.target.vertices)
        (keys-IsDistinct p.source.vertices given.source_ordered)
        (λ v c.
          let vertex : has_vertex p.source v ≡ true =
            ground (arith, c, contains-keys v p.source.vertices) in
          elim (Option-cases (get_tar f v)) [
            | inl gone ↦ absurd (ground (arith, gone, morphism.all_vertices v vertex))
            | inr (t, at) ↦
                let there = morphism.partial.vertices v t vertex at in
                (t, ground (arith, there, contains-keys t p.target.vertices), at)
          ])
        (λ s s' t a b. j s s' t a b) in
    let edges : length (keys p.source.edges) ≤ length (keys p.target.edges) =
      pigeonhole R (keys p.source.edges) (keys p.target.edges)
        (keys-IsDistinct p.source.edges given.ordered)
        (λ e c.
          let edge : has_edge p.source e ≡ true =
            ground (arith, c, contains-keys e p.source.edges) in
          elim (Option-cases (get_tar f e)) [
            | inl gone ↦ absurd (ground (arith, gone, morphism.all_edges e edge))
            | inr (t, at) ↦
                let (a, b, is_a, is_b, _, _) =
                  edge_sent-cases p.source p.target f e t (morphism.partial.edges e t edge at) in
                (t, ground (arith, is_b, contains-keys t p.target.edges), at)
          ])
        (λ s s' t a b. j s s' t a b) in
    ground (
      arith,
      vertices,
      edges,
      length-keys p.source.vertices,
      length-keys p.target.vertices,
      length-keys p.source.edges,
      length-keys p.target.edges,
    )

-- Only vertices are mapped to vertices.
vertex-source :
    (p : Problem) (m : Mapping) (s t : ℕ)
    → Input p
    → IsEdgeMatch p m
    → get_tar m s ≡ some t
    → has_vertex p.target t ≡ true
    → has_vertex p.source s ≡ true
vertex-source p m s t given match at vertex = elim (Bool-cases (has_edge p.source s)) [
  | inr no_edge ↦
      ground (arith, no_edge, match.domain s (ground (arith, at)), given.source_wf.keyed s)
  | inl edge ↦
      let (a, b, _, is_b, _, _) =
        edge_sent-cases p.source p.target m s t (match.partial.edges s t edge at) in
      absurd (ground (arith, is_b, vertex, given.target_wf.separate t))
]

-- A match of the edges leaves as many vertices of the target free as it leaves unmapped.
enough-unused :
    (p : Problem) (m : Mapping)
    → Input p
    → IsEdgeMatch p m
    → length (keys p.source.vertices) ≤ length (keys p.target.vertices)
    → length (isolated p m) ≤ length (unused m (keys p.target.vertices))
enough-unused p m given match fits =
    let used = select (has_tar m) (keys p.target.vertices) in
    let mapped = select (has_src m) (keys p.source.vertices) in
    let fewer : length used ≤ length mapped =
      pigeonhole (λ t s. get_tar m s ≡ some t) used mapped
        (select-IsDistinct (has_tar m) (keys p.target.vertices)
          (keys-IsDistinct p.target.vertices given.target_ordered))
        (λ t c.
          let split = contains-select (has_tar m) (keys p.target.vertices) t in
          let vertex : has_vertex p.target t ≡ true =
            ground (arith, c, split, contains-keys t p.target.vertices) in
          let (s, at) = has_tar-get_tar m t match.ordered (ground (arith, c, split)) in
          let vertex' = vertex-source p m s t given match at vertex in
          let listed = contains-select (has_src m) (keys p.source.vertices) s in
          (s, ground (arith, at, vertex', listed, contains-keys s p.source.vertices), at))
        (λ t t' s a b. ground (arith, a, b)) in
    ground (
      arith,
      fewer,
      fits,
      select-complement (has_tar m) (keys p.target.vertices),
      select-complement (has_src m) (keys p.source.vertices),
    )

power-suc : (b k : ℕ) → power b k ≤ power b (suc k)
power-suc b k =
    let grows : 1 ≤ b + 1 = omega arith in omega (arith, mul-le-mul_right (power b k) grows)

pub power-below : (b k j : ℕ) → power b k ≤ power b (k + j)
power-below b k zero = ground arith
power-below b k (suc j) =
    let up : k + suc j ≡ suc (k + j) = omega arith in
    ground (arith, ap (power b) up, power-below b k j, power-suc b (k + j))

-- What findMatches needs: that a size_t counts the vertices, fuel for the sequences of targets, and
-- a vertex that the first match can use.
pub record Enough (p : Problem) (n : ℕ) : Type 0 where
  pub small : length (keys p.target.vertices) < 2 ^ 64
  pub fuel : sequences (keys p.source.vertices) (keys p.target.vertices) ≤ n
  pub target : p.injective ≡ false → p.stop_on_first ≡ true → 0 < length (keys p.target.vertices)

extend_first-some :
    (p : Problem) (is : List ℕ) (m : Mapping)
    → p.injective ≡ false
    → 0 < length (keys p.target.vertices)
    → IsDistinct is
    → (k : Mapping) × (extend_first p is m ≡ ok (k ∷ [])) × IsFilled is (keys p.target.vertices) m k
unfolding extend_first
extend_first-some p is m free some_vertex d = elim (List-cases p.target.vertices) [
  | inl empty ↦ absurd (ground (arith, empty, some_vertex))
  | inr ((t, x), rest, full) ↦ (
    _,
    ground (arith, free, full),
    map_all_to_lem is (keys p.target.vertices) t m d (ground (arith, full)),
  )
]

pub extend_first_lem :
    (p : Problem) (n : ℕ) (m : Mapping)
    → Input p
    → Enough p n
    → p.stop_on_first ≡ true
    → too_big p ≡ false
    → IsEdgeMatch p m
    → (k : Mapping) × (extend_first p (isolated p m) m ≡ ok (k ∷ []))
      × IsFilling p (isolated p m) m k
unfolding extend_first
extend_first_lem p n m given enough stop fits match =
    let d : IsDistinct (isolated p m) =
      select-IsDistinct (λ v. not (has_src m v)) (keys p.source.vertices)
        (keys-IsDistinct p.source.vertices given.source_ordered) in
    let d' = keys-IsDistinct p.target.vertices given.target_ordered in
    elim (Bool-cases p.injective) [
      | inr free ↦
          let (k, is_ok, h) =
            extend_first-some p (isolated p m) m free (enough.target free stop) d in
          (k, is_ok, (h, λ j. absurd (ground (arith, j, free))))
      | inl inj ↦
          let small : length (keys p.source.vertices) ≤ length (keys p.target.vertices) =
            ground
              (arith, inj, fits, length-keys p.source.vertices, length-keys p.target.vertices) in
          let (k, is_ok, h, fresh) =
            map_free_lem (isolated p m) p.target.vertices m d
              (λ i c.
                fresh-isolated p (isolated p m) m i given (λ v. isolated-contains p m v given match)
                  match c)
              d' (enough-unused p m given match small) in
          (k, ground (arith, inj, is_ok), (h, λ j. fresh))
    ]
