-- ===== src/Engine/MatchFinder/Choose.antt =====
-- How mapEdges chooses the edge that is mapped next, and the targets that it tries.
use uncover.Engine.MatchFinder.Nodes.{lookup-edges_at}
use uncover.Graphs.Mapping.Inverse.{sends-get_tar}
use uncover.Base.{
  contains-select, ℕ, ◌≡◌, ◌⊎◌, refl, List, [], ◌∷◌, Bool, true, false, not, ◌&&◌, none, some,
  arith, contains, insert_id, contains-insert_id, has_key, select, ◌==◌, ap, Bool-cases, inl, inr,
  length, Option-cases, ◌<◌, ltb, suc, keys, List-cases, contains-keys,
}
use uncover.Graphs.Hypergraph.{edges_at, has_vertex, Edge, has_edge, has_vertex, edges_at}
use uncover.Graphs.Mapping.{Mapping, has_src, get_tar}
use uncover.Engine.MatchFinder.{
  ok, Problem, Search, is_map_possible, entry_loop, first_mapped, unique_possible, choose,
  from_node, from_new_entry, get_new_entry_point, edges_at,
}
use uncover.Engine.MatchFinder.Partial.{edge_sent, Extends, carries, edge_sent-cases}
use uncover.Engine.MatchFinder.Extend.{touched}
use uncover.Engine.MatchFinder.Invariant.{unmapped, Input, Invariant, vertices-attached}

entry_loop-some :
    (current : Mapping) (edges : List (ℕ × Edge)) (n₀ e₀ : ℕ)
    → (n : ℕ) × (e : ℕ) × (entry_loop current edges (some (n₀, e₀)) ≡ some (n, e))
      × (((has_key e edges && not (has_src current e)) ≡ true) ⊎ (e ≡ e₀))
unfolding entry_loop
entry_loop-some current [] n₀ e₀ = (n₀, e₀, refl, inr refl)
entry_loop-some current ((j, a) ∷ edges) n₀ e₀ =
    elim (Bool-cases (not (has_src current j) && ltb n₀ (length a.vertices))) [
      | inr b ↦
          let (n, e, is, origin) = entry_loop-some current edges n₀ e₀ in
          (
            n,
            e,
            ground (arith, b, is),
            elim origin [ inl o ↦ inl (ground (arith, o)) | inr o ↦ inr o ],
          )
      | inl b ↦
          let (n, e, is, origin) = entry_loop-some current edges (length a.vertices) j in
          (
            n,
            e,
            ground (arith, b, is),
            elim origin [ inl o ↦ inl (ground (arith, o)) | inr o ↦ inl (ground (arith, o, b)) ],
          )
    ]

entry_loop-none :
    (current : Mapping) (edges : List (ℕ × Edge))
    → 0 < unmapped current edges
    → (n : ℕ) × (e : ℕ) × (entry_loop current edges none ≡ some (n, e))
      × ((has_key e edges && not (has_src current e)) ≡ true)
unfolding entry_loop
entry_loop-none current [] h = absurd (omega arith)
entry_loop-none current ((j, a) ∷ edges) h = elim (Bool-cases (has_src current j)) [
  | inl b ↦
      let (n, e, is, free) = entry_loop-none current edges (ground (arith, b, h)) in
      (n, e, ground (arith, b, is), ground (arith, free))
  | inr b ↦
      let (n, e, is, origin) = entry_loop-some current edges (length a.vertices) j in
      (
        n,
        e,
        ground (arith, b, is),
        elim origin [ inl o ↦ ground (arith, o) | inr o ↦ ground (arith, o, b) ],
      )
]

touched-first_mapped :
    (current : Mapping) (vs : List ℕ)
    → touched current vs ≡ true
    → (v : ℕ) × (x : ℕ) × (first_mapped current vs ≡ some x)
      × (contains v vs ≡ true)
      × (get_tar current v ≡ some x)
unfolding first_mapped
touched-first_mapped current [] h = cc
touched-first_mapped current (v ∷ vs) h = elim (Option-cases (get_tar current v)) [
  | inr (x, is_x) ↦ (v, x, ground (arith, is_x), ground arith, is_x)
  | inl gone ↦
      let (w, x, first, c, is_x) = touched-first_mapped current vs (ground (arith, gone, h)) in
      (w, x, ground (arith, gone, first), ground (arith, c), is_x)
]

contains-unique_possible :
    (q : ℕ → Bool) (seen ts : List ℕ) (t : ℕ)
    → contains t (unique_possible q seen ts) ≡ (contains t ts && q t && not (contains t seen))
unfolding unique_possible
contains-unique_possible q seen [] t = refl
contains-unique_possible q seen (u ∷ ts) t = elim (Bool-cases (u == t)) [
  | inl same ↦
      let is_t : u ≡ t = ground (arith, same) in
      ground (
        arith,
        same,
        ap q is_t,
        ap (λ k. contains k seen) is_t,
        contains-unique_possible q (insert_id u seen) ts t,
        contains-unique_possible q seen ts t,
        contains-insert_id u t seen,
      )
  | inr other ↦ ground (
    arith,
    other,
    contains-unique_possible q (insert_id u seen) ts t,
    contains-unique_possible q seen ts t,
    contains-insert_id u t seen,
  )
]

-- An edge that is not mapped, with exactly the possible targets that a mapping above the current
-- one can have.
pub record Choice (p : Problem) (s : Search) (e : ℕ) (ts : List ℕ) : Type 0 where
  pub is_ok : choose p s ≡ ok (e, ts)
  pub is_edge : has_edge p.source e ≡ true
  pub fresh : has_src s.current e ≡ false
  pub possible :
      (t : ℕ) → contains t ts ≡ true → is_map_possible p e t s.current s.rev_current ≡ true
  pub complete :
      (f : Mapping) (t : ℕ)
      → Extends f s.current
      → edge_sent p.source p.target f e t ≡ true
      → is_map_possible p e t s.current s.rev_current ≡ true
      → contains t ts ≡ true

carries-contains :
    (f : Mapping) (v x : ℕ) (vs ws : List ℕ)
    → carries f vs ws ≡ true
    → contains v vs ≡ true
    → get_tar f v ≡ some x
    → contains x ws ≡ true
carries-contains f v x [] ws c k h = cc
carries-contains f v x (u ∷ vs) [] c k h = cc
carries-contains f v x (u ∷ vs) (w ∷ ws) c k h =
    ground (arith, carries-contains f v x vs ws, sends-get_tar f u w)

choose_new :
    (p : Problem) (s : Search) (k e : ℕ)
    → s.mappable ≡ []
    → entry_loop s.current p.source.edges none ≡ some (k, e)
    → choose p s
      ≡ ok (e, select (λ t. is_map_possible p e t s.current s.rev_current) (keys p.target.edges))
unfolding choose from_new_entry get_new_entry_point
choose_new p s k e empty found = ground (arith, empty, found)

from_new_entry-Choice :
    (p : Problem) (n : ℕ) (s : Search)
    → Invariant p (suc n) s
    → s.mappable ≡ []
    → (e : ℕ) × (ts : List ℕ) × Choice p s e ts
from_new_entry-Choice p n s inv empty =
    let (k, e, found, free) =
      entry_loop-none s.current p.source.edges (ground (arith, inv.counted)) in
    let q : ℕ → Bool = λ t. is_map_possible p e t s.current s.rev_current in
    (
      e,
      select q (keys p.target.edges),
      record {
        is_ok = choose_new p s k e empty found;
        is_edge = ground (arith, free);
        fresh = ground (arith, free);
        possible = λ t c. ground (arith, c, contains-select q (keys p.target.edges) t);
        complete = λ f t x sent h.
            let (a, b, is_a, is_b, label, c) = edge_sent-cases p.source p.target f e t sent in
            ground (
              arith,
              is_b,
              h,
              contains-select q (keys p.target.edges) t,
              contains-keys t p.target.edges,
            );
      },
    )

from_node-Choice :
    (p : Problem) (n e : ℕ) (es : List ℕ) (s : Search)
    → Input p
    → Invariant p (suc n) s
    → s.mappable ≡ e ∷ es
    → (ts : List ℕ) × Choice p s e ts
unfolding choose from_node
from_node-Choice p n e es s given inv full =
    let (a, is_a, fresh, near) = inv.open_edges e (ground (arith, full)) in
    let (v, x, first, inside, is_x) = touched-first_mapped s.current a.vertices near in
    let (vertex, _) = vertices-attached p.source e v a given.source_wf is_a inside in
    let target : has_vertex p.target x ≡ true = inv.partial.vertices v x vertex is_x in
    let keyed : has_key x p.target.connected ≡ true =
      ground (arith, target, given.target_wf.keyed x) in
    let q : ℕ → Bool = λ t. is_map_possible p e t s.current s.rev_current in
    let near_x = edges_at p.target.connected x in
    (
      unique_possible q [] near_x,
      record {
        is_ok = ground (arith, full, is_a, first, keyed);
        is_edge = ground (arith, is_a);
        fresh = fresh;
        possible = λ t c. ground (arith, c, contains-unique_possible q [] near_x t);
        complete = λ f t ext sent h.
            let (a', b, is_a', is_b, label, c) = edge_sent-cases p.source p.target f e t sent in
            let inside' : contains v a'.vertices ≡ true = ground (arith, is_a, is_a', inside) in
            let image = carries-contains f v x a'.vertices b.vertices c inside' (ext v x is_x) in
            let found = lookup-edges_at p.target x t b given.target_wf is_b image in
            ground (arith, found, h, contains-unique_possible q [] near_x t);
      },
    )

-- In a state with the invariant and an edge left, on graphs that the search can be called with, an
-- edge is chosen, so neither error of the search occurs. The edge is not mapped, its targets are
-- possible, and they hold every possible target to which a mapping above the state can send it.
pub choose_lem :
    (p : Problem) (n : ℕ) (s : Search)
    → Input p
    → Invariant p (suc n) s
    → (e : ℕ) × (ts : List ℕ) × Choice p s e ts
choose_lem p n s given inv = elim (List-cases s.mappable) [
  | inl empty ↦ from_new_entry-Choice p n s inv empty
  | inr (e, es, full) ↦ let (ts, c) = from_node-Choice p n e es s given inv full in (e, ts, c)
]
