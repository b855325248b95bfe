-- ===== src/Engine/MatchFinder/Morphism.antt =====
-- A match of the edges becomes a morphism when the vertices without an edge are mapped.
use uncover.Engine.MatchFinder.Free.{IsFilling, get_tar-has_tar}
use uncover.Base.{
  ℕ, ◌≡◌, List, [], ◌∷◌, true, false, not, ◌&&◌, none, arith, contains, Bool-cases, Option-cases,
  List-cases, inl, inr, ◌∙◌, sym, keys, contains-keys, select, contains-select, has_key, some,
}
use uncover.Graphs.Hypergraph.{Hypergraph, Edge, has_edge, has_vertex, edges_at}
use uncover.Graphs.Mapping.{Mapping, get_tar, has_src}
use uncover.Engine.MatchFinder.{Problem}
use uncover.Engine.MatchFinder.Partial.{
  IsMorphism, Extends, is_attached, edge_sent_mono, edge_sent-cases, carries-has_src,
  IsAlmostInjective,
}
use uncover.Engine.MatchFinder.Nodes.{edges_at-lookup}
use uncover.Engine.MatchFinder.Invariant.{Input, unmapped}
use uncover.Engine.MatchFinder.Targets.{IsEdgeMatch}
use uncover.Engine.MatchFinder.Filled.{IsFilled}
use uncover.Engine.MatchFinder.Added.{Chooses}

unmapped_none :
    (m : Mapping) (e : ℕ) (edges : List (ℕ × Edge))
    → unmapped m edges ≡ 0
    → has_key e edges ≡ true
    → has_src m e ≡ true
unmapped_none m e [] u k = cc
unmapped_none m e ((j, a) ∷ edges) u k = ground (arith, unmapped_none m e edges)

is_attached-edge :
    (h : Hypergraph) (v : ℕ)
    → is_attached h v ≡ true
    → (e : ℕ) × (contains e (edges_at h.connected v) ≡ true)
is_attached-edge h v a = elim (List-cases (edges_at h.connected v)) [
  | inl empty ↦ absurd (ground (arith, a, empty))
  | inr (e, es, is) ↦ (e, ground (arith, is))
]

-- A vertex with an edge is mapped together with the edge.
attached-mapped :
    (p : Problem) (m : Mapping) (v : ℕ)
    → Input p
    → IsEdgeMatch p m
    → is_attached p.source v ≡ true
    → has_src m v ≡ true
attached-mapped p m v given match h =
    let (e, c) = is_attached-edge p.source v h in
    let (a, is_a, inside) = edges_at-lookup p.source v e given.source_wf c in
    let mapped : has_src m e ≡ true =
      unmapped_none m e p.source.edges match.all_edges (ground (arith, is_a)) in
    elim (Option-cases (get_tar m e)) [
      | inl gone ↦ absurd (ground (arith, gone, mapped))
      | inr (t, at) ↦
          let (a', b, is_a', is_b, label, c') =
            edge_sent-cases p.source p.target m e t
              (match.partial.edges e t (ground (arith, is_a)) at) in
          carries-has_src m v a'.vertices b.vertices c' (ground (arith, is_a, is_a', inside))
    ]

-- The vector `isolatedNodes`.
abbrev pub isolated : Problem → Mapping → List ℕ
isolated p m = select (λ v. not (has_src m v)) (keys p.source.vertices)

-- It holds the vertices without an edge, for every match of the edges.
pub isolated-contains :
    (p : Problem) (m : Mapping) (v : ℕ)
    → Input p
    → IsEdgeMatch p m
    → contains v (isolated p m) ≡ (has_vertex p.source v && not (is_attached p.source v))
isolated-contains p m v given match =
    let listed : contains v (isolated p m) ≡ (has_vertex p.source v && not (has_src m v)) = ground (
      arith,
      contains-select (λ v. not (has_src m v)) (keys p.source.vertices) v,
      contains-keys v p.source.vertices,
    ) in
    elim (Bool-cases (is_attached p.source v)) [
      | inl near ↦ ground (arith, listed, near, attached-mapped p m v given match near)
      | inr far ↦ ground (arith, listed, far, match.domain v, given.source_wf.separate v)
    ]

-- A list of the vertices without an edge.
abbrev pub HoldsIsolated : Problem → List ℕ → Type 0
HoldsIsolated p is =
    (v : ℕ) → contains v is ≡ (has_vertex p.source v && not (is_attached p.source v))

pub fresh-isolated :
    (p : Problem) (is : List ℕ) (m : Mapping) (v : ℕ)
    → Input p
    → HoldsIsolated p is
    → IsEdgeMatch p m
    → contains v is ≡ true
    → get_tar m v ≡ none
fresh-isolated p is m v given h match c =
    ground (arith, h v, c, match.domain v, given.source_wf.separate v)

pub IsFilled-IsMorphism :
    (p : Problem) (is : List ℕ) (m k : Mapping)
    → Input p
    → HoldsIsolated p is
    → IsEdgeMatch p m
    → IsFilled is (keys p.target.vertices) m k
    → IsMorphism p.source p.target k
IsFilled-IsMorphism p is m k given h match filled =
    let apart : (e : ℕ) → has_edge p.source e ≡ true → contains e is ≡ false =
      λ e c. ground (arith, c, h e, given.source_wf.separate e) in
    let above : Extends k m = λ i t at. elim (Bool-cases (contains i is)) [
      | inr c ↦ filled.others i c ∙ at
      | inl c ↦ absurd (ground (arith, at, fresh-isolated p is m i given h match c))
    ] in
    record {
      partial = record {
        edges = λ e t c at.
            edge_sent_mono p.source p.target k m e t above
              (match.partial.edges e t c (sym (filled.others e (apart e c)) ∙ at));
        vertices = λ v x c at. elim (Bool-cases (contains v is)) [
          | inr d ↦ match.partial.vertices v x c (sym (filled.others v d) ∙ at)
          | inl d ↦
              let (t, at', e) = filled.filled v d in
              ground (arith, at, at', e, contains-keys t p.target.vertices)
        ];
      };
      all_vertices = λ v c. elim (Bool-cases (contains v is)) [
        | inl d ↦ let (t, at, e) = filled.filled v d in ground (arith, at)
        | inr d ↦
            let near : is_attached p.source v ≡ true = ground (arith, c, d, h v) in
            ground (arith, filled.others v d, attached-mapped p m v given match near)
      ];
      all_edges = λ e c.
          ground (
            arith,
            filled.others e (apart e c),
            unmapped_none m e p.source.edges match.all_edges c,
          );
    }

-- The vertices of one edge are the only ones that may share a target.
pub IsFilling-apart :
    (p : Problem) (is : List ℕ) (m k : Mapping)
    → IsEdgeMatch p m
    → IsFilling p is m k
    → p.injective ≡ true
    → IsAlmostInjective p.source k
IsFilling-apart p is m k match (filled, fresh) j x y t at at' =
    let other : (u v : ℕ)
        → contains u is ≡ true
        → contains v is ≡ false
        → get_tar k u ≡ some t
        → get_tar k v ≡ some t
        → ⊥ =
      λ u v c c' h h'.
        let taken = get_tar-has_tar m v t (sym (filled.others v c') ∙ h') in
        ground (arith, taken, (fresh j).free u t c h) in
    elim (Bool-cases (contains x is)) [
      | inl c ↦ elim (Bool-cases (contains y is)) [
        | inl c' ↦ inl ((fresh j).single x y t c c' at at')
        | inr c' ↦ absurd (other x y c c' at at')
      ]
      | inr c ↦ elim (Bool-cases (contains y is)) [
        | inl c' ↦ absurd (other y x c' c at' at)
        | inr c' ↦
            match.apart j x y t (sym (filled.others x c) ∙ at) (sym (filled.others y c') ∙ at')
      ]
    ]

pub IsMorphism-Chooses :
    (p : Problem) (is : List ℕ) (f : Mapping)
    → HoldsIsolated p is
    → IsMorphism p.source p.target f
    → Chooses f is (keys p.target.vertices)
IsMorphism-Chooses p is f h morphism v c =
    let vertex : has_vertex p.source v ≡ true = ground (arith, c, h v) in
    elim (Option-cases (get_tar f v)) [
      | inl gone ↦ absurd (ground (arith, gone, morphism.all_vertices v vertex))
      | inr (t, at) ↦
          let target = morphism.partial.vertices v t vertex at in
          (t, at, ground (arith, target, contains-keys t p.target.vertices))
    ]
