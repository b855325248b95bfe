-- ===== src/Graphs/Hypergraph/Redirect.antt =====
-- The loop of mergeVertices that redirects the edges of the vertex that goes.
use uncover.Base.{
  ◌∙◌, ℕ, zero, suc, ◌+◌, ◌≡◌, refl, List, [], ◌∷◌, true, false, ◌&&◌, Option, none, some, arith,
  lookup, has_key, insert, lookup-insert, contains, count, ◌==◌, if◌then◌else◌, Option-cases, inl,
  inr,
}
use uncover.Graphs.Hypergraph.{
  Hypergraph, Edge, edges_at, redirect, insert_times, renamed, has_edge, ok,
}
use uncover.Graphs.Hypergraph.Incidence.{
  occurs, has_key-insert, edges_at-insert, contains-count, count-contains,
}

count-insert_times :
    (n e i : ℕ) (es : List ℕ)
    → count i (insert_times n e es) ≡ (if e == i then n else 0) + count i es
count-insert_times zero e i es = ground arith
count-insert_times (suc n) e i es = ground (arith, count-insert_times n e i es)

-- Where the copies of `from` go.
pub count-renamed :
    (from to u : ℕ) (vs : List ℕ)
    → count u (renamed from to vs) ≡ (
        if to == u
        then (if from == u then 0 else count u vs) + count from vs
        else if from == u
        then 0
        else count u vs)
count-renamed from to u [] = ground arith
count-renamed from to u (x ∷ vs) = ground (arith, count-renamed from to u vs)

renamed-renamed :
    (from to : ℕ) (vs : List ℕ)
    → (from == to) ≡ false
    → renamed from to (renamed from to vs) ≡ renamed from to vs
renamed-renamed from to [] d = refl
renamed-renamed from to (x ∷ vs) d = ground (arith, renamed-renamed from to vs d)

renamed-fresh : (from to : ℕ) (vs : List ℕ) → contains from vs ≡ false → renamed from to vs ≡ vs
renamed-fresh from to [] c = refl
renamed-fresh from to (x ∷ vs) c = ground (arith, renamed-fresh from to vs)

renamed-same : (v : ℕ) (vs : List ℕ) → renamed v v vs ≡ vs
renamed-same v [] = refl
renamed-same v (x ∷ vs) = ground (arith, renamed-same v vs)

-- An edge whose attached vertices had `from` replaced by `to`.
abbrev pub moved : ℕ → ℕ → Option Edge → Option Edge
moved from to none = none
moved from to (some ed) = some (record ed { vertices = renamed from to ed.vertices })

moved-moved :
    (from to : ℕ) (o : Option Edge)
    → (from == to) ≡ false
    → moved from to (moved from to o) ≡ moved from to o
moved-moved from to none d = refl
moved-moved from to (some ed) d = rw (renamed-renamed from to ed.vertices d) refl

pub moved-same : (v : ℕ) (o : Option Edge) → moved v v o ≡ o
moved-same v none = refl
moved-same v (some ed) = rw (renamed-same v ed.vertices) refl

pub moved-fresh :
    (from to i : ℕ) (edges : List (ℕ × Edge))
    → occurs edges from i ≡ 0
    → moved from to (lookup i edges) ≡ lookup i edges
moved-fresh from to i edges c = elim (Option-cases (lookup i edges)) [
  | inl e ↦ rw e refl
  | inr (ed, e) ↦
      let fresh : contains from ed.vertices ≡ false =
        ground (arith, e, contains-count from ed.vertices) in
      rw (e, renamed-fresh from to ed.vertices fresh)
]

module _ (to from : ℕ) (differ : (from == to) ≡ false) where
  -- What the loop of mergeVertices does to the edges and the multiset of `to`.
  pub record Redirected (es : List ℕ) (h g : Hypergraph) : Type 0 where
    pub vertices : g.vertices ≡ h.vertices
    pub counter : g.last_used_id ≡ h.last_used_id
    pub edges :
        (i : ℕ)
        → lookup i g.edges
          ≡ (if contains i es then moved from to (lookup i h.edges) else lookup i h.edges)
    pub keyed : (u : ℕ) → has_key u g.connected ≡ has_key u h.connected
    pub counts :
        (u i : ℕ)
        → count i (edges_at g.connected u)
          ≡ count i (edges_at h.connected u)
            + (if to == u && contains i es then occurs h.edges from i else 0)

  abbrev one : ℕ → Edge → Hypergraph → Hypergraph
  one e ed h = record h {
    edges = insert e (record ed { vertices = renamed from to ed.vertices }) h.edges;
    connected =
        if contains from ed.vertices
        then insert to (insert_times (count from ed.vertices) e (edges_at h.connected to))
            h.connected
        else h.connected;
  }

  redirect-cons :
      (e : ℕ) (es : List ℕ) (ed : Edge) (h : Hypergraph)
      → lookup e h.edges ≡ some ed
      → redirect to from (e ∷ es) h ≡ redirect to from es (one e ed h)
  unfolding redirect
  redirect-cons e es ed h this = rw (this, redirect)

  one-edges :
      (e i : ℕ) (ed : Edge) (h : Hypergraph)
      → lookup e h.edges ≡ some ed
      → lookup i (one e ed h).edges
        ≡ (if e == i then moved from to (lookup i h.edges) else lookup i h.edges)
  one-edges e i ed h this =
      ground
        (arith, lookup-insert e i (record ed { vertices = renamed from to ed.vertices }) h.edges)

  one-counts :
      (e i u : ℕ) (ed : Edge) (h : Hypergraph)
      → count i (edges_at (one e ed h).connected u)
        ≡ count i (edges_at h.connected u)
          + (if to == u && e == i then count from ed.vertices else 0)
  one-counts e i u ed h = ground (
    arith,
    edges_at-insert to u (insert_times (count from ed.vertices) e (edges_at h.connected to))
        h.connected,
    count-insert_times (count from ed.vertices) e i (edges_at h.connected to),
    count-contains from ed.vertices,
  )

  one-keyed :
      (e u : ℕ) (ed : Edge) (h : Hypergraph)
      → has_key to h.connected ≡ true
      → has_key u (one e ed h).connected ≡ has_key u h.connected
  one-keyed e u ed h k = ground (
    arith,
    has_key-insert to u (insert_times (count from ed.vertices) e (edges_at h.connected to))
        h.connected,
  )

  -- The loop finds every edge, and moves each once, however often the list names it.
  pub redirect_lem :
      (es : List ℕ) (h : Hypergraph)
      → has_key to h.connected ≡ true
      → ((i : ℕ) → contains i es ≡ true → has_edge h i ≡ true)
      → (g : Hypergraph) × (redirect to from es h ≡ ok g) × Redirected es h g
  unfolding redirect
  redirect_lem [] h k f = (
    h,
    refl,
    record {
      vertices = refl;
      counter = refl;
      edges = λ i. refl;
      keyed = λ u. refl;
      counts = λ u i. ground arith;
    },
  )
  redirect_lem (e ∷ es) h k f = elim (Option-cases (lookup e h.edges)) [
    | inl absent ↦ absurd (ground (arith, f e))
    | inr (ed, this) ↦
        let (g, returned, r) =
          redirect_lem es (one e ed h) (rw (one-keyed e to ed h k) k)
            (λ i c. ground (arith, one-edges e i ed h this, f i)) in
        (
          g,
          redirect-cons e es ed h this ∙ returned,
          record {
            vertices = r.vertices;
            counter = r.counter;
            edges = λ i. ground (
              arith,
              r.edges i,
              one-edges e i ed h this,
              moved-moved from to (lookup i h.edges) differ,
            );
            keyed = λ u. ground (arith, r.keyed u, one-keyed e u ed h k);
            counts = λ u i. ground (
              arith,
              r.counts u i,
              one-counts e i u ed h,
              one-edges e i ed h this,
              count-renamed from to from ed.vertices,
            );
          },
        )
  ]
