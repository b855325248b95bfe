-- ===== src/Graphs/PathChecker/Correct.antt =====
-- The search finds a path if and only if there is one.
use uncover.Base.{
  subst, sym, ==_iff, ◌∙◌, ℕ, zero, suc, ◌≡◌, ◌↔◌, refl, List, [], ◌∷◌, Bool, true, false, not,
  ◌&&◌, arith, some_of, some_of-found, some_of-contains, keys, contains-keys, contains, insert_id,
  contains-insert_id, Bool-cases, inl, inr, ◌==◌,
}
use uncover.Graphs.Hypergraph.{Hypergraph, edges_at, has_vertex}
use uncover.Graphs.PathChecker.{nodes_of, try_nodes, find_path, has_path}

-- A path of `n` more edges leads on from the vertex `v`, and meets nothing that was visited.
pub data PathFrom (h : Hypergraph) : ℕ → ℕ → List ℕ → Type 0 where
  end : {v : ℕ} {visited : List ℕ} → PathFrom h zero v visited
  step :
      {n v : ℕ} {visited : List ℕ} (e w : ℕ)
      → contains e (edges_at h.connected v) ≡ true
      → contains e visited ≡ false
      → contains w (nodes_of h e) ≡ true
      → contains w (insert_id e visited) ≡ false
      → PathFrom h n w (insert_id w (insert_id e visited))
      → PathFrom h (suc n) v visited

-- Leaving out the nodes that were tried before makes no difference.
try_nodes-some_of :
    (go : ℕ → List ℕ → Bool) (visited multi ws : List ℕ)
    → ((w : ℕ)
        → contains w multi ≡ true
        → (not (contains w visited) && go w (insert_id w visited)) ≡ false)
    → try_nodes go visited multi ws
      ≡ some_of (λ w. not (contains w visited) && go w (insert_id w visited)) ws
unfolding try_nodes
try_nodes-some_of go visited multi [] f = refl
try_nodes-some_of go visited multi (w ∷ ws) f =
    elim (Bool-cases (not (contains w visited) && go w (insert_id w visited))) [
      | inl e ↦ ground (arith, f w)
      | inr e ↦
          let failed : (u : ℕ)
              → contains u (insert_id w multi) ≡ true
              → (not (contains u visited) && go u (insert_id u visited)) ≡ false =
            λ u c. elim (Bool-cases (w == u)) [
              | inl same ↦
                  subst (λ x. (not (contains x visited) && go x (insert_id x visited)) ≡ false)
                    ((==_iff w u).0 same) e
              | inr other ↦ f u (ground (arith, contains-insert_id w u multi))
            ] in
          ground (
            arith,
            try_nodes-some_of go visited (insert_id w multi) ws failed,
            try_nodes-some_of go visited multi ws f,
          )
    ]

find_path-PathFrom :
    (h : Hypergraph) (n v : ℕ) (visited : List ℕ)
    → find_path h n v visited ≡ true
    → PathFrom h n v visited
unfolding find_path
find_path-PathFrom h zero v visited k = end
find_path-PathFrom h (suc n) v visited k =
    let (e, i, j) = some_of-found _ (edges_at h.connected v) k in
    let unused : contains e visited ≡ false = ground arith in
    let tried : try_nodes (find_path h n) (insert_id e visited) [] (nodes_of h e) ≡ true =
      ground arith in
    let (w, i', j') = some_of-found _ (nodes_of h e) (
      sym (try_nodes-some_of (find_path h n) (insert_id e visited) [] (nodes_of h e) (λ u c. cc))
      ∙ tried) in
    step e w i unused i' (ground arith)
      (find_path-PathFrom h n w (insert_id w (insert_id e visited)) (ground arith))

PathFrom-find_path :
    (h : Hypergraph) (n v : ℕ) (visited : List ℕ)
    → PathFrom h n v visited
    → find_path h n v visited ≡ true
unfolding find_path
PathFrom-find_path h zero v visited end = refl
PathFrom-find_path h (suc n) v visited (step e w i unused i' fresh rest) =
    let found = PathFrom-find_path h n w (insert_id w (insert_id e visited)) rest in
    let tried =
      try_nodes-some_of (find_path h n) (insert_id e visited) [] (nodes_of h e) (λ u c. cc) in
    let some_node =
      some_of-contains
        (λ u.
          not (contains u (insert_id e visited))
          && find_path h n u (insert_id u (insert_id e visited)))
        (nodes_of h e) w i' (ground arith) in
    some_of-contains _ (edges_at h.connected v) e i (ground arith)

-- hasPath answers true if and only if from some vertex of the graph there is a path with the given
-- number of edges that meets no vertex and no edge twice.
pub has_path_iff :
    (h : Hypergraph) (n : ℕ)
    → (has_path h n ≡ true) ↔ ((v : ℕ) × (has_vertex h v ≡ true) × PathFrom h n v (v ∷ []))
unfolding has_path
has_path_iff h n = (
  λ k.
      let (v, i, j) = some_of-found (λ v. find_path h n v (v ∷ [])) (keys h.vertices) k in
      (v, ground (arith, contains-keys v h.vertices), find_path-PathFrom h n v (v ∷ []) j),
  λ (v, i, p).
      some_of-contains (λ v. find_path h n v (v ∷ [])) (keys h.vertices) v
        (ground (arith, contains-keys v h.vertices)) (PathFrom-find_path h n v (v ∷ []) p),
)
