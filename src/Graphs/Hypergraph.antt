-- ===== src/Graphs/Hypergraph.antt =====
-- src/graphs/AnonHypergraph.h and AnonHypergraph.cpp, with Vertex and Edge: the store of a
-- hypergraph and every operation that changes it. The methods that hand out iterators, the names
-- and the printing of a graph are left out.
pub mod Incidence
pub mod Grow
pub mod Delete
pub mod Redirect
pub mod Merge
pub mod Pairs
pub mod MergeEdges
pub mod Sets
pub mod Queries
pub mod Examples
use Prim.Native.String.{String}
use text.Mathlib.Text.{◌==◌ as str_eq}
use uncover.Base.{
  ℕ, zero, suc, ◌+◌, ◌%◌, ◌^◌, List, [], ◌∷◌, Bool, true, false, not, ◌&&◌, ◌||◌, Option, none,
  some, length, all_of, lookup, has_key, insert, erase, contains, count, insert_id, erase_id, ◌==◌,
  if◌then◌else◌, map,
}

pub record Vertex : Type 0 where
  pub id : ℕ

pub record Edge : Type 0 where
  pub id : ℕ
  pub label : String
  pub vertices : List ℕ

-- The head of the list `connected[v]` is the edge that was last inserted into that multiset.
pub record Hypergraph : Type 0 where
  pub last_used_id : ℕ
  pub vertices : List (ℕ × Vertex)
  pub edges : List (ℕ × Edge)
  pub connected : List (ℕ × List ℕ)

-- InvalidInputException, and the std::out_of_range of `at`.
pub data Error : Type 0 where
  invalid_input out_of_range : Error

pub data Result (A : Type 0) : Type 0 where
  ok : A → Result A
  err : Error → Result A

infixl 5 ◌>>=◌
abbrev pub ◌>>=◌ : {A B : Type 0} → Result A → (A → Result B) → Result B
ok a >>= f = f a
err e >>= f = err e

abbrev pub has_vertex : Hypergraph → ℕ → Bool
has_vertex h v = has_key v h.vertices

abbrev pub has_edge : Hypergraph → ℕ → Bool
has_edge h e = has_key e h.edges

-- `connectedEdges[v]`, which is empty for a key that is missing.
abbrev pub edges_at : List (ℕ × List ℕ) → ℕ → List ℕ
edges_at m v = elim (lookup v m) [ none ↦ [] | some es ↦ es ]

-- `std::map::insert` leaves a key that is there alone.
abbrev pub emplace : {V : Type 0} → ℕ → V → List (ℕ × V) → List (ℕ × V)
emplace k v m = if has_key k m then m else insert k v m

-- `++lastUsedID` on an unsigned int of 32 bits.
abbrev pub next_id : Hypergraph → ℕ
next_id h = (h.last_used_id + 1) % 2 ^ 32

unfoldable pub empty_graph : Hypergraph
empty_graph = record { last_used_id = 0; vertices = []; edges = []; connected = [] }

unfoldable pub add_vertex : Hypergraph → Hypergraph × ℕ
add_vertex h =
    let i = next_id h in
    (
      record h {
        last_used_id = i;
        vertices = emplace i (record { id = i }) h.vertices;
        connected = insert i [] h.connected;
      },
      i,
    )

-- The second loop of addEdge.
unfoldable pub attach : ℕ → List ℕ → List (ℕ × List ℕ) → List (ℕ × List ℕ)
attach i [] m = m
attach i (v ∷ vs) m = attach i vs (insert v (i ∷ edges_at m v) m)

pub add_edge : Hypergraph → String → List ℕ → Result (Hypergraph × ℕ)
unfolding attach
add_edge h label vs =
    let i = next_id h in
    let added = record h {
      last_used_id = i;
      edges = emplace i (record { id = i; label = label; vertices = vs }) h.edges;
      connected = attach i vs h.connected;
    } in
    if all_of (has_vertex h) vs then ok (added, i) else err invalid_input

-- The loop of deleteEdge.
pub detach : ℕ → List ℕ → List (ℕ × List ℕ) → List (ℕ × List ℕ)
detach i [] m = m
detach i (v ∷ vs) m = detach i vs (insert v (erase_id i (edges_at m v)) m)

pub delete_edge : Hypergraph → ℕ → Hypergraph × Bool
unfolding detach
delete_edge h i = elim (lookup i h.edges) [
  | none ↦ (h, false)
  | some e ↦
      (record h { edges = erase i h.edges; connected = detach i e.vertices h.connected }, true)
]

-- The loop of deleteVertex over its copy of the multiset, without and with the set of deleted IDs.
pub delete_edges : Hypergraph → List ℕ → Hypergraph
delete_edges h [] = h
delete_edges h (e ∷ es) = delete_edges (delete_edge h e).0 es

pub insert_all : List ℕ → List ℕ → List ℕ
insert_all [] s = s
insert_all (e ∷ es) s = insert_all es (insert_id e s)

-- The third part is the set `delEdges` afterwards.
pub delete_vertex : Hypergraph → ℕ → List ℕ → Hypergraph × Bool × List ℕ
unfolding delete_edges insert_all delete_edge
delete_vertex h v deleted =
    let es = edges_at h.connected v in
    let g = delete_edges h es in
    if has_vertex h v
    then (
      record g { vertices = erase v g.vertices; connected = erase v g.connected },
      true,
      insert_all es deleted,
    )
    else (h, false, deleted)

pub delete_vertices : Hypergraph → List ℕ → List ℕ → Hypergraph × Bool × List ℕ
unfolding delete_vertex
delete_vertices h [] deleted = (h, false, deleted)
delete_vertices h (v ∷ vs) deleted =
    let (g, b, d) = delete_vertex h v deleted in
    let (g', b', d') = delete_vertices g vs d in (g', b || b', d')

abbrev pub renamed : ℕ → ℕ → List ℕ → List ℕ
renamed from to = map (λ v. if v == from then to else v)

-- How often the inner loop of mergeVertices inserts the edge.
abbrev pub insert_times : ℕ → ℕ → List ℕ → List ℕ
insert_times zero e es = es
insert_times (suc n) e es = e ∷ insert_times n e es

-- The loop of mergeVertices over the edges at `from`.
pub redirect : ℕ → ℕ → List ℕ → Hypergraph → Result Hypergraph
redirect to from [] h = ok h
redirect to from (e ∷ es) h = elim (lookup e h.edges) [
  | none ↦ err out_of_range
  | some ed ↦ redirect to from es (record h {
    edges = insert e (record ed { vertices = renamed from to ed.vertices }) h.edges;
    connected =
        if contains from ed.vertices
        then insert to (insert_times (count from ed.vertices) e (edges_at h.connected to))
            h.connected
        else h.connected;
  })
]

pub merge_vertices : Hypergraph → ℕ → ℕ → Result (Hypergraph × ℕ)
unfolding redirect
merge_vertices h v w =
    let close = λ (g : Hypergraph). record g {
      vertices = erase w g.vertices;
      connected = erase w g.connected;
    } in
    let merged = (do g ← redirect v w (edges_at h.connected w) h; ok (close g, v)) in
    if not (has_vertex h v && has_vertex h w)
    then err invalid_input
    else if v == w
    then ok (h, v)
    else merged

-- The loop of mergeEdges over the two copies of the attached vertices.
pub merge_pairs : Hypergraph → List ℕ → List ℕ → Result Hypergraph
unfolding merge_vertices
merge_pairs h [] ws = ok h
merge_pairs h (v ∷ vs) [] = ok h
merge_pairs h (v ∷ vs) (w ∷ ws) = do (g, _) ← merge_vertices h v w; merge_pairs g vs ws

merge_found : Hypergraph → ℕ → ℕ → Edge → Edge → Result (Hypergraph × ℕ)
unfolding merge_pairs delete_edge
merge_found h i j a b =
    let merged = (do g ← merge_pairs h a.vertices b.vertices; ok ((delete_edge g j).0, i)) in
    if i == j
    then ok (h, i)
    else if str_eq a.label b.label && length a.vertices == length b.vertices
    then merged
    else err invalid_input

pub merge_edges : Hypergraph → ℕ → ℕ → Result (Hypergraph × ℕ)
unfolding merge_found
merge_edges h i j = elim (lookup i h.edges) [
  | none ↦ err invalid_input
  | some a ↦ elim (lookup j h.edges) [ none ↦ err invalid_input | some b ↦ merge_found h i j a b ]
]
