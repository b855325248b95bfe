-- ===== src/Engine/MatchFinder/Free.antt =====
-- Mapping the isolated vertices to the first vertices of the target that are free.
use uncover.Base.{
  ℕ, ◌≡◌, refl, List, [], ◌∷◌, true, false, not, ◌||◌, none, some, arith, contains, insert,
  lookup-insert, lookup-before, IsOrdered, IsDistinct, ◌==◌, Bool-cases, inl, inr, ap, length, keys,
  select, suc, ◌<◌, ◌≤◌, contains-keys, sym, ◌∙◌, ==_iff,
}
use uncover.Graphs.Hypergraph.{Vertex}
use uncover.Graphs.Mapping.{Mapping, get_tar, has_tar}
use uncover.Engine.MatchFinder.{ok, Problem}
use uncover.Engine.MatchFinder.Isolated.{skip_used, map_free, map_all_to}
use uncover.Engine.MatchFinder.Filled.{IsFilled, IsFilled-insert}

abbrev pub unused : Mapping → List ℕ → List ℕ
unused m vs = select (λ v. not (has_tar m v)) vs

pub has_tar-get_tar :
    (m : Mapping) (t : ℕ) → IsOrdered m → has_tar m t ≡ true → (s : ℕ) × (get_tar m s ≡ some t)
has_tar-get_tar [] t o h = cc
has_tar-get_tar ((j, u) ∷ m) t o h = elim (Bool-cases (u == t)) [
  | inl same ↦ (j, ground (arith, same))
  | inr other ↦
      let (s, at) = has_tar-get_tar m t o.1 (ground (arith, h, other)) in
      (s, ground (arith, at, lookup-before j m o.0))
]

has_tar-insert :
    (i v w : ℕ) (m : Mapping)
    → get_tar m i ≡ none
    → has_tar (insert i v m) w ≡ ((v == w) || has_tar m w)
unfolding insert
has_tar-insert i v w [] h = refl
has_tar-insert i v w ((j, u) ∷ m) h = ground (arith, has_tar-insert i v w m)

pub length-keys : {V : Type 0} (m : List (ℕ × V)) → length (keys m) ≡ length m
length-keys [] = refl
length-keys ((j, v) ∷ m) = ap suc (length-keys m)

pub keys-IsDistinct : {V : Type 0} (m : List (ℕ × V)) → IsOrdered m → IsDistinct (keys m)
keys-IsDistinct [] o = tt
keys-IsDistinct ((j, v) ∷ m) o =
    (ground (arith, contains-keys j m, lookup-before j m o.0), keys-IsDistinct m o.1)

length-unused-insert :
    (i v : ℕ) (m : Mapping) (ws : List ℕ)
    → get_tar m i ≡ none
    → contains v ws ≡ false
    → length (unused (insert i v m) ws) ≡ length (unused m ws)
length-unused-insert i v m [] h c = refl
length-unused-insert i v m (w ∷ ws) h c =
    ground (arith, h, c, has_tar-insert i v w m h, length-unused-insert i v m ws)

-- The iterator stops at the first vertex that is free.
record Skipped (m : Mapping) (vs : List (ℕ × Vertex)) (v : ℕ) (x : Vertex)
    (rest : List (ℕ × Vertex)) : Type 0 where
  is_ok : skip_used m vs ≡ ok ((v, x) ∷ rest)
  free : has_tar m v ≡ false
  counted : length (unused m (keys vs)) ≡ suc (length (unused m (keys rest)))
  part : (t : ℕ) → contains t (v ∷ keys rest) ≡ true → contains t (keys vs) ≡ true
  distinct : IsDistinct (v ∷ keys rest)

skip_used_lem :
    (m : Mapping) (vs : List (ℕ × Vertex))
    → IsDistinct (keys vs)
    → 0 < length (unused m (keys vs))
    → (v : ℕ) × (x : Vertex) × (rest : List (ℕ × Vertex)) × Skipped m vs v x rest
unfolding skip_used
skip_used_lem m [] d h = absurd (omega arith)
skip_used_lem m ((v, x) ∷ vs) d h = elim (Bool-cases (has_tar m v)) [
  | inr free ↦ (
    v,
    x,
    vs,
    record {
      is_ok = ground (arith, free);
      free = free;
      counted = ground (arith, free);
      part = λ t c. c;
      distinct = d;
    },
  )
  | inl taken ↦
      let (w, y, rest, s) = skip_used_lem m vs d.1 (ground (arith, taken, h)) in
      (
        w,
        y,
        rest,
        record {
          is_ok = ground (arith, taken, s.is_ok);
          free = s.free;
          counted = ground (arith, taken, s.counted);
          part = λ t c. ground (arith, s.part t c);
          distinct = s.distinct;
        },
      )
]

pub IsFilled-part :
    (is targets targets' : List ℕ) (m m' : Mapping)
    → ((t : ℕ) → contains t targets ≡ true → contains t targets' ≡ true)
    → IsFilled is targets m m'
    → IsFilled is targets' m m'
IsFilled-part is targets targets' m m' sub h = record {
  filled = λ i c. let (t, at, k) = h.filled i c in (t, at, sub t k);
  others = h.others;
}

-- The mapping sends these sources to different targets, none of which the old mapping uses.
pub record IsFresh (is : List ℕ) (m m' : Mapping) : Type 0 where
  pub free : (i t : ℕ) → contains i is ≡ true → get_tar m' i ≡ some t → has_tar m t ≡ false
  pub single :
      (i j t : ℕ)
      → contains i is ≡ true
      → contains j is ≡ true
      → get_tar m' i ≡ some t
      → get_tar m' j ≡ some t
      → i ≡ j

-- What mapping these vertices gives.
abbrev pub IsFilling : Problem → List ℕ → Mapping → Mapping → Type 0
IsFilling p is m m' =
    IsFilled is (keys p.target.vertices) m m' × (p.injective ≡ true → IsFresh is m m')

pub get_tar-has_tar : (m : Mapping) (s t : ℕ) → get_tar m s ≡ some t → has_tar m t ≡ true
get_tar-has_tar [] s t h = cc
get_tar-has_tar ((j, u) ∷ m) s t h = ground (arith, get_tar-has_tar m s t)

IsFresh-insert :
    (i v : ℕ) (is : List ℕ) (m m' : Mapping)
    → get_tar m i ≡ none
    → has_tar m v ≡ false
    → get_tar m' i ≡ some v
    → IsFresh is (insert i v m) m'
    → IsFresh (i ∷ is) m m'
IsFresh-insert i v is m m' gone unused_too sent h =
    let own : (j u : ℕ) → (i == j) ≡ true → get_tar m' j ≡ some u → v ≡ u =
      λ j u same e. ground (arith, ap (get_tar m') ((==_iff i j).0 same), sent, e) in
    let other : (j u : ℕ)
        → contains j is ≡ true
        → get_tar m' j ≡ some u
        → ((v == u) ≡ false) × (has_tar m u ≡ false) =
      λ j u c e. ground (arith, h.free j u c e, has_tar-insert i v u m gone) in
    record {
      free = λ j u c e. elim (Bool-cases (i == j)) [
        | inl same ↦ ap (has_tar m) (sym (own j u same e)) ∙ unused_too
        | inr apart ↦ (other j u (ground (arith, c, apart)) e).1
      ];
      single = λ j k u c d e e'. elim (Bool-cases (i == j)) [
        | inl same ↦ elim (Bool-cases (i == k)) [
          | inl same' ↦ ground (arith, same, same')
          | inr apart ↦
              absurd (ground (arith, own j u same e, other k u (ground (arith, d, apart)) e'))
        ]
        | inr apart ↦ elim (Bool-cases (i == k)) [
          | inl same ↦
              absurd (ground (arith, own k u same e', other j u (ground (arith, c, apart)) e))
          | inr apart' ↦ h.single j k u (ground (arith, c, apart)) (ground (arith, d, apart')) e e'
        ]
      ];
    }

-- For distinct vertices that are not mapped and a target with distinct vertices, of which as many are
-- free: the vertices are mapped to different ones of these, all else is as before, and the iterator
-- never reads behind the end.
pub map_free_lem :
    (is : List ℕ) (vs : List (ℕ × Vertex)) (m : Mapping)
    → IsDistinct is
    → ((i : ℕ) → contains i is ≡ true → get_tar m i ≡ none)
    → IsDistinct (keys vs)
    → length is ≤ length (unused m (keys vs))
    → (m' : Mapping) × (map_free is vs m ≡ ok (m' ∷ []))
      × IsFilled is (keys vs) m m'
      × IsFresh is m m'
unfolding map_free
map_free_lem [] vs m d fresh d' enough = (
  m,
  refl,
  record { filled = λ i c. cc; others = λ i c. refl },
  record { free = λ i t c. cc; single = λ i j t c. cc },
)
map_free_lem (i ∷ is) vs m d fresh d' enough =
    let (v, x, rest, s) = skip_used_lem m vs d' (ground (arith, enough)) in
    let gone : get_tar m i ≡ none = fresh i (ground arith) in
    let fresh' : (j : ℕ) → contains j is ≡ true → get_tar (insert i v m) j ≡ none =
      λ j c. ground (arith, c, d.0, fresh j (ground (arith, c)), lookup-insert i j v m) in
    let used : length (unused (insert i v m) (v ∷ keys rest)) ≡ length (unused m (keys rest)) =
      ground (
        arith,
        has_tar-insert i v v m gone,
        length-unused-insert i v m (keys rest) gone s.distinct.0,
      ) in
    let (m', is_ok, h, new) =
      map_free_lem is ((v, x) ∷ rest) (insert i v m) d.1 fresh' s.distinct
        (ground (arith, enough, s.counted, used)) in
    let sent : get_tar m' i ≡ some v = h.others i d.0 ∙ ground (arith, lookup-insert i i v m) in
    (
      m',
      ground (arith, s.is_ok, is_ok),
      IsFilled-insert i v is (keys vs) m m' d.0 (s.part v (ground arith))
          (IsFilled-part is (v ∷ keys rest) (keys vs) (insert i v m) m' s.part h),
      IsFresh-insert i v is m m' gone s.free sent new,
    )

pub map_all_to_lem :
    (is targets : List ℕ) (t : ℕ) (m : Mapping)
    → IsDistinct is
    → contains t targets ≡ true
    → IsFilled is targets m (map_all_to is t m)
unfolding map_all_to
map_all_to_lem [] targets t m d c = record { filled = λ i k. cc; others = λ i k. refl }
map_all_to_lem (i ∷ is) targets t m d c =
    IsFilled-insert i t is targets m _ d.0 c (map_all_to_lem is targets t (insert i t m) d.1 c)
