-- ===== src/Engine/MatchFinder/Total.antt =====
-- findMatches as a whole.
use uncover.Base.{
  ℕ, ◌≡◌, ◌≢◌, refl, List, [], ◌∷◌, true, false, not, arith, contains, In, IsDistinct, Bool-cases,
  List-cases, inl, inr, ◌∙◌, sym, subst, ap, length, keys, select, select-IsDistinct,
  select-complement, ◌≤◌, ◌+◌, ◌-◌,
}
use uncover.Graphs.Mapping.{Mapping, has_src}
use uncover.Engine.ExpEnumerator.Count.{power}
use uncover.Engine.MatchFinder.{ok, Problem}
use uncover.Engine.MatchFinder.Partial.{IsMorphism, IsInjective, IsAlmostInjective}
use uncover.Engine.MatchFinder.Invariant.{Input}
use uncover.Engine.MatchFinder.Targets.{IsEdgeMatch, IsCandidate, Hit}
use uncover.Engine.MatchFinder.Isolated.{map_isolated_nodes, extend_first, extend_all}
use uncover.Engine.MatchFinder.Added.{sequences}
use uncover.Engine.MatchFinder.Every.{Room, Before, AddedAll, extend_all_lem}
use uncover.Engine.MatchFinder.Find.{too_big, match_edges, find_matches}
use uncover.Engine.MatchFinder.Matches.{match_edges_lem}
use uncover.Engine.MatchFinder.Morphism.{
  isolated, isolated-contains, HoldsIsolated, fresh-isolated, IsFilled-IsMorphism,
  IsMorphism-Chooses, IsFilling-apart,
}
use uncover.Engine.MatchFinder.Free.{keys-IsDistinct, IsFilling}
use uncover.Engine.MatchFinder.First.{Enough, injective-fits, power-below, extend_first_lem}

-- A morphism that the search must not miss.
abbrev pub IsWanted : Problem → Mapping → Type 0
IsWanted p f = IsMorphism p.source p.target f × (p.injective ≡ true → IsInjective f)

-- Only morphisms are found, in the injective mode only almost injective ones; one is found if there
-- is one that is wanted, and all of them when the search does not stop at the first match.
pub record Answers (p : Problem) (ms : List Mapping) : Type 0 where
  pub sound : (m : Mapping) → In m ms → IsMorphism p.source p.target m
  pub apart : p.injective ≡ true → (m : Mapping) → In m ms → IsAlmostInjective p.source m
  pub found : (f : Mapping) → IsWanted p f → ms ≢ []
  pub complete : p.stop_on_first ≡ false → (f : Mapping) → IsWanted p f → Hit f ms

-- The matches of the edges, before mapIsolatedNodes.
record EdgesAnswer (p : Problem) (ms : List Mapping) : Type 0 where
  sound : (m : Mapping) → In m ms → IsEdgeMatch p m
  found : (f : Mapping) → IsWanted p f → ms ≢ []
  complete : p.stop_on_first ≡ false → (f : Mapping) → IsWanted p f → Hit f ms

IsWanted-IsCandidate : (p : Problem) (f : Mapping) → IsWanted p f → IsCandidate p f
IsWanted-IsCandidate p f (morphism, j) = record {
  partial = morphism.partial;
  all_edges = morphism.all_edges;
  injective = j;
}

-- Nothing is isolated.
all-attached :
    (p : Problem) (m : Mapping) (ms : List Mapping)
    → Input p
    → isolated p m ≡ []
    → EdgesAnswer p (m ∷ ms)
    → Answers p (m ∷ ms)
all-attached p m ms given empty a =
    let first : IsEdgeMatch p m = a.sound m (inl refl) in
    let h : HoldsIsolated p [] =
      λ v. sym (ap (contains v) empty) ∙ isolated-contains p m v given first in
    record {
      sound = λ k c.
          IsFilled-IsMorphism p [] k k given h (a.sound k c)
            (record { filled = λ i d. cc; others = λ i d. refl });
      apart = λ j k c. (a.sound k c).apart j;
      found = a.found;
      complete = a.complete;
    }

first-Answers :
    (p : Problem) (m k : Mapping)
    → Input p
    → p.stop_on_first ≡ true
    → IsEdgeMatch p m
    → IsFilling p (isolated p m) m k
    → Answers p (k ∷ [])
first-Answers p m k given stop match filled = record {
  sound = λ k' c. elim c [
    | inl here ↦ subst (IsMorphism p.source p.target) (sym here) (
        IsFilled-IsMorphism p (isolated p m) m k given (λ v. isolated-contains p m v given match)
          match filled.0)
    | inr gone ↦ absurd gone
  ];
  apart = λ j k' c. elim c [
    | inl here ↦
        subst (IsAlmostInjective p.source) (sym here)
          (IsFilling-apart p (isolated p m) m k match filled j)
    | inr gone ↦ absurd gone
  ];
  found = λ f w e. cc;
  complete = λ go_on f w. absurd (ground (arith, stop, go_on));
}

every-Answers :
    (p : Problem) (is : List ℕ) (m : Mapping) (ms all : List Mapping)
    → Input p
    → HoldsIsolated p is
    → p.stop_on_first ≡ false
    → EdgesAnswer p (m ∷ ms)
    → AddedAll p is (m ∷ ms) [] all
    → Answers p all
every-Answers p is m ms all given h go_on a added =
    let complete : (f : Mapping) → IsWanted p f → Hit f all =
      λ f w. added.complete f w.1 (a.complete go_on f w) (IsMorphism-Chooses p is f h w.0) in
    record {
      sound = λ k c. elim (added.sound k c) [
        | inl gone ↦ absurd gone
        | inr (u, d, filled) ↦ IsFilled-IsMorphism p is u k given h (a.sound u d) filled.0
      ];
      apart = λ j k c. elim (added.sound k c) [
        | inl gone ↦ absurd gone
        | inr (u, d, filled) ↦ IsFilling-apart p is u k (a.sound u d) filled j
      ];
      found = λ f w empty. let (k, c, x) = complete f w in subst (λ ms. In k ms) empty c;
      complete = λ e f w. complete f w;
    }

-- The fuel is enough for the isolated vertices, which are some of the source's.
room :
    (p : Problem) (n i : ℕ) (is : List ℕ) (m : Mapping)
    → Input p
    → Enough p n
    → isolated p m ≡ i ∷ is
    → Room p n i is
room p n i is m given enough full =
    let vs = keys p.source.vertices in
    let ts = keys p.target.vertices in
    let d : IsDistinct (isolated p m) =
      select-IsDistinct (λ v. not (has_src m v)) vs
        (keys-IsDistinct p.source.vertices given.source_ordered) in
    let mapped = select (has_src m) vs in
    let sum : length (i ∷ is) + length mapped ≡ length vs =
      ground (arith, select-complement (has_src m) vs, ap length full) in
    let fuel : sequences (i ∷ is) ts ≤ n = ground (
      arith,
      enough.fuel,
      power-below (length ts - 1) (length (i ∷ is)) (length mapped),
      ap (power (length ts - 1)) sum,
    ) in
    record { distinct = subst IsDistinct full d; small = enough.small; enough = fuel }

run-attached :
    (p : Problem) (n : ℕ) (m : Mapping) (ms : List Mapping)
    → isolated p m ≡ []
    → map_isolated_nodes n p (m ∷ ms) ≡ ok (m ∷ ms)
unfolding map_isolated_nodes
run-attached p n m ms empty = rw (empty, map_isolated_nodes) refl

run-first :
    (p : Problem) (n i : ℕ) (is : List ℕ) (m : Mapping) (ms : List Mapping)
    → isolated p m ≡ i ∷ is
    → p.stop_on_first ≡ true
    → map_isolated_nodes n p (m ∷ ms) ≡ extend_first p (i ∷ is) m
unfolding map_isolated_nodes
run-first p n i is m ms full stop = rw (full, map_isolated_nodes) (rw stop refl)

run-every :
    (p : Problem) (n i : ℕ) (is : List ℕ) (m : Mapping) (ms : List Mapping)
    → isolated p m ≡ i ∷ is
    → p.stop_on_first ≡ false
    → map_isolated_nodes n p (m ∷ ms) ≡ extend_all n p (i ∷ is) (m ∷ ms) []
unfolding map_isolated_nodes
run-every p n i is m ms full go_on = rw (full, map_isolated_nodes) (rw go_on refl)

map_isolated_nodes_lem :
    (p : Problem) (n : ℕ) (m : Mapping) (ms : List Mapping)
    → Input p
    → Enough p n
    → too_big p ≡ false
    → EdgesAnswer p (m ∷ ms)
    → (all : List Mapping) × (map_isolated_nodes n p (m ∷ ms) ≡ ok all) × Answers p all
map_isolated_nodes_lem p n m ms given enough fits a =
    let match : IsEdgeMatch p m = a.sound m (inl refl) in
    elim (List-cases (isolated p m)) [
      | inl empty ↦ (m ∷ ms, run-attached p n m ms empty, all-attached p m ms given empty a)
      | inr (i, is, full) ↦ elim (Bool-cases p.stop_on_first) [
        | inl stop ↦
            let (k, is_ok, filled) = extend_first_lem p n m given enough stop fits match in
            let is_ok' : extend_first p (i ∷ is) m ≡ ok (k ∷ []) =
              subst (λ l. extend_first p l m ≡ ok (k ∷ [])) full is_ok in
            (
              k ∷ [],
              run-first p n i is m ms full stop ∙ is_ok',
              first-Answers p m k given stop match filled,
            )
        | inr go_on ↦
            let h : HoldsIsolated p (i ∷ is) =
              λ v. sym (ap (contains v) full) ∙ isolated-contains p m v given match in
            let before : (u : Mapping) → In u (m ∷ ms) → Before i is u = λ u c. record {
              ordered = (a.sound u c).ordered;
              fresh = λ j d. fresh-isolated p (i ∷ is) u j given h (a.sound u c) d;
            } in
            let (all, is_ok, added) =
              extend_all_lem p n i is (m ∷ ms) [] (room p n i is m given enough full) before in
            (
              all,
              run-every p n i is m ms full go_on ∙ is_ok,
              every-Answers p (i ∷ is) m ms all given h go_on a added,
            )
      ]
    ]

find_matches-run :
    (p : Problem) (n : ℕ) (ms : List Mapping)
    → too_big p ≡ false
    → match_edges p ≡ ok ms
    → find_matches n p ≡ map_isolated_nodes n p ms
unfolding find_matches
find_matches-run p n ms fits h = rw fits (rw h refl)

-- The second half of the search, from the matches of the edges on.
fitting :
    (p : Problem) (n : ℕ) (ms : List Mapping)
    → Input p
    → Enough p n
    → too_big p ≡ false
    → EdgesAnswer p ms
    → (all : List Mapping) × (map_isolated_nodes n p ms ≡ ok all) × Answers p all
unfolding map_isolated_nodes
fitting p n [] given enough fits a = (
  [],
  refl,
  record {
    sound = λ m c. absurd c;
    apart = λ j m c. absurd c;
    found = a.found;
    complete = a.complete;
  },
)
fitting p n (m ∷ ms) given enough fits a = map_isolated_nodes_lem p n m ms given enough fits a

-- Nothing fits into a graph with fewer vertices or edges.
none-wanted : (p : Problem) (f : Mapping) → Input p → too_big p ≡ true → IsWanted p f → ⊥
none-wanted p f given big (morphism, j) =
    let inj : p.injective ≡ true = ground (arith, big) in
    let fits = injective-fits p f given morphism (j inj) in ground (arith, big, fits)

pub find_matches-big : (p : Problem) (n : ℕ) → too_big p ≡ true → find_matches n p ≡ ok []
unfolding find_matches
find_matches-big p n big = rw big refl

-- For two well-formed graphs with ordered tables, in which edges with the same label have equally
-- many vertices, with fuel for all sequences of vertices, a size_t that counts the vertices and,
-- for a search that is not injective and stops at the first match, a vertex in the target:
-- findMatches fails with no error, and all its results are morphisms. When it matches injectively,
-- a result sends different elements to different targets, unless they are vertices of one edge. If
-- there is a morphism (an injective one, when it matches injectively), it finds one, and when it
-- does not stop at the first match, each of them extends one of the results.
pub find_matches_lem :
    (p : Problem) (n : ℕ)
    → Input p
    → Enough p n
    → (ms : List Mapping) × (find_matches n p ≡ ok ms) × Answers p ms
find_matches_lem p n given enough = elim (Bool-cases (too_big p)) [
  | inl big ↦ (
    [],
    find_matches-big p n big,
    record {
      sound = λ m c. absurd c;
      apart = λ j m c. absurd c;
      found = λ f w. absurd (none-wanted p f given big w);
      complete = λ e f w. absurd (none-wanted p f given big w);
    },
  )
  | inr fits ↦
      let (found, is_ok, sound, complete) = match_edges_lem p given in
      let a : EdgesAnswer p found = record {
        sound = sound;
        found = λ f w. (complete f (IsWanted-IsCandidate p f w)).0;
        complete = λ e f w. (complete f (IsWanted-IsCandidate p f w)).1 e;
      } in
      let (all, is_ok', h) = fitting p n found given enough fits a in
      (all, find_matches-run p n found fits is_ok ∙ is_ok', h)
]
