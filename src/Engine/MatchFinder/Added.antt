-- ===== src/Engine/MatchFinder/Added.antt =====
-- mapIsolatedNodes when it does not stop at the first match: every match of the edges is extended
-- in all ways.
use uncover.Base.{
  ℕ, ◌≡◌, ◌⊎◌, refl, List, [], ◌∷◌, true, false, not, none, some, arith, contains, In, IsOrdered,
  IsDistinct, Bool-cases, inl, inr, ◌∙◌, sym, ap, length, keys, select, contains-select, suc, ◌<◌,
  ◌≤◌, ◌+◌, ◌-◌, ◌%◌, ◌^◌,
}
use uncover.Graphs.Mapping.{Mapping, get_tar, has_tar}
use uncover.Engine.ExpEnumerator.{ExpEnumerator, new_enumerator, zeros, size}
use uncover.Engine.ExpEnumerator.Count.{value, power, value-zeros, length-zeros, zeros-bounded}
use uncover.Engine.MatchFinder.{ok, Problem}
use uncover.Engine.MatchFinder.Partial.{Extends, IsInjective}
use uncover.Engine.MatchFinder.Isolated.{enum_inj, enum_non_inj, non_inj_loop}
use uncover.Engine.MatchFinder.Filled.{IsFilled, Agrees}
use uncover.Engine.MatchFinder.Inj.{Admits, enum_inj_lem}
use uncover.Engine.MatchFinder.NonInj.{Fits, non_inj_loop_lem, valid-bounded}
use uncover.Engine.MatchFinder.Assign.{Codes-exist}
use uncover.Engine.MatchFinder.Free.{has_tar-get_tar, IsFilled-part, IsFilling}

-- The mapping sends all these vertices to targets of the list.
abbrev pub Chooses : Mapping → List ℕ → List ℕ → Type 0
Chooses f is targets =
    (i : ℕ) → contains i is ≡ true → (t : ℕ) × (get_tar f i ≡ some t) × (contains t targets ≡ true)

-- What is added for one match of the edges.
pub record Added (p : Problem) (is : List ℕ) (m : Mapping) (all all' : List Mapping) : Type 0 where
  pub sound : (k : Mapping) → In k all' → In k all ⊎ IsFilling p is m k
  pub kept : (k : Mapping) → In k all → In k all'
  pub complete :
      (f : Mapping)
      → (p.injective ≡ true → IsInjective f)
      → Extends f m
      → Chooses f is (keys p.target.vertices)
      → (k : Mapping) × In k all' × Agrees is f m k

-- The fuel that the enumeration of one match needs.
abbrev pub sequences : List ℕ → List ℕ → ℕ
sequences is targets = power (length targets - 1) (length is)

-- A target of an unmapped vertex is free.
free-target :
    (m f : Mapping) (i t : ℕ)
    → IsOrdered m
    → IsInjective f
    → Extends f m
    → get_tar m i ≡ none
    → get_tar f i ≡ some t
    → has_tar m t ≡ false
free-target m f i t o j x gone at = elim (Bool-cases (has_tar m t)) [
  | inr n ↦ n
  | inl h ↦
      let (s, is_s) = has_tar-get_tar m t o h in
      let same : s ≡ i = j s i t (x s t is_s) at in absurd (ground (arith, same, is_s, gone))
]

pub inj-Added :
    (p : Problem) (is : List ℕ) (m : Mapping) (all : List Mapping)
    → p.injective ≡ true
    → IsDistinct is
    → IsOrdered m
    → ((i : ℕ) → contains i is ≡ true → get_tar m i ≡ none)
    → Added p is m all
        (enum_inj
          (select (λ v. not (has_tar m v)) (keys p.target.vertices))
          is
          (record { no_targets = []; current = m; all = all })).all
inj-Added p is m all i d o fresh =
    let vs = keys p.target.vertices in
    let free = select (λ v. not (has_tar m v)) vs in
    let h = enum_inj_lem free is (record { no_targets = []; current = m; all = all }) d in
    let part : (t : ℕ) → contains t free ≡ true → contains t vs ≡ true =
      λ t c. ground (arith, c, contains-select (λ v. not (has_tar m v)) vs t) in
    record {
      sound = λ k c. elim (h.sound k c) [
        | inl old ↦ inl old
        | inr new ↦ elim (h.spread k c) [
          | inl old ↦ inl old
          | inr spread ↦ inr (
            IsFilled-part is free vs m k part new,
            λ j. record {
              free = λ l t b at.
                  let (u, at', b') = new.filled l b in
                  ground (arith, at, at', b', contains-select (λ v. not (has_tar m v)) vs u);
              single = spread.single;
            },
          )
        ]
      ];
      kept = h.kept;
      complete = λ f j x chosen.
          let admits : Admits f is free [] = λ k c.
            let (t, at, c') = chosen k c in
            let vacant = free-target m f k t o (j i) x (fresh k c) at in
            (
              t,
              at,
              ground (arith, c', vacant, contains-select (λ v. not (has_tar m v)) vs t),
              refl,
            ) in
          h.complete f tt (j i) admits;
    }

-- `base - 1` does not wrap around.
new-zeros :
    (n k : ℕ)
    → suc n < 2 ^ 64
    → new_enumerator (suc n) k ≡ record { data_values = zeros k; base = n }
unfolding new_enumerator
new-zeros n k l =
    let same : (suc n + (2 ^ 64 - 1)) % 2 ^ 64 ≡ n = omega arith in
    let with_base : ℕ → ExpEnumerator = λ b. record { data_values = zeros k; base = b } in
    ap with_base same

-- All ways to choose targets are added.
pub record Listed (is targets : List ℕ) (m : Mapping) (all all' : List Mapping) : Type 0 where
  pub sound : (k : Mapping) → In k all' → In k all ⊎ IsFilled is targets m k
  pub kept : (k : Mapping) → In k all → In k all'
  pub complete : (f : Mapping) → Chooses f is targets → (k : Mapping) × In k all' × Agrees is f m k

-- For one or more distinct vertices, with fuel for all sequences of targets and a size_t that
-- counts the targets, the enumeration ends with no error. Every result maps each vertex to a target
-- and all else as before, and no choice of targets is missed.
pub enum_non_inj-Listed :
    (n i : ℕ) (is targets : List ℕ) (m : Mapping) (all : List Mapping)
    → IsDistinct (i ∷ is)
    → length targets < 2 ^ 64
    → sequences (i ∷ is) targets ≤ n
    → (all' : List Mapping) × (enum_non_inj n (i ∷ is) targets m all ≡ ok all')
      × Listed (i ∷ is) targets m all all'
unfolding enum_non_inj
enum_non_inj-Listed n i is [] m all d small enough = (
  all,
  refl,
  record {
    sound = λ k c. inl c;
    kept = λ k c. c;
    complete = λ f chosen. let (t, at, c) = chosen i (ground arith) in cc;
  },
)
enum_non_inj-Listed n i is (t ∷ ts) m all d small enough =
    let e : ExpEnumerator = record { data_values = zeros (suc (length is)); base = length ts } in
    let same : new_enumerator (suc (length ts)) (suc (length is)) ≡ e =
      new-zeros (length ts) (suc (length is)) small in
    let fits : Fits (i ∷ is) (t ∷ ts) e =
      (sym (length-zeros (suc (length is))), refl, zeros-bounded (length ts) (suc (length is))) in
    let low : value (length ts) (zeros (suc (length is))) ≡ 0 =
      value-zeros (length ts) (suc (length is)) in
    let room : power e.base (size e) ≤ value e.base e.data_values + n =
      ground (arith, low, enough, ap (power (length ts)) (length-zeros (suc (length is)))) in
    let (all', is_ok, h) = non_inj_loop_lem n (i ∷ is) (t ∷ ts) e m all d fits room in
    (
      all',
      ap (λ k. non_inj_loop n (i ∷ is) (t ∷ ts) k m all) same ∙ is_ok,
      record {
        sound = h.sound;
        kept = h.kept;
        complete = λ f chosen.
            let (ds, codes, sized, valid) = Codes-exist (i ∷ is) (t ∷ ts) f chosen in
            h.complete f ds codes sized (valid-bounded (t ∷ ts) ds (length ts) refl valid)
              (ground (arith, low));
      },
    )
