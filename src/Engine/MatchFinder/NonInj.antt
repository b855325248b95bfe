-- ===== src/Engine/MatchFinder/NonInj.antt =====
-- enumAllIsoNodesNonInj: all ways to map the isolated vertices, by counting with the enumerator.
use uncover.Base.{
  ℕ, ◌≡◌, ◌⊎◌, refl, List, [], ◌∷◌, ◌++◌, true, false, arith, In, In-append, IsDistinct, ◌==◌, leb,
  Bool-cases, inl, inr, ◌∙◌, sym, subst, ap, length, all_of, zero, suc, ◌<◌, ◌≤◌, ◌+◌,
}
use uncover.Graphs.Mapping.{Mapping}
use uncover.Engine.ExpEnumerator.{ExpEnumerator, can_count_up, next, size}
use uncover.Engine.ExpEnumerator.Count.{
  value, power, IsBounded, next_lem, can_count_up_lem, value-below, value-injective,
}
use uncover.Engine.MatchFinder.{ok}
use uncover.Engine.MatchFinder.Isolated.{assign, non_inj_loop}
use uncover.Engine.MatchFinder.Filled.{IsFilled, Agrees, IsFilled-before, Agrees-before}
use uncover.Engine.MatchFinder.Assign.{valid_digits, assign_lem, Codes, assign-Agrees}

-- What the loop adds, from the digits of the enumerator on.
pub record Looped (is targets : List ℕ) (e : ExpEnumerator) (m : Mapping) (all all' : List Mapping)
    : Type 0 where
  pub sound : (m' : Mapping) → In m' all' → In m' all ⊎ IsFilled is targets m m'
  pub kept : (m' : Mapping) → In m' all → In m' all'
  pub complete :
      (f : Mapping) (ds : List ℕ)
      → Codes f targets is ds
      → length is ≡ length ds
      → all_of (λ d. leb d e.base) ds ≡ true
      → value e.base e.data_values ≤ value e.base ds
      → (m' : Mapping) × In m' all' × Agrees is f m m'

-- An enumerator for these vertices and targets.
abbrev pub Fits : List ℕ → List ℕ → ExpEnumerator → Type 0
Fits is targets e = (length is ≡ size e) × (suc e.base ≡ length targets) × IsBounded e

bounded-valid :
    (targets ds : List ℕ) (b : ℕ)
    → suc b ≡ length targets
    → all_of (λ d. leb d b) ds ≡ true
    → valid_digits targets ds ≡ true
bounded-valid targets [] b l h = refl
bounded-valid targets (d ∷ ds) b l h = ground (arith, l, bounded-valid targets ds b l)

pub valid-bounded :
    (targets ds : List ℕ) (b : ℕ)
    → suc b ≡ length targets
    → valid_digits targets ds ≡ true
    → all_of (λ d. leb d b) ds ≡ true
valid-bounded targets [] b l h = refl
valid-bounded targets (d ∷ ds) b l h = ground (arith, l, valid-bounded targets ds b l)

-- The round for the current digits.
round_done :
    (is targets : List ℕ) (e : ExpEnumerator) (f m m' : Mapping) (ds : List ℕ)
    → Fits is targets e
    → assign is e.data_values targets m ≡ ok m'
    → Codes f targets is ds
    → length is ≡ length ds
    → all_of (λ d. leb d e.base) ds ≡ true
    → value e.base e.data_values ≡ value e.base ds
    → Agrees is f m m'
round_done is targets e f m m' ds (sized, based, bounded) is_ok codes l b v =
    let same : e.data_values ≡ ds =
      value-injective e.base e.data_values ds (sym sized ∙ l) bounded b v in
    assign-Agrees is e.data_values targets f m m' (subst (Codes f targets is) (sym same) codes)
      is_ok

Looped-last :
    (is targets : List ℕ) (e : ExpEnumerator) (m m' : Mapping) (all : List Mapping)
    → Fits is targets e
    → assign is e.data_values targets m ≡ ok m'
    → IsFilled is targets m m'
    → can_count_up e ≡ false
    → Looped is targets e m all (all ++ m' ∷ [])
Looped-last is targets e m m' all fits is_ok filled last = record {
  sound = λ k i. elim ((In-append k all (m' ∷ [])).0 i) [
    | inl old ↦ inl old
    | inr (inl here) ↦ inr (subst (IsFilled is targets m) (sym here) filled)
    | inr (inr gone) ↦ absurd gone
  ];
  kept = λ k i. (In-append k all (m' ∷ [])).1 (inl i);
  complete = λ f ds codes l b v.
      let (sized, based, bounded) = fits in
      let end = can_count_up_lem e bounded in
      let below : value e.base ds < power e.base (length ds) = value-below e.base ds b in
      let there : power e.base (length ds) ≡ power e.base (size e) =
        ap (power e.base) (sym l ∙ sized) in
      let same : value e.base e.data_values ≡ value e.base ds =
        ground (arith, last, end, below, there, v) in
      (
        m',
        (In-append m' all (m' ∷ [])).1 (inr (inl refl)),
        round_done is targets e f m m' ds fits is_ok codes l b same,
      );
}

Looped-more :
    (is targets : List ℕ) (e f : ExpEnumerator) (m m' : Mapping) (all all' : List Mapping)
    → Fits is targets e
    → assign is e.data_values targets m ≡ ok m'
    → IsFilled is targets m m'
    → f.base ≡ e.base
    → value e.base f.data_values ≡ suc (value e.base e.data_values)
    → Looped is targets f m' (all ++ m' ∷ []) all'
    → Looped is targets e m all all'
Looped-more is targets e f m m' all all' fits is_ok filled same_base step h = record {
  sound = λ k i. elim (h.sound k i) [
    | inr later ↦ inr (IsFilled-before is targets m m' k filled.others later)
    | inl old ↦ elim ((In-append k all (m' ∷ [])).0 old) [
      | inl older ↦ inl older
      | inr (inl here) ↦ inr (subst (IsFilled is targets m) (sym here) filled)
      | inr (inr gone) ↦ absurd gone
    ]
  ];
  kept = λ k i. h.kept k ((In-append k all (m' ∷ [])).1 (inl i));
  complete = λ g ds codes l b v. elim (Bool-cases (value e.base e.data_values == value e.base ds)) [
    | inl now ↦ (
      m',
      h.kept m' ((In-append m' all (m' ∷ [])).1 (inr (inl refl))),
      round_done is targets e g m m' ds fits is_ok codes l b (ground (arith, now)),
    )
    | inr later ↦
        let b' : all_of (λ d. leb d f.base) ds ≡ true =
          subst (λ k. all_of (λ d. leb d k) ds ≡ true) (sym same_base) b in
        let v' : value f.base f.data_values ≤ value f.base ds =
          subst (λ k. value k f.data_values ≤ value k ds) (sym same_base)
            (ground (arith, step, later, v)) in
        let (k, i, agrees) = h.complete g ds codes l b' v' in
        (k, i, Agrees-before is g m m' k filled.others agrees)
  ];
}

next-base : (e : ExpEnumerator) → (next e).base ≡ e.base
unfolding next
next-base e = refl

-- With fuel for the sequences that are left, the loop ends; nothing is out of range, every result
-- maps each isolated vertex to a target, and no choice of targets is missed.
pub non_inj_loop_lem :
    (n : ℕ) (is targets : List ℕ) (e : ExpEnumerator) (m : Mapping) (all : List Mapping)
    → IsDistinct is
    → Fits is targets e
    → power e.base (size e) ≤ value e.base e.data_values + n
    → (all' : List Mapping) × (non_inj_loop n is targets e m all ≡ ok all')
      × Looped is targets e m all all'
unfolding non_inj_loop
non_inj_loop_lem zero is targets e m all d fits enough =
    let (sized, based, bounded) = fits in
    absurd (omega (arith, value-below e.base e.data_values bounded, enough))
non_inj_loop_lem (suc n) is targets e m all d fits enough =
    let (sized, based, bounded) = fits in
    let (m', is_ok, filled) =
      assign_lem is e.data_values targets m d sized
        (bounded-valid targets e.data_values e.base based bounded) in
    elim (Bool-cases (can_count_up e)) [
      | inr last ↦ (
        all ++ m' ∷ [],
        ground (arith, is_ok, last),
        Looped-last is targets e m m' all fits is_ok filled last,
      )
      | inl more ↦
          let (step, bounded', sized') = next_lem e bounded in
          let one : value e.base (next e).data_values ≡ suc (value e.base e.data_values) =
            ground (arith, step, more) in
          let same = next-base e in
          let fits' : Fits is targets (next e) =
            (sized ∙ sym sized', ap suc same ∙ based, bounded') in
          let enough' : power (next e).base (size (next e))
              ≤ value (next e).base (next e).data_values + n =
            ground (
              arith,
              enough,
              one,
              ap (λ b. value b (next e).data_values) same,
              ap (λ b. power b (size (next e))) same,
              ap (power e.base) sized',
            ) in
          let (all', is_ok', h) =
            non_inj_loop_lem n is targets (next e) m' (all ++ m' ∷ []) d fits' enough' in
          (
            all',
            ground (arith, is_ok, more, is_ok'),
            Looped-more is targets e (next e) m m' all all' fits is_ok filled same one h,
          )
    ]
