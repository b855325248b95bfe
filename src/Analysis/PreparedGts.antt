-- ===== src/Analysis/PreparedGts.antt =====
-- The constructor of src/analysis/PreparedGTS.cpp, with the class StdRuleMapCB of PreparedGTS.h, and
-- getOriginalRules. The rules are a type with an ID.
pub mod Examples
use uncover.Base.{
  subst, if◌then◌else◌, ℕ, List, [], ◌∷◌, ◌++◌, Bool, true, false, ◌&&◌, ◌||◌, Option, none, some,
  some_of, contains, lookup, lookup-insert, insert, ◌==◌, ◌≡◌, ◌↔◌, ◌⊎◌, inl, inr, refl, arith, In,
  IsOrdered, Option-cases, Bool-cases, ==_iff, all_of, ltb, lookup-before, ap, ◌∙◌, sym,
}
use uncover.Graphs.Mapping.{set_at}
use uncover.Graphs.Gts.{add_rule}

-- The fields `oldStdRules`, `stdRules` and `prepFrom`.
pub record PreparedGts (R : Type 0) : Type 0 where
  pub old_std_rules : List (ℕ × R)
  pub std_rules : List (ℕ × R)
  pub prep_from : List (ℕ × List ℕ)

module _ {R : Type 0} (get_id : R → ℕ) where
  -- StdRuleMapCB::insert for the current rule ID.
  pub insert_prepared : ℕ → R → PreparedGts R → PreparedGts R
  insert_prepared current r s = record s {
    std_rules = (add_rule get_id s.std_rules (some r)).0;
    prep_from = insert (get_id r) (set_at s.prep_from (get_id r) ++ current ∷ []) s.prep_from;
  }

  -- The calls of it for the rules of one preparation.
  pub insert_all_prepared : ℕ → List R → PreparedGts R → PreparedGts R
  unfolding insert_prepared
  insert_all_prepared current [] s = s
  insert_all_prepared current (r ∷ rs) s =
      insert_all_prepared current rs (insert_prepared current r s)

  -- The loop of the constructor over `oldStdRules`.
  pub prepare_rules : (R → List R) → List (ℕ × R) → PreparedGts R → PreparedGts R
  unfolding insert_all_prepared
  prepare_rules prepare [] s = s
  prepare_rules prepare ((i, r) ∷ rules) s =
      prepare_rules prepare rules (insert_all_prepared i (prepare r) s)

  -- The preparer may be a null pointer; it takes the flag of setOptimization.
  pub prepare_gts : Option (Bool → R → List R) → Bool → List (ℕ × R) → PreparedGts R
  unfolding prepare_rules
  prepare_gts preparer opt rules =
      let empty : PreparedGts R = record {
        old_std_rules = rules;
        std_rules = [];
        prep_from = [];
      } in
      elim preparer [ none ↦ empty | some prepare ↦ prepare_rules (prepare opt) rules empty ]

-- The loop of getOriginalRules.
pub originals : {R : Type 0} → List (ℕ × R) → List ℕ → List R
originals rules [] = []
originals rules (k ∷ ks) =
    let rest = originals rules ks in elim (lookup k rules) [ none ↦ rest | some r ↦ r ∷ rest ]

pub get_original_rules : {R : Type 0} → PreparedGts R → ℕ → List R
unfolding originals
get_original_rules s id = originals s.old_std_rules (set_at s.prep_from id)

In-originals :
    {R : Type 0} (rules : List (ℕ × R)) (ks : List ℕ) (r : R)
    → In r (originals rules ks) ↔ ((k : ℕ) × (contains k ks ≡ true) × (lookup k rules ≡ some r))
unfolding originals
In-originals rules [] r = (λ h. absurd h, λ (k, c, e). absurd (ground (arith, c)))
In-originals rules (j ∷ ks) r =
    let (p, q) = In-originals rules ks r in
    elim (Option-cases (lookup j rules)) [
      | inl n ↦
          rw (originals, n)
            (
              λ h. let (k, c, e) = p h in (k, ground (arith, c), e),
              λ (k, c, e). elim (Bool-cases (j == k)) [
                | inl same ↦
                    absurd (ground (arith, n, ap (λ x. lookup x rules) ((==_iff j k).0 same), e))
                | inr other ↦ q (k, ground (arith, other), e)
              ],
            )
      | inr (r', n) ↦
          rw (originals, n)
            (
              λ h. elim h [
                | inl same ↦ (j, ground arith, n ∙ ap some (sym same))
                | inr i ↦ let (k, c, e) = p i in (k, ground (arith, c), e)
              ],
              λ (k, c, e). elim (Bool-cases (j == k)) [
                | inl same ↦
                    inl (ground (arith, n, ap (λ x. lookup x rules) ((==_iff j k).0 same), e))
                | inr other ↦ inr (q (k, ground (arith, other), e))
              ],
            )
    ]

contains-back : (k j : ℕ) (ks : List ℕ) → contains k (ks ++ j ∷ []) ≡ (contains k ks || j == k)
contains-back k j [] = ground arith
contains-back k j (i ∷ ks) = ground (arith, contains-back k j ks)

module _ {R : Type 0} (get_id : R → ℕ) where
  -- Some of the rules has the ID.
  abbrev pub has_rule_id : ℕ → List R → Bool
  has_rule_id id rs = some_of (λ r. get_id r == id) rs

  insert_all_prepared_lem :
      (current k id : ℕ) (rs : List R) (s : PreparedGts R)
      → let s' = insert_all_prepared get_id current rs s in
        (s'.old_std_rules ≡ s.old_std_rules)
        × (contains k (set_at s'.prep_from id)
            ≡ (contains k (set_at s.prep_from id) || (current == k && has_rule_id id rs)))
  unfolding insert_all_prepared insert_prepared
  insert_all_prepared_lem current k id [] s = (refl, ground arith)
  insert_all_prepared_lem current k id (r ∷ rs) s =
      let sources = set_at s.prep_from (get_id r) in
      let (same, rest) =
        insert_all_prepared_lem current k id rs (insert_prepared get_id current r s) in
      (
        same,
        ground (
          arith,
          rest,
          lookup-insert (get_id r) id (sources ++ current ∷ []) s.prep_from,
          contains-back k current sources,
        ),
      )

  module _ (prepare : R → List R) where
    -- A rule with the ID `k` has been prepared to one with the ID `id`.
    abbrev made : ℕ → ℕ → List (ℕ × R) → Bool
    made k id rules = some_of (λ p. p.0 == k && has_rule_id id (prepare p.1)) rules

    prepare_rules_lem :
        (k id : ℕ) (rules : List (ℕ × R)) (s : PreparedGts R)
        → let s' = prepare_rules get_id prepare rules s in
          (s'.old_std_rules ≡ s.old_std_rules)
          × (contains k (set_at s'.prep_from id)
              ≡ (contains k (set_at s.prep_from id) || made k id rules))
    unfolding prepare_rules
    prepare_rules_lem k id [] s = (refl, ground arith)
    prepare_rules_lem k id ((i, r) ∷ rules) s =
        let (same, new) = insert_all_prepared_lem i k id (prepare r) s in
        let (same', new') =
          prepare_rules_lem k id rules (insert_all_prepared get_id i (prepare r) s) in
        (same' ∙ same, ground (arith, new, new'))

    made-lookup :
        (k id : ℕ) (rules : List (ℕ × R))
        → IsOrdered rules
        → made k id rules
          ≡ elim (lookup k rules) [ none ↦ false | some r ↦ has_rule_id id (prepare r) ]
    made-lookup k id [] o = refl
    made-lookup k id ((j, r) ∷ rules) (a, o) =
        let rest = made-lookup k id rules o in
        elim (Bool-cases (j == k)) [
          | inl same ↦
              let is_k = (==_iff j k).0 same in
              let gone : lookup k rules ≡ none =
                lookup-before k rules (subst (λ x. all_of (λ p. ltb x p.0) rules ≡ true) is_k a) in
              ground (arith, same, rest, gone)
          | inr other ↦ ground (arith, other, rest)
        ]

-- getOriginalRules returns, for any ID, exactly the original rules of which the preparation has
-- given a rule with this ID, when the constructor has prepared a map of rules with a preparer that
-- is not null.
pub get_original_rules_lem :
    {R : Type 0} (get_id : R → ℕ) (prepare : Bool → R → List R) (opt : Bool) (rules : List (ℕ × R))
    (id : ℕ) (r : R)
    → IsOrdered rules
    → In r (get_original_rules (prepare_gts get_id (some prepare) opt rules) id)
      ↔ ((k : ℕ) × (lookup k rules ≡ some r) × (has_rule_id get_id id (prepare opt r) ≡ true))
unfolding get_original_rules prepare_gts
get_original_rules_lem {R = R} get_id prepare opt rules id r o =
    let s0 : PreparedGts R = record { old_std_rules = rules; std_rules = []; prep_from = [] } in
    let s = prepare_rules get_id (prepare opt) rules s0 in
    let ks = set_at s.prep_from id in
    let (p, q) = In-originals rules ks r in
    let listed : (k : ℕ)
        → lookup k rules ≡ some r
        → contains k ks ≡ has_rule_id get_id id (prepare opt r) =
      λ k e.
        let (_, new) = prepare_rules_lem get_id (prepare opt) k id rules s0 in
        ground (arith, new, made-lookup get_id (prepare opt) k id rules o, e) in
    let (same, _) = prepare_rules_lem get_id (prepare opt) 0 id rules s0 in
    rw same (
      λ h. let (k, c, e) = p h in (k, e, sym (listed k e) ∙ c),
      λ (k, e, c). q (k, listed k e ∙ c, e),
    )
