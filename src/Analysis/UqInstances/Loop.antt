-- ===== src/Analysis/UqInstances/Loop.antt =====
-- The loop of loadNextRule.
use mathlib.Core.List.{reverse_aux-eq, append_assoc}
use uncover.Base.{
  ℕ, zero, suc, ◌+◌, ◌%◌, ◌^◌, ◌≤◌, ◌<◌, ◌≡◌, inl, inr, refl, List, [], ◌∷◌, ◌++◌, false, Option,
  Bool-cases, none, some, arith, length, leb, ap, ◌∙◌, reverse, sym,
}
use native.Mathlib.Nat.{mod-eq_of_lt}
use uncover.Analysis.UqInstances.{
  Iterator, ended, stands, sum_from, sum_current_quant, insert_rules, is_empty, load_loop,
}
use uncover.Analysis.UqInstances.Order.{total, after, after-grown, after-carried}

sum_from-total : (k : ℕ) (qs : List ℕ) → k + total qs < 2 ^ 32 → sum_from k qs ≡ k + total qs
unfolding sum_from
sum_from-total k [] h = omega arith
sum_from-total k (q ∷ qs) h =
    let e : (k + q) % 2 ^ 32 ≡ k + q = mod-eq_of_lt (omega arith) in
    rw e (omega (arith, sum_from-total (k + q) qs (omega arith)))

pub sum_current_quant-total : (qs : List ℕ) → total qs < 2 ^ 32 → sum_current_quant qs ≡ total qs
unfolding sum_current_quant
sum_current_quant-total qs h = omega (arith, sum_from-total 0 qs (omega arith))

pub insert_rules-append :
    {R : Type 0} (rs stored : List R) → insert_rules rs stored ≡ reverse rs ++ stored
unfolding insert_rules
insert_rules-append rs stored = reverse_aux-eq rs stored

pub insert_rules-nonempty :
    {R : Type 0} (rs stored : List R) (r : R) → is_empty (insert_rules rs (r ∷ stored)) ≡ false
unfolding insert_rules
insert_rules-nonempty [] stored r = refl
insert_rules-nonempty (x ∷ rs) stored r = insert_rules-nonempty rs (r ∷ stored) x

pub total-append : (v w : List ℕ) → total (v ++ w) ≡ total v + total w
total-append [] w = omega arith
total-append (q ∷ v) w = omega (arith, total-append v w)

module _ {R : Type 0} (prepared : List ℕ → List R) (bound : ℕ) (small : bound + 1 < 2 ^ 32) where
  -- Where the loop ends when an instance is stored.
  abbrev pub landed : List ℕ → List R → Option (List ℕ) → Iterator R
  landed before stored none = ended
  landed before stored (some w) =
      let quant = before ++ w in
      stands (record { quant = quant; stored = insert_rules (prepared quant) stored })

  landed-carry :
      (before : List ℕ) (stored : List R) (o : Option (List ℕ))
      → landed (before ++ 0 ∷ []) stored o
        ≡ landed before stored (elim o [ none ↦ none | some w ↦ some (0 ∷ w) ])
  landed-carry before stored none = refl
  landed-carry before stored (some w) = rw (append_assoc before (0 ∷ []) w) refl

  pub load_loop-after :
      (fuel : ℕ) (before rest : List ℕ) (r : R) (stored : List R)
      → length rest < fuel
      → total before ≡ 0
      → total rest ≤ bound
      → load_loop prepared bound fuel false before rest (r ∷ stored)
        ≡ some (landed before (r ∷ stored) (after bound rest))
  unfolding load_loop
  load_loop-after zero before rest r stored f z h = absurd (omega arith)
  load_loop-after (suc fuel) before [] r stored f z h = refl
  load_loop-after (suc fuel) before (q ∷ rest) r stored f z h =
      let zero_too : total (before ++ 0 ∷ []) ≡ 0 = omega (arith, total-append before (0 ∷ [])) in
      let carried =
        load_loop-after fuel (before ++ 0 ∷ []) rest r stored (omega arith) zero_too
          (omega arith) in
      let grown : (q + 1) % 2 ^ 32 ≡ suc q = mod-eq_of_lt (omega arith) ∙ omega arith in
      let quant = before ++ suc q ∷ rest in
      let sum : sum_current_quant quant ≡ suc (q + total rest) =
        sum_current_quant-total quant (omega (arith, total-append before (suc q ∷ rest)))
        ∙ omega (arith, total-append before (suc q ∷ rest)) in
      let full = insert_rules-nonempty (prepared quant) stored r in
      let place = (λ (o : Option (List ℕ)). some (landed before (r ∷ stored) o)) in
      let carry = carried ∙ ap some (landed-carry before (r ∷ stored) (after bound rest)) in
      rw (grown, sum, full)
        (elim (Bool-cases (leb (suc (q + total rest)) bound)) [
          | inl e ↦ rw e (ap place (sym (after-grown bound q rest e)))
          | inr e ↦ rw e (carry ∙ ap place (sym (after-carried bound q rest e)))
        ])
