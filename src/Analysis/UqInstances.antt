-- ===== src/Analysis/UqInstances.antt =====
-- The class uqinst_iterator of src/analysis/PreparedGTS.h and PreparedGTS.cpp: the instances of a
-- universally quantified rule, prepared, one vector of quantities after the other.
pub mod Order
pub mod Loop
pub mod Returns
pub mod Complete
pub mod Rules
pub mod Examples
use uncover.Base.{
  ℕ, zero, suc, ◌+◌, ◌*◌, ◌%◌, ◌^◌, List, [], ◌∷◌, ◌++◌, Bool, true, false, not, Option, none, some,
  length, leb, if◌then◌else◌,
}

infixl 5 ◌>>=◌
abbrev pub ◌>>=◌ : {A B : Type 0} → Option A → (A → Option B) → Option B
none >>= f = none
some a >>= f = f a

-- The vectors `currentQuant` and `currentInstances`; the head of `stored` is the back of the
-- latter.
pub record Current (R : Type 0) : Type 0 where
  pub quant : List ℕ
  pub stored : List R

-- `ended` is the iterator whose two pointers are null.
pub data Iterator (R : Type 0) : Type 0 where
  ended : Iterator R
  stands : Current R → Iterator R

-- The loop of sumCurrentQuant on an unsigned int of 32 bits, from the sum so far.
unfoldable pub sum_from : ℕ → List ℕ → ℕ
sum_from result [] = result
sum_from result (q ∷ qs) = sum_from ((result + q) % 2 ^ 32) qs

unfoldable pub sum_current_quant : List ℕ → ℕ
unfolding sum_from
sum_current_quant qs = sum_from 0 qs

-- The calls of VectorCallback::insert for the rules of one preparation.
unfoldable pub insert_rules : {R : Type 0} → List R → List R → List R
insert_rules [] stored = stored
insert_rules (r ∷ rs) stored = insert_rules rs (r ∷ stored)

abbrev pub is_empty : {R : Type 0} → List R → Bool
is_empty [] = true
is_empty (r ∷ rs) = false

-- The zeros that the constructor stores.
abbrev pub no_quantities : ℕ → List ℕ
no_quantities zero = []
no_quantities (suc n) = 0 ∷ no_quantities n

module _ {R : Type 0} (prepared : List ℕ → List R) (bound : ℕ) where
  -- The loop of loadNextRule: `before` holds the quantities in front of `curIt`, `rest` those from
  -- it on. `prepared` stands for createInstance and the preparation of its result.
  unfoldable pub load_loop : ℕ → Bool → List ℕ → List ℕ → List R → Option (Iterator R)
  unfolding sum_current_quant insert_rules
  load_loop zero first before rest stored = none
  load_loop (suc fuel) first before [] stored = some ended
  load_loop (suc fuel) first before (q ∷ rest) stored =
      let q' = if first then q else (q + 1) % 2 ^ 32 in
      let quant = before ++ q' ∷ rest in
      let stored' = insert_rules (prepared quant) stored in
      let next = load_loop fuel false before (q' ∷ rest) stored' in
      let carry = load_loop fuel false (before ++ 0 ∷ []) rest stored in
      let found = some (stands (record { quant = quant; stored = stored' })) in
      if leb (sum_current_quant quant) bound
      then (if is_empty stored' then next else found)
      else carry

  -- Enough for every quantity to run through its values once.
  abbrev pub load_fuel : List ℕ → ℕ
  load_fuel quant = suc ((bound + 2) * length quant)

  -- loadNextRule; `none` is a loop that does not end within the fuel.
  unfoldable pub load_next_rule : Bool → Current R → Option (Iterator R)
  unfolding load_loop
  load_next_rule first c =
      let search = load_loop (load_fuel c.quant) first [] c.quant c.stored in
      elim c.stored [
        | [] ↦ search
        | r ∷ [] ↦ search
        | r ∷ r' ∷ rs ↦ some (stands (record c { stored = r' ∷ rs }))
      ]

  -- The constructor, for a rule with this number of quantifications.
  unfoldable pub begin_instances : ℕ → Option (Iterator R)
  unfolding load_next_rule
  begin_instances n = load_next_rule true (record { quant = no_quantities n; stored = [] })

  -- A loop that takes `*it` and then calls `++it`, until hasEnded: what it takes, in order. The
  -- back of an empty vector has no value.
  unfoldable pub served : ℕ → Iterator R → Option (List R)
  unfolding load_next_rule
  served zero it = none
  served (suc fuel) ended = some []
  served (suc fuel) (stands c) = elim c.stored [
    | [] ↦ none
    | r ∷ rs ↦ do it ← load_next_rule false c; rest ← served fuel it; some (r ∷ rest)
  ]

  -- The loop on the iterator that the constructor gives.
  unfoldable pub all_instances : ℕ → ℕ → Option (List R)
  unfolding begin_instances served
  all_instances fuel n = do it ← begin_instances n; served fuel it
