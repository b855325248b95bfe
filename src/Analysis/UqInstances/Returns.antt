-- ===== src/Analysis/UqInstances/Returns.antt =====
-- Every call of loadNextRule returns.
use native.Mathlib.Nat.{mul-suc, mod-eq_of_lt}
use mathlib.Core.List.{append_assoc}
use uncover.Base.{
  ℕ, zero, suc, ◌+◌, ◌*◌, ◌%◌, ◌^◌, ◌≤◌, ◌<◌, ◌≡◌, refl, List, [], ◌∷◌, ◌++◌, Option, Bool, true,
  false, some, arith, length, leb, length-append, if◌then◌else◌, if-intro, ◌∙◌, subst,
}
use uncover.Analysis.UqInstances.{
  Iterator, ended, stands, insert_rules, is_empty, load_loop, sum_current_quant, load_next_rule,
  load_fuel,
}
use uncover.Analysis.UqInstances.Order.{total}
use uncover.Analysis.UqInstances.Loop.{total-append, sum_current_quant-total}

-- An iterator that has not ended stores an instance, for n quantities within the bound.
abbrev pub IsWithin : {R : Type 0} → ℕ → ℕ → Iterator R → Type 0
IsWithin bound n ended = Unit
IsWithin bound n (stands c) =
    (total c.quant ≤ bound) × (length c.quant ≡ n) × (is_empty c.stored ≡ false)

-- What the fuel may lack: the values that the first quantity has run through.
abbrev credit : Bool → List ℕ → ℕ
credit true rest = 0
credit false [] = 0
credit false (q ∷ rest) = suc q

abbrev digit : Bool → ℕ → ℕ
digit first q = if first then q else suc q

leb_le : (a b : ℕ) → leb a b ≡ true → a ≤ b
leb_le a b h = ground arith

digit_lem :
    (first : Bool) (q : ℕ)
    → q + 1 < 2 ^ 32
    → (if first then q else (q + 1) % 2 ^ 32) ≡ digit first q
digit_lem true q h = refl
digit_lem false q h = mod-eq_of_lt h ∙ omega arith

module _ {R : Type 0} (prepared : List ℕ → List R) (bound : ℕ) (small : bound + 1 < 2 ^ 32) where
  abbrev Returns : ℕ → Option (Iterator R) → Type 0
  Returns n o = (it : Iterator R) × (o ≡ some it) × IsWithin bound n it

  load_loop-Returns :
      (fuel : ℕ) (first : Bool) (before rest : List ℕ) (stored : List R)
      → (bound + 2) * length rest + 1 ≤ fuel + credit first rest
      → total (before ++ rest) ≤ bound
      → Returns (length (before ++ rest)) (load_loop prepared bound fuel first before rest stored)
  unfolding load_loop
  load_loop-Returns zero first before [] stored r t = absurd (ground arith)
  load_loop-Returns zero first before (q ∷ rest) stored r t =
      absurd (ground (arith, total-append before (q ∷ rest), mul-suc (bound + 2) (length rest)))
  load_loop-Returns (suc fuel) first before [] stored r t = (ended, refl, tt)
  load_loop-Returns (suc fuel) first before (q ∷ rest) stored r t =
      let sum = total-append before (q ∷ rest) in
      let grown = digit_lem first q (omega arith) in
      let quant = before ++ digit first q ∷ rest in
      let stored' = insert_rules (prepared quant) stored in
      let size : length quant ≡ length (before ++ q ∷ rest) =
        omega
          (arith, length-append before (q ∷ rest), length-append before (digit first q ∷ rest)) in
      let same : sum_current_quant quant ≡ total quant =
        sum_current_quant-total quant
          (ground (arith, total-append before (digit first q ∷ rest))) in
      let n = length (before ++ q ∷ rest) in
      let scaled = mul-suc (bound + 2) (length rest) in
      let again = load_loop prepared bound fuel false before (digit first q ∷ rest) stored' in
      let over = load_loop prepared bound fuel false (before ++ 0 ∷ []) rest stored in
      let found = some (stands (record { quant = quant; stored = stored' })) in
      let more : (total quant ≤ bound → Returns n again) = λ l.
        subst (λ k. Returns k again) size
          (load_loop-Returns fuel false before (digit first q ∷ rest) stored'
            (ground (arith, scaled)) l) in
      let joined : (before ++ 0 ∷ []) ++ rest ≡ before ++ 0 ∷ rest =
        append_assoc before (0 ∷ []) rest in
      let shorter : total ((before ++ 0 ∷ []) ++ rest) ≤ bound =
        rw joined (omega (arith, total-append before (0 ∷ rest))) in
      let size' : length ((before ++ 0 ∷ []) ++ rest) ≡ n =
        rw joined
          (omega (arith, length-append before (0 ∷ rest), length-append before (q ∷ rest))) in
      let carry : Returns n over =
        subst (λ k. Returns k over) size'
          (load_loop-Returns fuel false (before ++ 0 ∷ []) rest stored (ground (arith, scaled))
            shorter) in
      let tried : (total quant ≤ bound → Returns n (if is_empty stored' then again else found)) =
        λ l.
          if-intro (Returns n) (is_empty stored') again found (λ _. more l)
            (λ f. (_, refl, (l, size, f))) in
      rw (grown, same)
        (if-intro (Returns n) (leb (total quant) bound) (if is_empty stored' then again else found)
          over (λ e. tried (leb_le (total quant) bound e)) (λ _. carry))

  -- Every call of loadNextRule returns, whatever the preparation gives: after it the iterator has
  -- ended, or it stores an instance for as many quantities as before, whose total is within the
  -- bound, as long as this held before and the bound lies below the largest unsigned int.
  pub load_next_rule-IsWithin :
      (first : Bool) (quant : List ℕ) (stored : List R)
      → total quant ≤ bound
      → (it : Iterator R) × (load_next_rule prepared bound first
            (record { quant = quant; stored = stored })
          ≡ some it)
        × IsWithin bound (length quant) it
  unfolding load_next_rule
  load_next_rule-IsWithin first quant [] h =
      load_loop-Returns (load_fuel prepared bound quant) first [] quant [] (ground arith) h
  load_next_rule-IsWithin first quant (r ∷ []) h =
      load_loop-Returns (load_fuel prepared bound quant) first [] quant (r ∷ []) (ground arith) h
  load_next_rule-IsWithin first quant (r ∷ r' ∷ rs) h = (_, refl, (h, refl, refl))
