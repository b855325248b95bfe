-- ===== src/Engine/ExpEnumerator.antt =====
-- src/rule_engine/ExpEnumerator.h and ExpEnumerator.cpp: an odometer that enumerates all sequences
-- of a fixed length over a fixed number of values. The array `data` is a list, the lowest index
-- first.
pub mod Count
pub mod Examples
use uncover.Base.{
  ℕ, zero, suc, ◌+◌, ◌-◌, ◌%◌, ◌^◌, List, [], ◌∷◌, Bool, true, false, length, ltb, if◌then◌else◌,
  Option, get_elem?,
}

-- The field `base` is the largest value of a digit.
pub record ExpEnumerator : Type 0 where
  pub data_values : List ℕ
  pub base : ℕ

abbrev pub zeros : ℕ → List ℕ
zeros zero = []
zeros (suc n) = 0 ∷ zeros n

-- The constructor, with `base - 1` on a size_t of 64 bits.
unfoldable pub new_enumerator : ℕ → ℕ → ExpEnumerator
new_enumerator base exponent = record {
  data_values = zeros exponent;
  base = (base + (2 ^ 64 - 1)) % 2 ^ 64;
}

abbrev pub initialize : ExpEnumerator → ExpEnumerator
initialize e = record e { data_values = zeros (length e.data_values) }

-- The loops of canCountUp and of operator++ from some index on.
pub some_below : ℕ → List ℕ → Bool
some_below base [] = false
some_below base (d ∷ ds) = let rest = some_below base ds in if ltb d base then true else rest

unfoldable pub increment : ℕ → List ℕ → List ℕ
increment base [] = []
increment base (d ∷ ds) =
    let rest = increment base ds in if ltb d base then suc d ∷ ds else 0 ∷ rest

unfoldable pub can_count_up : ExpEnumerator → Bool
unfolding some_below
can_count_up e = some_below e.base e.data_values

unfoldable pub next : ExpEnumerator → ExpEnumerator
unfolding increment
next e = record e { data_values = increment e.base e.data_values }

abbrev pub size : ExpEnumerator → ℕ
size e = length e.data_values
