-- ===== src/Engine/ExpEnumerator/Examples.antt =====
-- Three digits up to 2.
use uncover.Base.{◌≡◌, ◌<◌, refl, [], ◌∷◌}
use uncover.Engine.ExpEnumerator.{ExpEnumerator, new_enumerator, zeros, next, increment}
use uncover.Engine.ExpEnumerator.Count.{value, power, times, times-meets}

abbrev some_digits : ExpEnumerator
some_digits = record { data_values = 2 ∷ 2 ∷ 1 ∷ []; base = 2 }

made : new_enumerator 3 3 ≡ record { data_values = 0 ∷ 0 ∷ 0 ∷ []; base = 2 }
unfolding new_enumerator
made = refl

carried : (next some_digits).data_values ≡ 0 ∷ 0 ∷ 2 ∷ []
unfolding next increment
carried = refl

times-meets_example :
    ((times (value 2 (2 ∷ 0 ∷ 1 ∷ [])) (record { data_values = zeros 3; base = 2 })).data_values
      ≡ 2 ∷ 0 ∷ 1 ∷ [])
    × (value 2 (2 ∷ 0 ∷ 1 ∷ []) < power 2 3)
times-meets_example = times-meets 2 (2 ∷ 0 ∷ 1 ∷ []) refl
