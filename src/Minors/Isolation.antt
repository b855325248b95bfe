-- ===== src/Minors/Isolation.antt =====
-- enoughIsolated counts the classes without an image.
use uncover.Base.{
  ℕ, zero, suc, ◌-◌, ◌≡◌, refl, List, [], ◌∷◌, true, not, arith, length, select, some_of, leb, ◌<◌,
}
use uncover.Graphs.Mapping.{Mapping, has_src}
use uncover.Minors.{pos, negsuc, isolated_loop, enough_isolated}

-- The classes of which no ID is mapped.
abbrev pub free_classes : List (List ℕ) → Mapping → List (List ℕ)
free_classes part m = select (λ c. not (some_of (has_src m) c)) part

isolated_loop_lem :
    (part : List (List ℕ)) (m : Mapping) (n : ℕ)
    → 0 < n
    → isolated_loop part m n ≡ leb n (length (free_classes part m))
unfolding isolated_loop
isolated_loop_lem [] m n h = ground (arith, h)
isolated_loop_lem (c ∷ part) m n h =
    ground (arith, h, isolated_loop_lem part m n, isolated_loop_lem part m (n - 1))

-- The test passes if and only if as many classes as asked for have no ID that is mapped.
pub enough_isolated_lem :
    (part : List (List ℕ)) (m : Mapping) (n : ℕ)
    → (enough_isolated part m (pos n) ≡ leb n (length (free_classes part m)))
      × (enough_isolated part m (negsuc n) ≡ true)
unfolding enough_isolated
enough_isolated_lem part m zero = (ground arith, refl)
enough_isolated_lem part m (suc n) = (isolated_loop_lem part m (suc n) (ground arith), refl)
