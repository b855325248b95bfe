-- ===== src/Analysis/UqInstances/Complete.antt =====
-- What the iterator hands out before it has ended.
use native.Mathlib.Nat.{mul-suc}
use uncover.Base.{
  ℕ, zero, suc, ◌+◌, ◌*◌, ◌^◌, ◌≤◌, ◌<◌, ◌≡◌, ◌↔◌, ◌⊎◌, inl, inr, refl, List, [], ◌∷◌, ◌++◌, true,
  false, some, arith, length, leb, In, In-append, In-reverse, sym, subst, ◌∙◌, reverse,
}
use uncover.Analysis.UqInstances.{
  Iterator, ended, stands, insert_rules, no_quantities, load_loop, load_fuel, load_next_rule,
  begin_instances, served, sum_current_quant, all_instances,
}
use uncover.Analysis.UqInstances.Order.{
  total, after, Follows, later, later-Follows, In-vectors, total-no_quantities, after-total,
}
use uncover.Analysis.UqInstances.Loop.{
  insert_rules-nonempty, landed, load_loop-after, insert_rules-append, sum_current_quant-total,
}

fits : (b n : ℕ) → n ≤ (b + 2) * n
fits b zero = omega arith
fits b (suc n) = omega (arith, fits b n, mul-suc (b + 2) n)

module _ {R : Type 0} (prepared : List ℕ → List R) where
  -- The prepared instances of the vectors, the last of each first, with `a` after each vector.
  abbrev pub batches : R → List (List ℕ) → List R
  batches a [] = []
  batches a (w ∷ ws) = reverse (prepared w) ++ a ∷ batches a ws

module _ {R : Type 0} (prepared : List ℕ → List R) (bound : ℕ) where
  -- Enough calls of operator++ hand out the list and reach the end.
  abbrev pub Serves : Iterator R → List R → Type 0
  Serves it out = (fuel : ℕ) × (served prepared bound fuel it ≡ some out)

  Serves-step :
      (v : List ℕ) (x : R) (xs : List R) (it : Iterator R) (out : List R)
      → load_next_rule prepared bound false (record { quant = v; stored = x ∷ xs }) ≡ some it
      → Serves it out
      → Serves (stands (record { quant = v; stored = x ∷ xs })) (x ∷ out)
  unfolding served
  Serves-step v x xs it out load (fuel, e) = (suc fuel, rw (load, e) refl)

  Serves-stack :
      (v : List ℕ) (a : R) (xs out : List R)
      → Serves (stands (record { quant = v; stored = a ∷ [] })) out
      → Serves (stands (record { quant = v; stored = xs ++ a ∷ [] })) (xs ++ out)
  unfolding load_next_rule
  Serves-stack v a [] out s = s
  Serves-stack v a (x ∷ []) out s = Serves-step v x (a ∷ []) _ out refl s
  Serves-stack v a (x ∷ y ∷ xs) out s =
      Serves-step v x (y ∷ xs ++ a ∷ []) _ (y ∷ xs ++ out) refl (Serves-stack v a (y ∷ xs) out s)

  module _ (small : bound + 1 < 2 ^ 32) where
    load_next_rule-after :
        (v : List ℕ) (a : R)
        → total v ≤ bound
        → load_next_rule prepared bound false (record { quant = v; stored = a ∷ [] })
          ≡ some (landed prepared bound small [] (a ∷ []) (after bound v))
    unfolding load_next_rule
    load_next_rule-after v a h =
        load_loop-after prepared bound small (load_fuel prepared bound v) [] v a []
          (omega (arith, fits bound (length v))) refl h

    Serves-Follows :
        (ws : List (List ℕ)) (v : List ℕ) (a : R)
        → Follows bound v ws
        → total v ≤ bound
        → Serves (stands (record { quant = v; stored = a ∷ [] })) (a ∷ batches prepared a ws)
    unfolding served
    Serves-Follows [] v a f h =
        Serves-step v a [] ended [] (rw (load_next_rule-after v a h, f) refl) (1, refl)
    Serves-Follows (w ∷ ws) v a f h =
        let next : Iterator R =
          stands (record { quant = w; stored = insert_rules (prepared w) (a ∷ []) }) in
        let rest =
          Serves-stack w a (reverse (prepared w)) (a ∷ batches prepared a ws)
            (Serves-Follows ws w a f.1 (after-total bound v w f.0)) in
        Serves-step v a [] next (batches prepared a (w ∷ ws))
          (rw (load_next_rule-after v a h, f.0) refl)
          (rw (insert_rules-append (prepared w) (a ∷ [])) rest)

    begin_instances-first :
        (n : ℕ) (a : R) (rs : List R)
        → prepared (no_quantities (suc n)) ≡ a ∷ rs
        → begin_instances prepared bound (suc n)
          ≡ some
              (stands (record { quant = no_quantities (suc n); stored = insert_rules rs (a ∷ []) }))
    unfolding begin_instances load_next_rule load_loop insert_rules
    begin_instances-first n a rs e =
        let quant = no_quantities (suc n) in
        let sum : sum_current_quant quant ≡ 0 =
          sum_current_quant-total quant (omega (arith, total-no_quantities (suc n)))
          ∙ total-no_quantities (suc n) in
        let least : leb 0 bound ≡ true = ground arith in
        rw (sum, e, insert_rules-nonempty rs [] a, least) refl

    -- As soon as the preparation for the zero vector gives an instance, the iterator of a rule
    -- with a quantification ends, and it hands out the instances of each vector of quantities
    -- within the bound, from the last one prepared to the first, the vectors in their order; after
    -- those of each vector it hands out the first instance of the zero vector once more.
    pub all_instances_lem :
        (n : ℕ) (a : R) (rs : List R)
        → prepared (no_quantities (suc n)) ≡ a ∷ rs
        → (fuel : ℕ) × (all_instances prepared bound fuel (suc n)
            ≡ some (reverse rs ++ a ∷ batches prepared a (later bound (suc n))))
    unfolding all_instances
    all_instances_lem n a rs e =
        let quant = no_quantities (suc n) in
        let chain =
          Serves-Follows (later bound (suc n)) quant a (later-Follows bound (suc n))
            (omega (arith, total-no_quantities (suc n))) in
        let (fuel, run) = Serves-stack quant a (reverse rs) _ chain in
        (fuel, rw (begin_instances-first n a rs e, insert_rules-append rs (a ∷ [])) run)

module _ {R : Type 0} (prepared : List ℕ → List R) where
  -- Some vector of the list has the instance.
  abbrev Prepared : R → List (List ℕ) → Type 0
  Prepared r ws = (w : List ℕ) × In w ws × In r (prepared w)

  batches-Prepared :
      (a r : R) (ws : List (List ℕ)) → In r (batches prepared a ws) → (r ≡ a) ⊎ Prepared r ws
  batches-Prepared a r [] h = absurd h
  batches-Prepared a r (w ∷ ws) h =
      elim ((In-append r (reverse (prepared w)) (a ∷ batches prepared a ws)).0 h) [
        | inl i ↦ inr (w, inl refl, (In-reverse r (prepared w)).0 i)
        | inr (inl e) ↦ inl e
        | inr (inr i) ↦ elim (batches-Prepared a r ws i) [
          | inl e ↦ inl e
          | inr (w', j, k) ↦ inr (w', inr j, k)
        ]
      ]

  In-batches :
      (a r : R) (w : List ℕ) (ws : List (List ℕ))
      → In w ws
      → In r (prepared w)
      → In r (batches prepared a ws)
  In-batches a r w (w' ∷ ws) (inl e) h =
      (In-append r (reverse (prepared w')) (a ∷ batches prepared a ws)).1
        (inl ((In-reverse r (prepared w')).1 (subst (λ x. In r (prepared x)) e h)))
  In-batches a r w (w' ∷ ws) (inr i) h =
      (In-append r (reverse (prepared w')) (a ∷ batches prepared a ws)).1
        (inr (inr (In-batches a r w ws i h)))
  In-batches a r w [] i h = absurd i

  In-handed_out :
      (a r : R) (rs : List R) (first : List ℕ) (ws : List (List ℕ))
      → prepared first ≡ a ∷ rs
      → In r (reverse rs ++ a ∷ batches prepared a ws) ↔ Prepared r (first ∷ ws)
  In-handed_out a r rs first ws e =
      let (p, q) = In-append r (reverse rs) (a ∷ batches prepared a ws) in
      let (p', q') = In-reverse r rs in
      let known : (In r (a ∷ rs) → In r (prepared first)) = subst (λ xs. In r xs) (sym e) in
      (
        λ h. elim (p h) [
          | inl i ↦ (first, inl refl, known (inr (p' i)))
          | inr (inl i) ↦ (first, inl refl, known (inl i))
          | inr (inr i) ↦ elim (batches-Prepared a r ws i) [
            | inl j ↦ (first, inl refl, known (inl j))
            | inr (w, j, k) ↦ (w, inr j, k)
          ]
        ],
        λ (w, j, k). elim j [
          | inl f ↦ elim (subst (λ xs. In r xs) e (subst (λ x. In r (prepared x)) f k)) [
            | inl i ↦ q (inr (inl i))
            | inr i ↦ q (inl (q' i))
          ]
          | inr i ↦ q (inr (inr (In-batches a r w ws i k)))
        ],
      )

  -- As soon as the preparation for the zero vector gives an instance, the iterator of a rule with
  -- a quantification ends, and what it has handed out are exactly the prepared instances of the
  -- vectors that hold one quantity for each quantification and whose total is at most the bound,
  -- which lies below the largest unsigned int.
  pub all_instances_complete :
      (bound n : ℕ) (a : R) (rs : List R)
      → bound + 1 < 2 ^ 32
      → prepared (no_quantities (suc n)) ≡ a ∷ rs
      → (fuel : ℕ) × (out : List R) × (all_instances prepared bound fuel (suc n) ≡ some out)
        × ((r : R)
            → In r out
              ↔ ((w : List ℕ) × (length w ≡ suc n) × (total w ≤ bound) × In r (prepared w)))
  all_instances_complete bound n a rs small e =
      let (fuel, run) = all_instances_lem prepared bound small n a rs e in
      let first = no_quantities (suc n) in
      let rest = later bound (suc n) in
      (
        fuel,
        _,
        run,
        λ r.
            let (p, q) = In-handed_out a r rs first rest e in
            (
              λ h.
                  let (w, i, k) = p h in
                  let (l, t) = (In-vectors bound (suc n) w).0 i in (w, l, t, k),
              λ (w, l, t, k). q (w, (In-vectors bound (suc n) w).1 (l, t), k),
            ),
      )
