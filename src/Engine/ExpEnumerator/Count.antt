-- ===== src/Engine/ExpEnumerator/Count.antt =====
-- The sequence of digits as a number.
use uncover.Base.{
  ℕ, zero, suc, ◌+◌, ◌*◌, ◌<◌, ◌≤◌, ◌≡◌, refl, List, [], ◌∷◌, true, all_of, arith, length, ltb, leb,
  if◌then◌else◌, ap, ◌∙◌,
}
use native.Mathlib.Nat.{mul-zero, mul-suc, mul-le-mul_left}
use uncover.Engine.ExpEnumerator.{
  ExpEnumerator, zeros, some_below, increment, can_count_up, next, size,
}

-- The number in base `b + 1` that the digits stand for, the lowest first.
abbrev pub value : ℕ → List ℕ → ℕ
value b [] = 0
value b (d ∷ ds) = d + (b + 1) * value b ds

abbrev pub power : ℕ → ℕ → ℕ
power b zero = 1
power b (suc n) = (b + 1) * power b n

-- Every digit is one of the values.
abbrev pub IsBounded : ExpEnumerator → Type 0
IsBounded e = all_of (λ d. leb d e.base) e.data_values ≡ true

increment-value :
    (b : ℕ) (ds : List ℕ)
    → all_of (λ d. leb d b) ds ≡ true
    → value b (increment b ds) ≡ (if some_below b ds then suc (value b ds) else 0)
unfolding increment some_below
increment-value b [] h = refl
increment-value b (d ∷ ds) h = ground (arith, increment-value b ds, mul-suc (b + 1) (value b ds))

increment-bounded :
    (b : ℕ) (ds : List ℕ)
    → all_of (λ d. leb d b) ds ≡ true
    → all_of (λ d. leb d b) (increment b ds) ≡ true
unfolding increment
increment-bounded b [] h = refl
increment-bounded b (d ∷ ds) h = ground (arith, increment-bounded b ds)

length-increment : (b : ℕ) (ds : List ℕ) → length (increment b ds) ≡ length ds
unfolding increment
length-increment b [] = refl
length-increment b (d ∷ ds) = ground (arith, length-increment b ds)

scaled : (b m n : ℕ) → m ≤ n → (b + 1) * m ≤ (b + 1) * n
scaled b m n h = mul-le-mul_left (b + 1) h

pub value-below :
    (b : ℕ) (ds : List ℕ) → all_of (λ d. leb d b) ds ≡ true → value b ds < power b (length ds)
value-below b [] h = omega arith
value-below b (d ∷ ds) h = ground (
  arith,
  value-below b ds,
  scaled b (suc (value b ds)) (power b (length ds)),
  mul-suc (b + 1) (value b ds),
)

some_below-value :
    (b : ℕ) (ds : List ℕ)
    → all_of (λ d. leb d b) ds ≡ true
    → some_below b ds ≡ ltb (suc (value b ds)) (power b (length ds))
unfolding some_below
some_below-value b [] h = refl
some_below-value b (d ∷ ds) h = ground (
  arith,
  some_below-value b ds,
  value-below b ds,
  scaled b (suc (value b ds)) (power b (length ds)),
  scaled b (suc (suc (value b ds))) (power b (length ds)),
  scaled b (power b (length ds)) (suc (value b ds)),
  mul-suc (b + 1) (value b ds),
  mul-suc (b + 1) (suc (value b ds)),
)

digits_unique :
    (b d d' v v' : ℕ) → d ≤ b → d' ≤ b → d + (b + 1) * v ≡ d' + (b + 1) * v' → (d ≡ d') × (v ≡ v')
digits_unique b d d' zero zero h h' e = ground arith
digits_unique b d d' zero (suc v') h h' e = absurd (omega (arith, mul-suc (b + 1) v'))
digits_unique b d d' (suc v) zero h h' e = absurd (omega (arith, mul-suc (b + 1) v))
digits_unique b d d' (suc v) (suc v') h h' e =
    let (p, q) =
      digits_unique b d d' v v' h h' (omega (arith, mul-suc (b + 1) v, mul-suc (b + 1) v')) in
    (p, ap (λ n. suc n) q)

pub value-injective :
    (b : ℕ) (ds es : List ℕ)
    → length ds ≡ length es
    → all_of (λ d. leb d b) ds ≡ true
    → all_of (λ d. leb d b) es ≡ true
    → value b ds ≡ value b es
    → ds ≡ es
value-injective b [] [] l h k e = refl
value-injective b [] (x ∷ es) l h k e = absurd (omega arith)
value-injective b (x ∷ ds) [] l h k e = absurd (omega arith)
value-injective b (x ∷ ds) (y ∷ es) l h k e =
    let (p, q) = digits_unique b x y (value b ds) (value b es) (ground arith) (ground arith) e in
    let r = value-injective b ds es (omega arith) (ground arith) (ground arith) q in cc

-- operator++ adds one to the number that the digits stand for, or returns to 0 after the last
-- sequence; the digits stay in their range.
pub next_lem :
    (e : ExpEnumerator)
    → IsBounded e
    → let f = next e in
      (value e.base f.data_values
        ≡ (if can_count_up e then suc (value e.base e.data_values) else 0))
      × IsBounded f
      × (size f ≡ size e)
unfolding next can_count_up
next_lem e h = (
  increment-value e.base e.data_values h,
  increment-bounded e.base e.data_values h,
  length-increment e.base e.data_values,
)

-- canCountUp answers false exactly for the last of the sequences.
pub can_count_up_lem :
    (e : ExpEnumerator)
    → IsBounded e
    → can_count_up e ≡ ltb (suc (value e.base e.data_values)) (power e.base (size e))
unfolding can_count_up
can_count_up_lem e h = some_below-value e.base e.data_values h

abbrev pub times : ℕ → ExpEnumerator → ExpEnumerator
times zero e = e
times (suc k) e = next (times k e)

pub value-zeros : (b n : ℕ) → value b (zeros n) ≡ 0
value-zeros b zero = refl
value-zeros b (suc n) =
    omega (arith, value-zeros b n, mul-zero (b + 1), ap (λ k. (b + 1) * k) (value-zeros b n))

record Counted (b n k : ℕ) (e : ExpEnumerator) : Type 0 where
  base : e.base ≡ b
  number : value b e.data_values ≡ k
  bounded : all_of (λ d. leb d b) e.data_values ≡ true
  sized : length e.data_values ≡ n

pub zeros-bounded : (b n : ℕ) → all_of (λ d. leb d b) (zeros n) ≡ true
zeros-bounded b zero = refl
zeros-bounded b (suc n) = ground (arith, zeros-bounded b n)

pub length-zeros : (n : ℕ) → length (zeros n) ≡ n
length-zeros zero = refl
length-zeros (suc n) = ap (λ k. suc k) (length-zeros n)

abbrev counter_at : ℕ → ℕ → ExpEnumerator
counter_at b n = record { data_values = zeros n; base = b }

-- As long as the number stays below the number of sequences, it counts the calls.
times-Counted : (b n k : ℕ) → k < power b n → Counted b n k (times k (counter_at b n))
unfolding next
times-Counted b n zero h = record {
  base = refl;
  number = value-zeros b n;
  bounded = zeros-bounded b n;
  sized = length-zeros n;
}
times-Counted b n (suc k) h =
    let r = times-Counted b n k (omega arith) in
    let ds = (times k (counter_at b n)).data_values in
    record {
      base = r.base;
      number = rw r.base (
          ground (
            arith,
            increment-value b ds r.bounded,
            some_below-value b ds r.bounded,
            r.number,
            r.sized,
          ));
      bounded = rw r.base (increment-bounded b ds r.bounded);
      sized = length-increment (times k (counter_at b n)).base ds ∙ r.sized;
    }

-- Every sequence of n values up to b is met: after as many calls of operator++ from the first
-- sequence as its number says, which is less than (b + 1) to the power n.
pub times-meets :
    (b : ℕ) (ds : List ℕ)
    → all_of (λ d. leb d b) ds ≡ true
    → ((times (value b ds) (record { data_values = zeros (length ds); base = b })).data_values ≡ ds)
      × (value b ds < power b (length ds))
times-meets b ds h =
    let room = value-below b ds h in
    let r = times-Counted b (length ds) (value b ds) room in
    (value-injective b _ ds r.sized r.bounded h r.number, room)
