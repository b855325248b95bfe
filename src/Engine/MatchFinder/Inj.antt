-- ===== src/Engine/MatchFinder/Inj.antt =====
-- enumAllIsoNodesInj: all ways to map the isolated vertices to different targets.
use uncover.Base.{
  ℕ, ◌≡◌, ◌⊎◌, refl, List, [], ◌∷◌, ◌++◌, true, false, some, arith, contains, insert, lookup-insert,
  insert_id, erase_id, contains-insert_id, contains-erase_id, In, In-append, IsDistinct, ◌==◌,
  Bool-cases, inl, inr, ◌∙◌, sym, subst, ap, ==_iff, false,
}
use uncover.Graphs.Mapping.{Mapping, get_tar}
use uncover.Engine.MatchFinder.Partial.{IsInjective}
use uncover.Engine.MatchFinder.Isolated.{Enumeration, inj_targets, enum_inj}
use uncover.Engine.MatchFinder.Filled.{
  IsFilled, Agrees, IsFilled-insert, IsFilled-before, Agrees-insert, Agrees-before,
}

-- The mapping sends these sources to targets that are not taken.
abbrev pub Admits : Mapping → List ℕ → List ℕ → List ℕ → Type 0
Admits f is targets taken =
    (i : ℕ)
    → contains i is ≡ true
    → (t : ℕ) × (get_tar f i ≡ some t) × (contains t targets ≡ true) × (contains t taken ≡ false)

-- The mapping sends these sources to different targets, none of which is taken.
pub record Spread (m : Mapping) (is taken : List ℕ) : Type 0 where
  pub free : (i t : ℕ) → contains i is ≡ true → get_tar m i ≡ some t → contains t taken ≡ false
  pub single :
      (i j t : ℕ)
      → contains i is ≡ true
      → contains j is ≡ true
      → get_tar m i ≡ some t
      → get_tar m j ≡ some t
      → i ≡ j

-- What a call adds, and that it leaves the taken targets as they were; `Q` restricts which mappings
-- it must not miss.
pub record Enumerated (targets is : List ℕ) (Q : Mapping → Type 0) (s s' : Enumeration)
    : Type 0 where
  pub sound : (m : Mapping) → In m s'.all → In m s.all ⊎ IsFilled is targets s.current m
  pub spread : (m : Mapping) → In m s'.all → In m s.all ⊎ Spread m is s.no_targets
  pub kept : (m : Mapping) → In m s.all → In m s'.all
  pub others : (i : ℕ) → contains i is ≡ false → get_tar s'.current i ≡ get_tar s.current i
  pub same : (t : ℕ) → contains t s'.no_targets ≡ contains t s.no_targets
  pub complete :
      (f : Mapping)
      → Q f
      → IsInjective f
      → Admits f is targets s.no_targets
      → (m : Mapping) × In m s'.all × Agrees is f s.current m

abbrev pub Any : Mapping → Type 0
Any f = Unit

enum_inj-nil :
    (targets : List ℕ) (s : Enumeration)
    → Enumerated targets [] Any s (record s { all = s.all ++ s.current ∷ [] })
enum_inj-nil targets s = record {
  sound = λ m k. elim ((In-append m s.all (s.current ∷ [])).0 k) [
    | inl old ↦ inl old
    | inr (inl here) ↦ inr (
        subst (IsFilled [] targets s.current) (sym here)
          (record { filled = λ i c. cc; others = λ i c. refl }))
    | inr (inr gone) ↦ absurd gone
  ];
  spread = λ m k. elim ((In-append m s.all (s.current ∷ [])).0 k) [
    | inl old ↦ inl old
    | inr new ↦ inr (record { free = λ i t c. cc; single = λ i j t c. cc })
  ];
  kept = λ m k. (In-append m s.all (s.current ∷ [])).1 (inl k);
  others = λ i c. refl;
  same = λ t. refl;
  complete = λ f q j a.
      (s.current, (In-append s.current s.all (s.current ∷ [])).1 (inr (inl refl)), λ i. refl);
}

-- Entering the recursive call for the target `t`, and leaving it.
abbrev entered : ℕ → ℕ → Enumeration → Enumeration
entered i t s = record s { no_targets = insert_id t s.no_targets; current = insert i t s.current }

abbrev left : ℕ → Enumeration → Enumeration
left t s = record s { no_targets = erase_id t s.no_targets }

-- The targets that the loop still tries.
abbrev Among : ℕ → List ℕ → Mapping → Type 0
Among i ts f = (t : ℕ) × (get_tar f i ≡ some t) × (contains t ts ≡ true)

-- A target that is taken is passed.
pass-Enumerated :
    (targets is ts : List ℕ) (i t : ℕ) (s s' : Enumeration)
    → contains t s.no_targets ≡ true
    → Enumerated targets (i ∷ is) (Among i ts) s s'
    → Enumerated targets (i ∷ is) (Among i (t ∷ ts)) s s'
pass-Enumerated targets is ts i t s s' taken h = record {
  sound = h.sound;
  spread = h.spread;
  kept = h.kept;
  others = h.others;
  same = h.same;
  complete = λ f (u, at, c) j a.
      let (w, at', c', free) = a i (ground arith) in
      let is_w : u ≡ w = ground (arith, at, at') in
      let other : (t == u) ≡ false = ground (arith, is_w, free, taken) in
      h.complete f (u, at, ground (arith, c, other)) j a;
}

Spread-same :
    (m : Mapping) (is taken taken' : List ℕ)
    → ((t : ℕ) → contains t taken ≡ contains t taken')
    → Spread m is taken
    → Spread m is taken'
Spread-same m is taken taken' same p = record {
  free = λ i t c e. sym (same t) ∙ p.free i t c e;
  single = p.single;
}

Spread-insert :
    (m : Mapping) (is : List ℕ) (i t : ℕ) (taken : List ℕ)
    → contains t taken ≡ false
    → get_tar m i ≡ some t
    → Spread m is (insert_id t taken)
    → Spread m (i ∷ is) taken
Spread-insert m is i t taken free sent p =
    let other : (j u : ℕ)
        → contains j is ≡ true
        → get_tar m j ≡ some u
        → ((t == u) ≡ false) × (contains u taken ≡ false) =
      λ j u c e. ground (arith, p.free j u c e, contains-insert_id t u taken) in
    let own : (j u : ℕ) → (i == j) ≡ true → get_tar m j ≡ some u → t ≡ u =
      λ j u same e. ground (arith, ap (get_tar m) ((==_iff i j).0 same), sent, e) in
    record {
      free = λ j u c e. elim (Bool-cases (i == j)) [
        | inl same ↦ ground (arith, own j u same e, free)
        | inr apart ↦ (other j u (ground (arith, c, apart)) e).1
      ];
      single = λ j k u c d e e'. elim (Bool-cases (i == j)) [
        | inl same ↦ elim (Bool-cases (i == k)) [
          | inl same' ↦ ground (arith, same, same')
          | inr apart' ↦
              absurd (ground (arith, own j u same e, other k u (ground (arith, d, apart')) e'))
        ]
        | inr apart ↦ elim (Bool-cases (i == k)) [
          | inl same' ↦
              absurd (ground (arith, own k u same' e', other j u (ground (arith, c, apart)) e))
          | inr apart' ↦ p.single j k u (ground (arith, c, apart)) (ground (arith, d, apart')) e e'
        ]
      ];
    }

-- A target that is free is used first, and then the others.
use-Enumerated :
    (targets is ts : List ℕ) (i t : ℕ) (s s' s'' : Enumeration)
    → contains i is ≡ false
    → contains t targets ≡ true
    → contains t s.no_targets ≡ false
    → Enumerated targets is Any (entered i t s) s'
    → Enumerated targets (i ∷ is) (Among i ts) (left t s') s''
    → Enumerated targets (i ∷ is) (Among i (t ∷ ts)) s s''
use-Enumerated targets is ts i t s s' s'' apart here free h rest =
    let before : (j : ℕ)
        → contains j (i ∷ is) ≡ false
        → get_tar s'.current j ≡ get_tar s.current j =
      λ j c. ground (arith, c, h.others j (ground (arith, c)), lookup-insert i j t s.current) in
    let back : (u : ℕ) → contains u (left t s').no_targets ≡ contains u s.no_targets = λ u. ground (
      arith,
      h.same u,
      free,
      contains-erase_id t u s'.no_targets,
      contains-insert_id t u s.no_targets,
    ) in
    record {
      sound = λ m k. elim (rest.sound m k) [
        | inr later ↦ inr (IsFilled-before (i ∷ is) targets s.current s'.current m before later)
        | inl old ↦ elim (h.sound m old) [
          | inl older ↦ inl older
          | inr now ↦ inr (IsFilled-insert i t is targets s.current m apart here now)
        ]
      ];
      spread = λ m k. elim (rest.spread m k) [
        | inr later ↦ inr (Spread-same m (i ∷ is) (left t s').no_targets s.no_targets back later)
        | inl old ↦ elim (h.sound m old) [
          | inl older ↦ inl older
          | inr now ↦ elim (h.spread m old) [
            | inl older ↦ inl older
            | inr apart_too ↦
                let sent : get_tar m i ≡ some t =
                  now.others i apart ∙ ground (arith, lookup-insert i i t s.current) in
                inr (Spread-insert m is i t s.no_targets free sent apart_too)
          ]
        ]
      ];
      kept = λ m k. rest.kept m (h.kept m k);
      others = λ j c. rest.others j c ∙ before j c;
      same = λ u. rest.same u ∙ back u;
      complete = λ f (u, at, c) j a. elim (Bool-cases (t == u)) [
        | inl same ↦
            let at' : get_tar f i ≡ some t = ground (arith, at, same) in
            let admits : Admits f is targets (entered i t s).no_targets = λ k d.
              let (w, at_k, c_k, free_k) = a k (ground (arith, d)) in
              let other : (t == w) ≡ false = elim (Bool-cases (t == w)) [
                | inr o ↦ o
                | inl e ↦
                    let is_i : k ≡ i = j k i t (ground (arith, at_k, e)) at' in
                    absurd (ground (arith, apart, is_i, d))
              ] in
              (w, at_k, c_k, ground (arith, other, free_k, contains-insert_id t w s.no_targets)) in
            let (m, k, g) = h.complete f tt j admits in
            (m, rest.kept m k, Agrees-insert i t is f s.current m at' g)
        | inr other ↦
            let admits : Admits f (i ∷ is) targets (left t s').no_targets =
              λ k d. let (w, at_k, c_k, free_k) = a k d in (w, at_k, c_k, back w ∙ free_k) in
            let (m, k, g) = rest.complete f (u, at, ground (arith, c, other)) j admits in
            (m, k, Agrees-before (i ∷ is) f s.current s'.current m before g)
      ];
    }

inj_targets-Enumerated :
    (targets is : List ℕ) (i : ℕ) (go : Enumeration → Enumeration)
    → contains i is ≡ false
    → ((s : Enumeration) → Enumerated targets is Any s (go s))
    → (ts : List ℕ) (s : Enumeration) → ((t : ℕ) → contains t ts ≡ true → contains t targets ≡ true)
    → Enumerated targets (i ∷ is) (Among i ts) s (inj_targets go i ts s)
unfolding inj_targets
inj_targets-Enumerated targets is i go apart calls [] s sub = record {
  sound = λ m k. inl k;
  spread = λ m k. inl k;
  kept = λ m k. k;
  others = λ j c. refl;
  same = λ t. refl;
  complete = λ f (u, at, c) j a. cc;
}
inj_targets-Enumerated targets is i go apart calls (t ∷ ts) s sub =
    let sub' : (u : ℕ) → contains u ts ≡ true → contains u targets ≡ true =
      λ u c. sub u (ground (arith, c)) in
    elim (Bool-cases (contains t s.no_targets)) [
      | inl taken ↦ rw taken (
          pass-Enumerated targets is ts i t s _ taken
            (inj_targets-Enumerated targets is i go apart calls ts s sub'))
      | inr free ↦ rw free (
          use-Enumerated targets is ts i t s (go (entered i t s)) _ apart (sub t (ground arith))
            free (calls (entered i t s))
            (inj_targets-Enumerated targets is i go apart calls ts (left t (go (entered i t s)))
              sub'))
    ]

-- For distinct vertices: every result maps each of them to a target, different ones to different
-- targets and none to one that is taken, and all else as before, the set of taken targets is
-- restored, and no injective choice of targets that are not taken is missed.
pub enum_inj_lem :
    (targets is : List ℕ) (s : Enumeration)
    → IsDistinct is
    → Enumerated targets is Any s (enum_inj targets is s)
unfolding enum_inj
enum_inj_lem targets [] s d = enum_inj-nil targets s
enum_inj_lem targets (i ∷ is) s d =
    let h =
      inj_targets-Enumerated targets is i (enum_inj targets is) d.0
        (λ u. enum_inj_lem targets is u d.1) targets s (λ t c. c) in
    record {
      sound = h.sound;
      spread = h.spread;
      kept = h.kept;
      others = h.others;
      same = h.same;
      complete =
          λ f q j a. let (t, at, c, free) = a i (ground arith) in h.complete f (t, at, c) j a;
    }
