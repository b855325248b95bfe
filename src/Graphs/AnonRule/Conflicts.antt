-- ===== src/Graphs/AnonRule/Conflicts.antt =====
-- isConflictFree.
use uncover.Base.{
  ℕ, ◌≡◌, ◌↔◌, refl, List, [], ◌∷◌, Bool, true, not, arith, length, all_of-contains, all_of-intro,
  contains, contains-single, IsOrdered, ltb, ==_refl, if◌then◌else◌, Bool-cases, inl, inr, ap,
}
use uncover.Graphs.Mapping.{Mapping, has_src}
use uncover.Graphs.Mapping.Inverse.{sends, all_of-inverse, lookup-inverse, inverse-found}
use uncover.Graphs.AnonRule.{AnonRule, same_defined, is_conflict_free}

-- Two sources are both in the domain of the interface or both outside.
abbrev agree : Mapping → ℕ → ℕ → Bool
agree m s x = if has_src m s then has_src m x else not (has_src m x)

same_defined-agrees :
    (m : Mapping) (ss : List ℕ) (s s' : ℕ)
    → same_defined m ss ≡ true
    → contains s ss ≡ true
    → contains s' ss ≡ true
    → has_src m s ≡ has_src m s'
same_defined-agrees m [] s s' h c d = cc
same_defined-agrees m (x ∷ ss) s s' h c d =
    ground (arith, all_of-contains (agree m x) ss s h, all_of-contains (agree m x) ss s' h)

agrees-same_defined :
    (m : Mapping) (ss : List ℕ)
    → ((s s' : ℕ) → contains s ss ≡ true → contains s' ss ≡ true → has_src m s ≡ has_src m s')
    → same_defined m ss ≡ true
agrees-same_defined m [] f = refl
agrees-same_defined m (x ∷ ss) f =
    all_of-intro (agree m x) ss (λ y c. ground (arith, f x y, ==_refl x))

-- isConflictFree answers true if and only if of two sources that the match identifies the rule
-- preserves both or neither.
pub is_conflict_free_iff :
    (r : AnonRule) (match : Mapping)
    → IsOrdered match
    → (is_conflict_free r match ≡ true) ↔ (
        (s s' t : ℕ)
        → sends match s t ≡ true
        → sends match s' t ≡ true
        → has_src r.interface s ≡ has_src r.interface s')
unfolding is_conflict_free
is_conflict_free_iff r match o =
    let q = (λ (ss : List ℕ). if ltb 1 (length ss) then same_defined r.interface ss else true) in
    let (to, from) = all_of-inverse q match in
    (
      λ h s s' t k k'.
          let (ss, found) = inverse-found match s t o k in
          elim (Bool-cases (ltb 1 (length ss))) [
            | inl many ↦ ground (
              arith,
              to h t ss found,
              lookup-inverse match s t ss o found,
              lookup-inverse match s' t ss o found,
              same_defined-agrees r.interface ss s s',
            )
            | inr one ↦
                let same : s ≡ s' =
                  contains-single s s' ss one (ground (arith, lookup-inverse match s t ss o found))
                    (ground (arith, lookup-inverse match s' t ss o found)) in
                ap (has_src r.interface) same
          ],
      λ f. from (λ t ss found.
          let agreed : (s s' : ℕ)
              → contains s ss ≡ true
              → contains s' ss ≡ true
              → has_src r.interface s ≡ has_src r.interface s' =
            λ s s' c d. ground (
              arith,
              f s s' t,
              lookup-inverse match s t ss o found,
              lookup-inverse match s' t ss o found,
            ) in
          ground (arith, agrees-same_defined r.interface ss agreed)),
    )
