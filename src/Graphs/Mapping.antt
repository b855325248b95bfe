-- ===== src/Graphs/Mapping.antt =====
-- src/graphs/Mapping.h and Mapping.cpp: partial maps between the IDs of two graphs. The iterators
-- and the printing are left out.
pub mod Delete
pub mod Compose
pub mod Inverse
pub mod Compare
use uncover.Base.{
  ℕ, suc, ◌+◌, List, [], ◌∷◌, Bool, true, false, not, ◌&&◌, ◌||◌, Option, none, some, length, map,
  select, some_of, all_of, lookup, has_key, insert, erase, contains, insert_id, ◌==◌, if◌then◌else◌,
}

-- The field `match`.
abbrev pub Mapping : Type 0
Mapping = List (ℕ × ℕ)

abbrev pub has_src : Mapping → ℕ → Bool
has_src m s = has_key s m

abbrev pub has_tar : Mapping → ℕ → Bool
has_tar m t = some_of (λ p. p.1 == t) m

-- `none` is the std::out_of_range of `at`.
abbrev pub get_tar : Mapping → ℕ → Option ℕ
get_tar m s = lookup s m

-- `m[src] = tar`
abbrev pub set_tar : Mapping → ℕ → ℕ → Mapping
set_tar m s t = insert s t m

unfoldable pub del_src : Mapping → ℕ → Mapping × Bool
del_src m s = (erase s m, has_key s m)

-- The loop over `toDelete`.
unfoldable pub del_all : Mapping → List ℕ → Mapping
unfolding del_src
del_all m [] = m
del_all m (s ∷ ss) = del_all (del_src m s).0 ss

-- delSrc for a set, with the number of entries that it removes.
pub del_srcs : Mapping → List ℕ → Mapping × ℕ
unfolding del_src
del_srcs m [] = (m, 0)
del_srcs m (s ∷ ss) =
    let (m', gone) = del_src m s in
    let (m'', n) = del_srcs m' ss in (m'', (if gone then 1 else 0) + n)

-- The sources whose target passes a test, in the order of the iteration.
abbrev pub sources_of : (ℕ → Bool) → Mapping → List ℕ
sources_of p [] = []
sources_of p ((s, t) ∷ m) = if p t then s ∷ sources_of p m else sources_of p m

pub del_tar : Mapping → ℕ → Mapping × ℕ
unfolding del_all
del_tar m t = let to_delete = sources_of (λ u. u == t) m in (del_all m to_delete, length to_delete)

pub del_tars : Mapping → List ℕ → Mapping × ℕ
unfolding del_all
del_tars m ts =
    let to_delete = sources_of (λ u. contains u ts) m in (del_all m to_delete, length to_delete)

-- The first loop of concat, over the entries in their order: the map afterwards and `toDelete`.
pub concat_loop : Mapping → Mapping → Mapping → Mapping × List ℕ
concat_loop other [] m = (m, [])
concat_loop other ((s, t) ∷ rest) m =
    let (m', ss) = concat_loop other rest m in
    let found = (λ (u : ℕ). concat_loop other rest (insert s u m)) in
    elim (lookup t other) [ none ↦ (m', s ∷ ss) | some u ↦ found u ]

pub concat : Mapping → Mapping → Mapping
unfolding concat_loop del_all
concat m other = let (m', to_delete) = concat_loop other m m in del_all m' to_delete

-- getInverseMatch(tar): the set is filled entry by entry.
pub inverse_of : Mapping → ℕ → List ℕ
inverse_of [] t = []
inverse_of ((s, u) ∷ m) t = let rest = inverse_of m t in if t == u then insert_id s rest else rest

-- `invmatch[t]`, which is empty for a key that is missing.
abbrev pub set_at : List (ℕ × List ℕ) → ℕ → List ℕ
set_at m t = elim (lookup t m) [ none ↦ [] | some ss ↦ ss ]

-- getInverseMatch(invmatch), from the map that is filled so far.
unfoldable pub inverse_into : Mapping → List (ℕ × List ℕ) → List (ℕ × List ℕ)
inverse_into [] inv = inv
inverse_into ((s, t) ∷ m) inv = inverse_into m (insert t (insert_id s (set_at inv t)) inv)

unfoldable pub inverse : Mapping → List (ℕ × List ℕ)
unfolding inverse_into
inverse m = inverse_into m []

-- The loop of isInjective; the second argument is `idsFound`.
pub injective_from : Mapping → List ℕ → Bool
injective_from [] ids = true
injective_from ((s, t) ∷ m) ids =
    let rest = injective_from m (insert_id t ids) in if contains t ids then false else rest

pub is_injective : Mapping → Bool
unfolding injective_from
is_injective m = injective_from m []

-- operator==
pub equal : Mapping → Mapping → Bool
equal m n =
    if length m == length n
    then all_of (λ p. elim (lookup p.0 n) [ none ↦ false | some u ↦ p.1 == u ]) m
    else false
