-- ===== src/Graphs/Mapping/Delete.antt =====
-- delSrc and delTar.
use uncover.Base.{
  IsDistinct, ℕ, ◌+◌, ◌≡◌, refl, List, [], ◌∷◌, Bool, true, false, Option, none, some, arith,
  length, lookup, erase, lookup-erase, IsOrdered, erase-IsOrdered, length-erase, lookup-before,
  contains, ◌==◌, if◌then◌else◌,
}
use uncover.Graphs.Mapping.{
  Mapping, has_src, get_tar, del_src, del_all, del_srcs, sources_of, del_tar, del_tars,
}

pub del_all-get_tar :
    (m : Mapping) (ss : List ℕ) (i : ℕ)
    → get_tar (del_all m ss) i ≡ (if contains i ss then none else get_tar m i)
unfolding del_all
del_all-get_tar m [] i = refl
del_all-get_tar m (s ∷ ss) i = ground (arith, del_all-get_tar (erase s m) ss i, lookup-erase s i m)

pub del_all-IsOrdered : (m : Mapping) (ss : List ℕ) → IsOrdered m → IsOrdered (del_all m ss)
unfolding del_all
del_all-IsOrdered m [] o = o
del_all-IsOrdered m (s ∷ ss) o = del_all-IsOrdered (erase s m) ss (erase-IsOrdered s m o)

-- delSrc of a set removes exactly the given sources, and returns by how much the map got smaller.
pub del_srcs_lem :
    (m : Mapping) (ss : List ℕ) (i : ℕ)
    → IsOrdered m
    → let (m', n) = del_srcs m ss in
      (get_tar m' i ≡ (if contains i ss then none else get_tar m i))
      × IsOrdered m'
      × (length m ≡ length m' + n)
unfolding del_srcs del_src
del_srcs_lem m [] i o = (refl, o, omega arith)
del_srcs_lem m (s ∷ ss) i o =
    let (a, b, c) = del_srcs_lem (erase s m) ss i (erase-IsOrdered s m o) in
    (ground (arith, lookup-erase s i m, a), b, ground (arith, c, length-erase s m o))

-- What stays of an entry whose target may be deleted.
abbrev pub kept : (ℕ → Bool) → Option ℕ → Option ℕ
kept p none = none
kept p (some t) = if p t then none else some t

pub contains-sources_of :
    (p : ℕ → Bool) (m : Mapping) (s : ℕ)
    → IsOrdered m
    → contains s (sources_of p m) ≡ (elim (lookup s m) [ none ↦ false | some t ↦ p t ])
contains-sources_of p [] s o = refl
contains-sources_of p ((j, t) ∷ m) s o =
    ground (arith, contains-sources_of p m s o.1, lookup-before j m o.0)

sources_of-IsDistinct : (p : ℕ → Bool) (m : Mapping) → IsOrdered m → IsDistinct (sources_of p m)
sources_of-IsDistinct p [] o = tt
sources_of-IsDistinct p ((s, t) ∷ m) o =
    ground
      (arith, sources_of-IsDistinct p m o.1, contains-sources_of p m s o.1, lookup-before s m o.0)

length-del_all :
    (m : Mapping) (ss : List ℕ)
    → IsOrdered m
    → IsDistinct ss
    → ((s : ℕ) → contains s ss ≡ true → has_src m s ≡ true)
    → length m ≡ length (del_all m ss) + length ss
unfolding del_all
length-del_all m [] o d f = omega arith
length-del_all m (s ∷ ss) o d f =
    let rest : (x : ℕ) → contains x ss ≡ true → has_src (erase s m) x ≡ true =
      λ x c. ground (arith, f x, lookup-erase s x m, d.0) in
    ground (
      arith,
      length-del_all (erase s m) ss (erase-IsOrdered s m o) d.1 rest,
      length-erase s m o,
      f s,
    )

module _ (p : ℕ → Bool) (m : Mapping) (o : IsOrdered m) where
  del_matching_lem :
      (i : ℕ)
      → let m' = del_all m (sources_of p m) in
        (get_tar m' i ≡ kept p (get_tar m i))
        × IsOrdered m'
        × (length m ≡ length m' + length (sources_of p m))
  del_matching_lem i =
      let present : (s : ℕ) → contains s (sources_of p m) ≡ true → has_src m s ≡ true =
        λ s c. ground (arith, contains-sources_of p m s o) in
      (
        ground (arith, del_all-get_tar m (sources_of p m) i, contains-sources_of p m i o),
        del_all-IsOrdered m (sources_of p m) o,
        length-del_all m (sources_of p m) o (sources_of-IsDistinct p m o) present,
      )

-- delTar removes exactly the entries with the given target, and returns how many these were.
pub del_tar_lem :
    (m : Mapping) (t i : ℕ)
    → IsOrdered m
    → let (m', n) = del_tar m t in
      (get_tar m' i ≡ kept (λ u. u == t) (get_tar m i)) × IsOrdered m' × (length m ≡ length m' + n)
unfolding del_tar
del_tar_lem m t i o = del_matching_lem (λ u. u == t) m o i

-- delTar of a set removes exactly the entries with a target in the set, and returns how many these
-- were.
pub del_tars_lem :
    (m : Mapping) (ts : List ℕ) (i : ℕ)
    → IsOrdered m
    → let (m', n) = del_tars m ts in
      (get_tar m' i ≡ kept (λ u. contains u ts) (get_tar m i))
      × IsOrdered m'
      × (length m ≡ length m' + n)
unfolding del_tars
del_tars_lem m ts i o = del_matching_lem (λ u. contains u ts) m o i
