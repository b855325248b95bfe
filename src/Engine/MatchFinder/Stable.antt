-- ===== src/Engine/MatchFinder/Stable.antt =====
-- What the search computes from its state does not depend on the order of the entries, so undoing a
-- round keeps all of it.
use uncover.Base.{
  ℕ, ◌≡◌, refl, List, [], ◌∷◌, arith, insert, lookup, sym, ◌∙◌, inl, inr, Option-cases,
}
use uncover.Graphs.Mapping.{Mapping, get_tar}
use uncover.Engine.MatchFinder.{Problem, Search, check_nodes, is_map_possible}
use uncover.Engine.MatchFinder.Partial.{edge_sent_mono, Extends}
use uncover.Engine.MatchFinder.Extend.{touched}
use uncover.Engine.MatchFinder.Invariant.{Input, Invariant, unmapped-same}
use uncover.Engine.MatchFinder.Undo.{Same}

check_nodes-same :
    (p : Problem) (temp m r m' r' : Mapping) (ss ts : List ℕ)
    → ((i : ℕ) → get_tar m i ≡ get_tar m' i)
    → ((i : ℕ) → get_tar r i ≡ get_tar r' i)
    → check_nodes p temp m r ss ts ≡ check_nodes p temp m' r' ss ts
unfolding check_nodes
check_nodes-same p temp m r m' r' [] ts a b = refl
check_nodes-same p temp m r m' r' (s ∷ ss) [] a b = refl
check_nodes-same p temp m r m' r' (s ∷ ss) (t ∷ ts) a b =
    ground (arith, a s, b t, check_nodes-same p (insert s t temp) m r m' r' ss ts a b)

pub is_map_possible-Same :
    (p : Problem) (e t : ℕ) (s s' : Search)
    → Same s s'
    → is_map_possible p e t s.current s.rev_current
      ≡ is_map_possible p e t s'.current s'.rev_current
unfolding is_map_possible
is_map_possible-Same p e t s s' same = elim (Option-cases (lookup e p.source.edges)) [
  | inl gone ↦ ground (arith, gone)
  | inr (a, is_a) ↦ elim (Option-cases (lookup t p.target.edges)) [
    | inl gone ↦ ground (arith, is_a, gone)
    | inr (b, is_b) ↦ ground (
      arith,
      is_a,
      is_b,
      same.rev_current t,
      check_nodes-same p [] s.current s.rev_current s'.current s'.rev_current a.vertices b.vertices
          same.current same.rev_current,
    )
  ]
]

touched-same :
    (m m' : Mapping) (vs : List ℕ)
    → ((i : ℕ) → get_tar m i ≡ get_tar m' i)
    → touched m vs ≡ touched m' vs
touched-same m m' [] a = refl
touched-same m m' (v ∷ vs) a = ground (arith, a v, touched-same m m' vs a)

pub Extends-same :
    (f m m' : Mapping) → ((i : ℕ) → get_tar m i ≡ get_tar m' i) → Extends f m → Extends f m'
Extends-same f m m' a x i t h = x i t (a i ∙ h)

pub Invariant-Same :
    (p : Problem) (n : ℕ) (s s' : Search) → Input p → Same s s' → Invariant p n s → Invariant p n s'
Invariant-Same p n s s' given same inv = record {
  back = λ i t u h. sym (same.current u) ∙ inv.back i t u (same.rev_current t ∙ h);
  forth = λ i u t h. ground (arith, inv.forth i u t (same.current u ∙ h), same.rev_current t);
  apart = λ i x y t h h'. inv.apart i x y t (same.current x ∙ h) (same.current y ∙ h');
  domain = λ i h. inv.domain i (ground (arith, h, same.current i));
  open_edges = λ e c.
      let (a, is_a, fresh, near) = inv.open_edges e (same.mappable e ∙ c) in
      (
        a,
        is_a,
        ground (arith, fresh, same.current e),
        sym (touched-same s.current s'.current a.vertices same.current) ∙ near,
      );
  partial = record {
    edges = λ e t h at.
        edge_sent_mono p.source p.target s'.current s.current e t
          (Extends-same s'.current s'.current s.current (λ i. sym (same.current i)) (λ i u k. k))
          (inv.partial.edges e t h (same.current e ∙ at));
    vertices = λ v x h at. inv.partial.vertices v x h (same.current v ∙ at);
  };
  counted =
      unmapped-same s.current s'.current p.source.edges (λ i h. ground (arith, same.current i))
        given.ordered
      ∙ inv.counted;
  ordered = same.ordered;
}
