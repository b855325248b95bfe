-- ===== src/Engine/MatchFinder/Targets.antt =====
-- The loop of mapEdges over the possible targets, and what a call of mapEdges promises.
use uncover.Base.{
  IsOrdered, ℕ, suc, ◌≡◌, ◌⊎◌, refl, List, [], ◌∷◌, Bool, true, false, some, arith, contains, In,
  ◌==◌, ap, sym, subst, ◌∙◌, Bool-cases, inl, inr,
}
use uncover.Graphs.Hypergraph.{has_edge}
use uncover.Graphs.Mapping.{Mapping, has_src, get_tar}
use uncover.Engine.MatchFinder.{
  Result, ok, Problem, Search, Extension, is_map_possible, extend, undo, stops, try_targets,
}
use uncover.Engine.MatchFinder.Partial.{
  IsPartial, IsInjective, edge_sent, Extends, IsAlmostInjective,
}
use uncover.Engine.MatchFinder.Extend.{in_domain}
use uncover.Engine.MatchFinder.Invariant.{Input, Invariant, unmapped}
use uncover.Engine.MatchFinder.Round.{Extended, extend_lem}
use uncover.Engine.MatchFinder.Stable.{is_map_possible-Same, Invariant-Same, Extends-same}
use uncover.Engine.MatchFinder.Undo.{Same, Same-trans, undo-Same}

-- A match of the edges: like a morphism on what it maps, which are all edges and the vertices that
-- have an edge, and nothing else. In the injective mode it is almost injective.
pub record IsEdgeMatch (p : Problem) (m : Mapping) : Type 0 where
  pub partial : IsPartial p.source p.target m
  pub domain : (i : ℕ) → has_src m i ≡ true → in_domain p.source i ≡ true
  pub all_edges : unmapped m p.source.edges ≡ 0
  pub apart : p.injective ≡ true → IsAlmostInjective p.source m
  pub ordered : IsOrdered m

-- What the search must not miss: a mapping of all edges like in a morphism, in the injective case
-- without two sources of one target.
pub record IsCandidate (p : Problem) (f : Mapping) : Type 0 where
  pub partial : IsPartial p.source p.target f
  pub all_edges : (e : ℕ) → has_edge p.source e ≡ true → has_src f e ≡ true
  pub injective : p.injective ≡ true → IsInjective f

-- Some mapping of the list is the part of `f` that the search maps.
abbrev pub Hit : Mapping → List Mapping → Type 0
Hit f ms = (m : Mapping) × In m ms × Extends f m

-- All rounds are undone, and no candidate above the state is missed.
pub record Finished (p : Problem) (s s' : Search) : Type 0 where
  pub same : Same s s'
  pub complete : (f : Mapping) → IsCandidate p f → Extends f s.current → Hit f s'.found

-- What a call of mapEdges promises: it only adds matches, and it is stopped by the first one or it
-- has tried everything.
pub record Promise (p : Problem) (s s' : Search) : Type 0 where
  pub sound : (m : Mapping) → In m s'.found → In m s.found ⊎ IsEdgeMatch p m
  pub kept : (m : Mapping) → In m s.found → In m s'.found
  pub ended : (stops p s' ≡ true) ⊎ Finished p s s'

pub Hit-kept :
    (f : Mapping) (ms ms' : List Mapping)
    → ((m : Mapping) → In m ms → In m ms')
    → Hit f ms
    → Hit f ms'
Hit-kept f ms ms' k (m, i, x) = (m, k m i, x)

-- The same for the loop, with the flag that it returns.
pub record Tried (p : Problem) (e : ℕ) (ts : List ℕ) (s s' : Search) (returned : Bool)
    : Type 0 where
  pub sound : (m : Mapping) → In m s'.found → In m s.found ⊎ IsEdgeMatch p m
  pub kept : (m : Mapping) → In m s.found → In m s'.found
  pub stopped : returned ≡ true → stops p s' ≡ true
  pub same : returned ≡ false → Same s s'
  pub complete :
      returned ≡ false
      → (f : Mapping) (t : ℕ) → IsCandidate p f
      → Extends f s.current
      → get_tar f e ≡ some t
      → contains t ts ≡ true
      → Hit f s'.found

-- An edge of which a candidate knows the target.
pub candidate-sent :
    (p : Problem) (f : Mapping) (e t : ℕ)
    → IsCandidate p f
    → has_edge p.source e ≡ true
    → get_tar f e ≡ some t
    → edge_sent p.source p.target f e t ≡ true
candidate-sent p f e t c h at = c.partial.edges e t h at

module _ (p : Problem) (given : Input p) (n : ℕ) (go : Search → Result Search)
    (calls : (s : Search) → Invariant p n s → (s' : Search) × (go s ≡ ok s') × Promise p s s')
    (e : ℕ) (is_edge : has_edge p.source e ≡ true) where
  -- The loop returns at once when the recursive call ends the search.
  try-stops :
      (t : ℕ) (ts : List ℕ) (s s' : Search) (x : Extension)
      → extend p s e t ≡ ok x
      → go x.state ≡ ok s'
      → stops p s' ≡ true
      → try_targets p go e (t ∷ ts) s ≡ ok (s', true)
  unfolding try_targets
  try-stops t ts s s' x a b c = ground (arith, a, b, c)

  try-continues :
      (t : ℕ) (ts : List ℕ) (s s' : Search) (x : Extension)
      → extend p s e t ≡ ok x
      → go x.state ≡ ok s'
      → stops p s' ≡ false
      → try_targets p go e (t ∷ ts) s ≡ try_targets p go e ts (undo x s')
  unfolding try_targets
  try-continues t ts s s' x a b c = ground (arith, a, b, c)

  sound-round :
      (s s' : Search) (x : Extension) (t : ℕ)
      → Extended p n s e t x
      → Promise p x.state s'
      → (m : Mapping) → In m s'.found
      → In m s.found ⊎ IsEdgeMatch p m
  sound-round s s' x t ex pr m i =
      subst (λ ms. In m ms ⊎ IsEdgeMatch p m) ex.growing.found (pr.sound m i)

  kept-round :
      (s s' : Search) (x : Extension) (t : ℕ)
      → Extended p n s e t x
      → Promise p x.state s'
      → (m : Mapping) → In m s.found
      → In m s'.found
  kept-round s s' x t ex pr m i = pr.kept m (subst (λ ms. In m ms) (sym ex.growing.found) i)

  -- A round that does not end the search can be undone.
  Same-round :
      (s s' : Search) (x : Extension) (t : ℕ)
      → Extended p n s e t x
      → Finished p x.state s'
      → Same s (undo x s')
  Same-round s s' x t ex fin =
      undo-Same s s' x ex.growing.kept_current ex.growing.kept_rev ex.growing.kept_mappable fin.same

  finished : (s s' : Search) → Promise p s s' → stops p s' ≡ false → Finished p s s'
  finished s s' pr go_on = elim pr.ended [
    | inl stop ↦ absurd (ground (arith, stop, go_on))
    | inr fin ↦ fin
  ]

  -- One more round in front of the others.
  Tried-more :
      (s s' s'' : Search) (x : Extension) (t : ℕ) (ts : List ℕ) (returned : Bool)
      → Extended p n s e t x
      → Promise p x.state s'
      → Finished p x.state s'
      → Tried p e ts (undo x s') s'' returned
      → Tried p e (t ∷ ts) s s'' returned
  unfolding undo
  Tried-more s s' s'' x t ts returned ex pr fin more =
      let same = Same-round s s' x t ex fin in
      record {
        sound = λ m i. elim (more.sound m i) [
          | inr match ↦ inr match
          | inl old ↦ sound-round s s' x t ex pr m old
        ];
        kept = λ m i. more.kept m (kept-round s s' x t ex pr m i);
        stopped = more.stopped;
        same = λ r. Same-trans s (undo x s') s'' same (more.same r);
        complete = λ r f u c ext at k. elim (Bool-cases (t == u)) [
          | inl here ↦
              let is_t : u ≡ t = ground (arith, here) in
              let at' : get_tar f e ≡ some t = at ∙ ap some is_t in
              let below = ex.below f ext at' (candidate-sent p f e t c is_edge at') in
              Hit-kept f s'.found s''.found more.kept (fin.complete f c below)
          | inr there ↦
              more.complete r f u c (Extends-same f s.current (undo x s').current same.current ext)
                at (ground (arith, k, there))
        ];
      }

  pub try_targets_lem :
      (ts : List ℕ) (s : Search)
      → Invariant p (suc n) s
      → contains e s.mappable ≡ false
      → has_src s.current e ≡ false
      → ((t : ℕ) → contains t ts ≡ true → is_map_possible p e t s.current s.rev_current ≡ true)
      → (s' : Search) × (returned : Bool) × (try_targets p go e ts s ≡ ok (s', returned))
        × Tried p e ts s s' returned
  unfolding try_targets
  try_targets_lem [] s inv shut fresh possible = (
    s,
    false,
    refl,
    record {
      sound = λ m i. inl i;
      kept = λ m i. i;
      stopped = λ r. cc;
      same = λ r. record {
        current = λ i. refl;
        rev_current = λ i. refl;
        mappable = λ i. refl;
        ordered = inv.ordered;
      };
      complete = λ r f t c ext at k. cc;
    },
  )
  try_targets_lem (t ∷ ts) s inv shut fresh possible =
      let (x, ex) = extend_lem p n e t s given inv shut fresh (possible t (ground arith)) in
      let (s', called, pr) = calls x.state ex.invariant in
      elim (Bool-cases (stops p s')) [
        | inl stop ↦ (
          s',
          true,
          try-stops t ts s s' x ex.is_ok called stop,
          record {
            sound = sound-round s s' x t ex pr;
            kept = kept-round s s' x t ex pr;
            stopped = λ r. stop;
            same = λ r. cc;
            complete = λ r. cc;
          },
        )
        | inr go_on ↦
            let fin = finished x.state s' pr go_on in
            let same = Same-round s s' x t ex fin in
            let (s'', returned, is_ok, more) =
              try_targets_lem ts (undo x s') (Invariant-Same p (suc n) s (undo x s') given same inv)
                (sym (same.mappable e) ∙ shut) (ground (arith, fresh, same.current e))
                (λ u k.
                  sym (is_map_possible-Same p e u s (undo x s') same)
                  ∙ possible u (ground (arith, k))) in
            (
              s'',
              returned,
              try-continues t ts s s' x ex.is_ok called go_on ∙ is_ok,
              Tried-more s s' s'' x t ts returned ex pr fin more,
            )
      ]
