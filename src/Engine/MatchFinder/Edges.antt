-- ===== src/Engine/MatchFinder/Edges.antt =====
-- mapEdges as a whole.
use uncover.Base.{
  ℕ, zero, suc, ◌≡◌, refl, List, [], ◌∷◌, ◌++◌, Bool, true, false, not, ◌||◌, arith, contains,
  insert_id, erase_id, contains-insert_id, contains-erase_id, In-append, if◌then◌else◌, sym, subst,
  Bool-cases, inl, inr, Option-cases,
}
use uncover.Graphs.Mapping.{Mapping, get_tar}
use uncover.Engine.MatchFinder.{ok, Problem, Search, choose, try_targets, map_edges}
use uncover.Engine.MatchFinder.Partial.{Extends}
use uncover.Engine.MatchFinder.Possible.{sent-possible}
use uncover.Engine.MatchFinder.Invariant.{Input, Invariant}
use uncover.Engine.MatchFinder.Choose.{Choice, choose_lem}
use uncover.Engine.MatchFinder.Targets.{
  IsEdgeMatch, IsCandidate, Hit, Promise, Tried, candidate-sent, try_targets_lem,
}
use uncover.Engine.MatchFinder.Undo.{Same}

-- All edges are mapped: the current mapping is a match, and the part of every candidate above it.
map_edges-zero :
    (p : Problem) (s : Search)
    → Invariant p 0 s
    → Promise p s (record s { found = s.found ++ s.current ∷ [] })
map_edges-zero p s inv =
    let match : IsEdgeMatch p s.current = record {
      partial = inv.partial;
      domain = inv.domain;
      all_edges = inv.counted;
      apart = inv.apart;
      ordered = inv.ordered;
    } in
    record {
      sound = λ m i. elim ((In-append m s.found (s.current ∷ [])).0 i) [
        | inl old ↦ inl old
        | inr (inl here) ↦ inr (subst (IsEdgeMatch p) (sym here) match)
        | inr (inr gone) ↦ absurd gone
      ];
      kept = λ m i. (In-append m s.found (s.current ∷ [])).1 (inl i);
      ended = inr (record {
        same = record {
          current = λ i. refl;
          rev_current = λ i. refl;
          mappable = λ i. refl;
          ordered = inv.ordered;
        };
        complete = λ f c x.
            (s.current, (In-append s.current s.found (s.current ∷ [])).1 (inr (inl refl)), x);
      });
    }

-- The state without the chosen edge among the mappable ones, and with it again.
abbrev without : ℕ → Search → Search
without e s = record s { mappable = erase_id e s.mappable }

abbrev put_back : ℕ → Search → Search
put_back e s = record s { mappable = insert_id e s.mappable }

without-Invariant :
    (p : Problem) (n e : ℕ) (s : Search) → Invariant p n s → Invariant p n (without e s)
without-Invariant p n e s inv = record {
  back = inv.back;
  forth = inv.forth;
  apart = inv.apart;
  domain = inv.domain;
  open_edges = λ i c. inv.open_edges i (ground (arith, c, contains-erase_id e i s.mappable));
  partial = inv.partial;
  counted = inv.counted;
  ordered = inv.ordered;
}

put_back-Same :
    (e : ℕ) (s s' : Search)
    → contains e s.mappable ≡ true
    → Same (without e s) s'
    → Same s (put_back e s')
put_back-Same e s s' c same = record {
  current = same.current;
  rev_current = same.rev_current;
  mappable = λ i. ground (
    arith,
    c,
    same.mappable i,
    contains-erase_id e i s.mappable,
    contains-insert_id e i s'.mappable,
  );
  ordered = same.ordered;
}

without-Same :
    (e : ℕ) (s s' : Search) → contains e s.mappable ≡ false → Same (without e s) s' → Same s s'
without-Same e s s' c same = record {
  current = same.current;
  rev_current = same.rev_current;
  mappable = λ i. ground (arith, c, same.mappable i, contains-erase_id e i s.mappable);
  ordered = same.ordered;
}

-- The state that a call returns.
abbrev returned_state : ℕ → Search → Search → Bool → Search
returned_state e s s' returned =
    if returned || not (contains e s.mappable) then s' else put_back e s'

map_edges-suc :
    (p : Problem) (n e : ℕ) (ts : List ℕ) (s s' : Search) (returned : Bool)
    → choose p s ≡ ok (e, ts)
    → try_targets p (map_edges p n) e ts (without e s) ≡ ok (s', returned)
    → map_edges p (suc n) s ≡ ok (returned_state e s s' returned)
unfolding map_edges
map_edges-suc p n e ts s s' returned a b = rw (a, map_edges) (rw (b, map_edges) refl)

-- The loop over the targets of the chosen edge keeps the promise of the call.
returned_state-Promise :
    (p : Problem) (n e : ℕ) (ts : List ℕ) (s s' : Search) (returned : Bool)
    → Invariant p (suc n) s
    → Choice p s e ts
    → Tried p e ts (without e s) s' returned
    → Promise p s (returned_state e s s' returned)
returned_state-Promise p n e ts s s' true inv c tried = record {
  sound = tried.sound;
  kept = tried.kept;
  ended = inl (tried.stopped refl);
}
returned_state-Promise p n e ts s s' false inv c tried =
    let complete : (f : Mapping) → IsCandidate p f → Extends f s.current → Hit f s'.found = λ f d x.
      elim (Option-cases (get_tar f e)) [
        | inl gone ↦ absurd (ground (arith, gone, d.all_edges e c.is_edge))
        | inr (t, at) ↦
            let sent = candidate-sent p f e t d c.is_edge at in
            let possible =
              sent-possible p e t s.current s.rev_current f x inv.back d.injective c.fresh at
                sent in
            tried.complete refl f t d x at (c.complete f t x sent possible)
      ] in
    elim (Bool-cases (contains e s.mappable)) [
      | inl h ↦ rw h (record {
        sound = tried.sound;
        kept = tried.kept;
        ended =
            inr (record { same = put_back-Same e s s' h (tried.same refl); complete = complete });
      })
      | inr h ↦ rw h (record {
        sound = tried.sound;
        kept = tried.kept;
        ended =
            inr (record { same = without-Same e s s' h (tried.same refl); complete = complete });
      })
    ]

-- From a state with the invariant, so with as many edges to go as are not mapped, and on graphs that
-- the search can be called with, mapEdges throws nothing. It adds only matches of the edges, and
-- when nothing stops it, it restores its state, up to the order of the entries, and for every
-- candidate above the state adds a match that this candidate extends.
pub map_edges_lem :
    (p : Problem) (n : ℕ) (s : Search)
    → Input p
    → Invariant p n s
    → (s' : Search) × (map_edges p n s ≡ ok s') × Promise p s s'
unfolding map_edges
map_edges_lem p zero s given inv = (_, refl, map_edges-zero p s inv)
map_edges_lem p (suc n) s given inv =
    let (e, ts, c) = choose_lem p n s given inv in
    let (s', returned, is_ok, tried) =
      try_targets_lem p given n (map_edges p n) (λ s i. map_edges_lem p n s given i) e c.is_edge ts
        (without e s) (without-Invariant p (suc n) e s inv)
        (ground (arith, contains-erase_id e e s.mappable)) c.fresh c.possible in
    (
      returned_state e s s' returned,
      map_edges-suc p n e ts s s' returned c.is_ok is_ok,
      returned_state-Promise p n e ts s s' returned inv c tried,
    )
