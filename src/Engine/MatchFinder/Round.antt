-- ===== src/Engine/MatchFinder/Round.antt =====
-- One round of the loop of mapEdges: an edge and its vertices are mapped.
use uncover.Engine.MatchFinder.After.{
  Chosen, after, extend-after, after-IsPartial, after-counted, after-Growing, after-below,
  after-apart,
}
use uncover.Engine.MatchFinder.{undo}
use uncover.Engine.MatchFinder.Undo.{Same, undo-Same}
use uncover.Base.{ℕ, suc, ◌≡◌, refl, true, false, some, arith, contains}
use uncover.Graphs.Mapping.{Mapping, has_src, get_tar}
use uncover.Engine.MatchFinder.{ok, Problem, Search, Extension, extend, is_map_possible}
use uncover.Engine.MatchFinder.Partial.{edge_sent, Extends}
use uncover.Engine.MatchFinder.Possible.{possible-parts}
use uncover.Engine.MatchFinder.Extend.{Growing}
use uncover.Engine.MatchFinder.Invariant.{Input, Invariant}

-- Mapping an edge to a possible target succeeds, keeps the invariant, with one edge less to go, can
-- be undone, and stays below every mapping that sends the edge to this target.
pub record Extended (p : Problem) (n : ℕ) (s : Search) (e t : ℕ) (x : Extension) : Type 0 where
  pub is_ok : extend p s e t ≡ ok x
  pub invariant : Invariant p n x.state
  pub growing : Growing p s x
  pub below :
      (f : Mapping)
      → Extends f s.current
      → get_tar f e ≡ some t
      → edge_sent p.source p.target f e t ≡ true
      → Extends f x.state.current

pub extend_lem :
    (p : Problem) (n e t : ℕ) (s : Search)
    → Input p
    → Invariant p (suc n) s
    → contains e s.mappable ≡ false
    → has_src s.current e ≡ false
    → is_map_possible p e t s.current s.rev_current ≡ true
    → (x : Extension) × Extended p n s e t x
extend_lem p n e t s given inv shut fresh possible =
    let (a, b, is_a, is_b, label, sized, passed, unused) =
      possible-parts p e t s.current s.rev_current given.same_arity possible in
    let c : Chosen p s e t = record {
      a = a;
      b = b;
      is_a = is_a;
      is_b = is_b;
      label = label;
      sized = sized;
      passed = passed;
      unused = unused;
      fresh = fresh;
    } in
    let g = after-Growing p given s e t c (suc n) inv shut in
    (
      after p given s e t c,
      record {
        is_ok = extend-after p given s e t c;
        invariant = record {
          back = g.back;
          forth = g.forth;
          apart = after-apart p given s e t c (suc n) inv;
          domain = g.domain;
          open_edges = g.open_edges;
          partial = after-IsPartial p given s e t c inv.partial;
          counted = ground (arith, after-counted p given s e t c, inv.counted);
          ordered = g.ordered;
        };
        growing = g;
        below = after-below p given s e t c;
      },
    )

-- In a state with the invariant, mapping an unmapped edge that is not mappable to a possible target
-- succeeds, and undoing the round gives the state before, up to the order of the entries: the three
-- lists of differences name exactly what was changed.
pub extend-undo :
    (p : Problem) (n e t : ℕ) (s : Search)
    → Input p
    → Invariant p (suc n) s
    → contains e s.mappable ≡ false
    → has_src s.current e ≡ false
    → is_map_possible p e t s.current s.rev_current ≡ true
    → (x : Extension) × (extend p s e t ≡ ok x) × Same s (undo x x.state)
extend-undo p n e t s given inv shut fresh possible =
    let (x, ex) = extend_lem p n e t s given inv shut fresh possible in
    let g = ex.growing in
    (
      x,
      ex.is_ok,
      undo-Same s x.state x g.kept_current g.kept_rev g.kept_mappable (record {
        current = λ i. refl;
        rev_current = λ i. refl;
        mappable = λ i. refl;
        ordered = g.ordered;
      }),
    )
