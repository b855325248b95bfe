-- ===== src/Graphs/UqRule/Steps.antt =====
-- The runs of extendRuleByUQ that createInstance makes, one after the other.
use uncover.Base.{ℕ, zero, suc, ◌≡◌, refl, List, [], ◌∷◌, true, false, ◌||◌, subst, arith}
use uncover.Graphs.Hypergraph.{ok, has_vertex, has_edge}
use uncover.Graphs.Mapping.{has_src}
use uncover.Graphs.AnonRule.{AnonRule}
use uncover.Graphs.UqRule.{
  Quantification, UqRuleInstance, UqExtension, RightSide, LeftSide, extend_rule_by_uq,
}
use uncover.Graphs.UqRule.Right.{Fits}
use uncover.Graphs.UqRule.Copy.{Copy}
use uncover.Graphs.UqRule.Extended.{element_count, Extends, HasRoom, AreNew, extend_left-Copy}

-- The second instance is the first with a copy of its own for every new element on the left side of
-- the quantification.
pub record WithCopies (q : Quantification) (i i' : UqRuleInstance) : Type 0 where
  pub right_side : RightSide
  pub left_side : LeftSide
  pub rule :
      i'.rule
      ≡ record { left = left_side.graph; right = right_side.graph; interface = left_side.rule_map }
  pub are_new : AreNew q i.rule left_side
  pub copies :
      (x : ℕ)
      → (has_vertex q.rule.left x || has_edge q.rule.left x) ≡ true
      → has_src q.inter x ≡ false
      → Copy q right_side.map x left_side
  pub extends : Extends i.rule i'.rule

-- The quantifications of the list are used once each, in this order.
abbrev pub UsedOn : List Quantification → UqRuleInstance → UqRuleInstance → Type 0
UsedOn [] i i' = i ≡ i'
UsedOn (q ∷ qs) i i' = (j : UqRuleInstance) × WithCopies q i j × UsedOn qs j i'

-- Each quantification as often as its quantity says.
abbrev pub use_times : ℕ → Quantification → List Quantification → List Quantification
use_times zero q qs = qs
use_times (suc n) q qs = q ∷ use_times n q qs

abbrev pub all_uses : List Quantification → List ℕ → List Quantification
all_uses [] ns = []
all_uses (q ∷ qs) [] = []
all_uses (q ∷ qs) (n ∷ ns) = use_times n q (all_uses qs ns)

pub extend_rule_by_uq-WithCopies :
    (q : Quantification) (x : UqExtension)
    → Fits q x.instance_of.rule
    → HasRoom x.instance_of.rule (element_count q.rule.left) (element_count q.rule.right)
    → (x' : UqExtension) → extend_rule_by_uq q x ≡ ok x'
    → Extends x.instance_of.rule x'.instance_of.rule
    → WithCopies q x.instance_of x'.instance_of
unfolding extend_rule_by_uq
extend_rule_by_uq-WithCopies q x f room x' run ext =
    let (s, s', e, e', new, copies) =
      extend_left-Copy q x.instance_of.rule x.gen_left x.gen_right f room in
    let joined : AnonRule = record { left = s'.graph; right = s.graph; interface = s'.rule_map } in
    let done : (y : UqExtension) × (extend_rule_by_uq q x ≡ ok y) × (y.instance_of.rule ≡ joined) =
      rw (e, e') (_, refl, refl) in
    let (y, run', made) = done in
    let same : y ≡ x' = ground (arith, run, run') in
    record {
      right_side = s;
      left_side = s';
      rule = subst (λ z. z.instance_of.rule ≡ joined) same made;
      are_new = new;
      copies = copies;
      extends = ext;
    }
