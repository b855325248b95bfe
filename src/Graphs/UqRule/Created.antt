-- ===== src/Graphs/UqRule/Created.antt =====
-- What createInstance makes of a rule.
use uncover.Base.{
  ℕ, zero, suc, ◌+◌, ◌≤◌, ◌≡◌, refl, List, [], ◌∷◌, true, some, arith, length, ◌==◌, ◌∙◌, subst,
  sym,
}
use uncover.Graphs.Hypergraph.{ok}
use uncover.Graphs.Hypergraph.Incidence.{IsWf}
use uncover.Graphs.AnonRule.{AnonRule}
use uncover.Graphs.UqRule.{Quantification, UqRule, UqRuleInstance, UqExtension}
use uncover.Graphs.UqRule.Create.{extend_times, create_loop, create_zero_instance, create_instance}
use uncover.Graphs.UqRule.Growth.{Grown-refl, Grown-trans, Grown-has_edge, IsTyped, IsTyped-Grown}
use uncover.Graphs.UqRule.Right.{Fits}
use uncover.Graphs.UqRule.Steps.{UsedOn, use_times, all_uses, extend_rule_by_uq-WithCopies}
use uncover.Graphs.UqRule.Extended.{element_count, Extends, HasRoom, extend_rule_by_uq_lem}

-- A map between two well-formed graphs that sends vertices to vertices and edges to edges.
pub record IsRule (r : AnonRule) : Type 0 where
  pub left : IsWf r.left
  pub right : IsWf r.right
  pub map : IsTyped r.interface r.left r.right

Fits-IsRule : (q : Quantification) (r : AnonRule) → Fits q r → IsRule r
Fits-IsRule q r f = record { left = f.left; right = f.right; map = f.map }

Extends-IsRule : (r r' : AnonRule) → Extends r r' → IsRule r'
Extends-IsRule r r' e = record {
  left = e.left.well_formed;
  right = e.right.well_formed;
  map = e.typed;
}

Extends-refl : (r : AnonRule) → IsRule r → Extends r r
Extends-refl r f = record {
  left = Grown-refl r.left f.left;
  right = Grown-refl r.right f.right;
  typed = f.map;
  kept = λ i k. refl;
}

Extends-trans : (r r' r'' : AnonRule) → Extends r r' → Extends r' r'' → Extends r r''
Extends-trans r r' r'' e e' = record {
  left = Grown-trans e.left e'.left;
  right = Grown-trans e.right e'.right;
  typed = e'.typed;
  kept = λ i k. e'.kept i (ground (arith, e.left.vertices i, Grown-has_edge i e.left)) ∙ e.kept i k;
}

Fits-Extends : (q : Quantification) (r r' : AnonRule) → Fits q r → Extends r r' → Fits q r'
Fits-Extends q r r' f e = record {
  quant_left = f.quant_left;
  quant_right = f.quant_right;
  quant_map = f.quant_map;
  ordered = f.ordered;
  inter = IsTyped-Grown q.inter q.rule.left r.left r'.left f.inter e.left;
  left = e.left.well_formed;
  right = e.right.well_formed;
  map = e.typed;
}

-- So many elements as a number of copies has.
abbrev pub copies : ℕ → ℕ → ℕ
copies zero k = 0
copies (suc n) k = k + copies n k

abbrev pub all_copies : (Quantification → ℕ) → List Quantification → List ℕ → ℕ
all_copies k [] ns = 0
all_copies k (q ∷ qs) [] = 0
all_copies k (q ∷ qs) (n ∷ ns) = copies n (k q) + all_copies k qs ns

abbrev pub left_size : Quantification → ℕ
left_size q = element_count q.rule.left

abbrev pub right_size : Quantification → ℕ
right_size q = element_count q.rule.right

abbrev pub AllFit : List Quantification → AnonRule → Type 0
AllFit [] r = Unit
AllFit (q ∷ qs) r = Fits q r × AllFit qs r

AllFit-Extends :
    (qs : List Quantification) (r r' : AnonRule) → AllFit qs r → Extends r r' → AllFit qs r'
AllFit-Extends [] r r' f e = tt
AllFit-Extends (q ∷ qs) r r' (f, fs) e = (Fits-Extends q r r' f e, AllFit-Extends qs r r' fs e)

UsedOn-++ :
    (n : ℕ) (q : Quantification) (qs : List Quantification) (i i' i'' : UqRuleInstance)
    → UsedOn (use_times n q []) i i'
    → UsedOn qs i' i''
    → UsedOn (use_times n q qs) i i''
UsedOn-++ zero q qs i i' i'' u u' = subst (λ z. UsedOn qs z i'') (sym u) u'
UsedOn-++ (suc n) q qs i i' i'' (j, c, u) u' = (j, c, UsedOn-++ n q qs j i' i'' u u')

-- An instance made from another one, with at most so many new elements on each side.
pub record Made (m n : ℕ) (i i' : UqRuleInstance) : Type 0 where
  pub extends : Extends i.rule i'.rule
  pub left_uq : i'.left_uq ≡ i.left_uq
  pub right_uq : i'.right_uq ≡ i.right_uq
  pub left_count : i'.rule.left.last_used_id ≤ i.rule.left.last_used_id + m
  pub right_count : i'.rule.right.last_used_id ≤ i.rule.right.last_used_id + n

Made-refl : (i : UqRuleInstance) → IsRule i.rule → Made 0 0 i i
Made-refl i w = record {
  extends = Extends-refl i.rule w;
  left_uq = refl;
  right_uq = refl;
  left_count = omega arith;
  right_count = omega arith;
}

Made-trans :
    {m n m' n' : ℕ} (i i' i'' : UqRuleInstance)
    → Made m n i i'
    → Made m' n' i' i''
    → Made (m + m') (n + n') i i''
Made-trans i i' i'' a b = record {
  extends = Extends-trans i.rule i'.rule i''.rule a.extends b.extends;
  left_uq = b.left_uq ∙ a.left_uq;
  right_uq = b.right_uq ∙ a.right_uq;
  left_count = omega (arith, a.left_count, b.left_count);
  right_count = omega (arith, a.right_count, b.right_count);
}

extend_times-Made :
    (n : ℕ) (q : Quantification) (x : UqExtension)
    → Fits q x.instance_of.rule
    → HasRoom x.instance_of.rule (copies n (left_size q)) (copies n (right_size q))
    → (x' : UqExtension) × (extend_times n q x ≡ ok x')
      × Made (copies n (left_size q)) (copies n (right_size q)) x.instance_of x'.instance_of
      × UsedOn (use_times n q []) x.instance_of x'.instance_of
unfolding extend_times
extend_times-Made zero q x f room =
    (x, refl, Made-refl x.instance_of (Fits-IsRule q x.instance_of.rule f), refl)
extend_times-Made (suc n) q x f room =
    let (x', e, ext, l, r, c, d) = extend_rule_by_uq_lem q x f (omega arith, omega arith) in
    let f' = Fits-Extends q x.instance_of.rule x'.instance_of.rule f ext in
    let (x'', e', made, used) = extend_times-Made n q x' f' (omega arith, omega arith) in
    let one : Made (left_size q) (right_size q) x.instance_of x'.instance_of = record {
      extends = ext;
      left_uq = l;
      right_uq = r;
      left_count = c;
      right_count = d;
    } in
    let copied = extend_rule_by_uq-WithCopies q x f (omega arith, omega arith) x' e ext in
    rw e (
      x'',
      e',
      Made-trans x.instance_of x'.instance_of x''.instance_of one made,
      (x'.instance_of, copied, used),
    )

create_loop-Made :
    (qs : List Quantification) (ns : List ℕ) (i : UqRuleInstance)
    → IsRule i.rule
    → AllFit qs i.rule
    → length ns ≡ length qs
    → HasRoom i.rule (all_copies left_size qs ns) (all_copies right_size qs ns)
    → (i' : UqRuleInstance) × (ls : List (List ℕ)) × (rs : List (List ℕ)) × (create_loop qs ns i
        ≡ ok (i', ls, rs))
      × Made (all_copies left_size qs ns) (all_copies right_size qs ns) i i'
      × UsedOn (all_uses qs ns) i i'
unfolding create_loop
create_loop-Made [] ns i w fs l room = (i, [], [], refl, Made-refl i w, refl)
create_loop-Made (q ∷ qs) [] i w fs l room = absurd (omega arith)
create_loop-Made (q ∷ qs) (n ∷ ns) i w (f, fs) l room =
    let x : UqExtension = record { instance_of = i; gen_left = []; gen_right = [] } in
    let (x', e, made, used) = extend_times-Made n q x f (omega arith, omega arith) in
    let i' = x'.instance_of in
    let (i'', ls, rs, e', made', used') =
      create_loop-Made qs ns i' (Extends-IsRule i.rule i'.rule made.extends)
        (AllFit-Extends qs i.rule i'.rule fs made.extends) (omega arith)
        (omega (arith, made.left_count), omega (arith, made.right_count)) in
    rw (e, e')
      (
        _,
        _,
        _,
        refl,
        Made-trans i i' i'' made made',
        UsedOn-++ n q (all_uses qs ns) i i' i'' used used',
      )

-- createInstance succeeds for one quantity for each quantification, while the counters have room
-- for all copies: from well-formed rules that belong together it makes an instance that has the
-- elements of the main rule, mapped as there, and takes at most as many IDs as the copies have
-- elements, with the vertices that the rule marks as quantified. Its map sends vertices to vertices
-- and edges to edges of two well-formed graphs. From the main rule to the instance, each
-- quantification is used exactly as often as its quantity says, in their order, and each use gives
-- every new element on its left side a copy of its own, as extendRuleByUQ does.
pub create_instance_lem :
    (r : UqRule) (ns : List ℕ)
    → IsRule r.main_rule
    → AllFit r.quantifications r.main_rule
    → length ns ≡ length r.quantifications
    → HasRoom r.main_rule
        (all_copies left_size r.quantifications ns)
        (all_copies right_size r.quantifications ns)
    → (i : UqRuleInstance) × (ls : List (List ℕ)) × (rs : List (List ℕ)) × (create_instance r ns
        ≡ ok (some (i, ls, rs)))
      × Made
          (all_copies left_size r.quantifications ns)
          (all_copies right_size r.quantifications ns)
          (record { rule = r.main_rule; left_uq = r.left_uq; right_uq = r.right_uq })
          i
      × UsedOn
          (all_uses r.quantifications ns)
          (record { rule = r.main_rule; left_uq = r.left_uq; right_uq = r.right_uq })
          i
unfolding create_instance create_zero_instance
create_instance_lem r ns w fs l room =
    let (i, ls, rs, e, made, used) =
      create_loop-Made r.quantifications ns (create_zero_instance r) w fs l room in
    let same : (length ns == length r.quantifications) ≡ true = ground arith in
    rw (same, e) (i, ls, rs, refl, made, used)
