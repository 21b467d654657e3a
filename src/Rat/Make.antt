-- ===== src/Rat/Make.antt =====
-- The constructors of expressions (vcsn/core/rat/expressionset.hxx), which apply the identities of
-- the expression set. A recursive call stands for the place where the code makes it: each
-- constructor is a chain of tests that is given the values of the calls.
pub mod Weights
pub mod Add
pub mod Mul
pub mod Product
pub mod Unary
pub mod Transposition
use vcsn.Base.{Bool, true, false, ◌&&◌, ◌||◌, if◌then◌else◌}
use vcsn.Weight.{Weightset, ◌⊗◌}
use vcsn.Label.{Labelset}
use vcsn.Rat.{
  VariadicType, UnaryType, WeightType, Expr, Exprs, is_zero, is_leaf, is_lweight, is_add, ◌+++◌,
}
use vcsn.Rat.Identities.{Identities, is_trivial, is_associative, is_linear, is_distributive}
use vcsn.Rat.Order.{Keys}

pub record ExpressionSet (L K : Type 0) : Type 0 where
  pub identities : Identities
  pub labels : Labelset L
  pub keys : Keys L K

module _ {L K : Type 0} ⦃ws : Weightset K⦄ (rs : ExpressionSet L K) where
  -- `atom(v)`
  unfoldable pub make_atom : L → Expr L K
  make_atom l = if rs.labels.is_one l then Expr.one else Expr.atom l

  -- The body of `lweight`: `inner` is `lweight(mul(w, lw->weight()), lw->sub())`, and `addends` are
  -- `lweight(w, a)` for each term `a`.
  abbrev lweight_of : K → Expr L K → Expr L K → Exprs L K → Expr L K
  lweight_of w e inner addends =
      if is_trivial rs.identities && (is_zero e || ws.is_one w)
      then e
      else if is_trivial rs.identities && ws.is_zero w
      then Expr.zero
      else if is_trivial rs.identities && is_lweight e
      then inner
      else if is_distributive rs.identities && is_add e
      then Expr.variadic VariadicType.add addends
      else Expr.weight_node WeightType.lweight w e

  unfoldable mutual
    pub lweight : K → Expr L K → Expr L K
    lweight w (Expr.weight_node WeightType.lweight h f) =
        lweight_of w (Expr.weight_node WeightType.lweight h f) (lweight (w ⊗ h) f) Exprs.nil
    lweight w (Expr.variadic t es) = lweight_of w (Expr.variadic t es) Expr.zero (lweight_each w es)
    lweight w e = lweight_of w e Expr.zero Exprs.nil

    pub lweight_each : K → Exprs L K → Exprs L K
    lweight_each w Exprs.nil = Exprs.nil
    lweight_each w (Exprs.cons e es) = Exprs.cons (lweight w e) (lweight_each w es)

  -- The body of `rweight`; `inner` is the result of the branch that looks into a weight node.
  abbrev rweight_of : Expr L K → K → Bool → Expr L K → Expr L K
  rweight_of e w is_weighted inner =
      if is_linear rs.identities && ws.is_commutative
      then lweight w e
      else if is_trivial rs.identities && ws.is_zero w
      then Expr.zero
      else if is_trivial rs.identities && ws.is_one w
      then e
      else if is_trivial rs.identities && is_leaf e
      then lweight w e
      else if is_trivial rs.identities && is_weighted
      then inner
      else Expr.weight_node WeightType.rweight w e

  unfoldable pub rweight : Expr L K → K → Expr L K
  rweight (Expr.weight_node WeightType.lweight k f) w =
      rweight_of (Expr.weight_node WeightType.lweight k f) w true (lweight k (rweight f w))
  rweight (Expr.weight_node WeightType.rweight k f) w =
      rweight_of (Expr.weight_node WeightType.rweight k f) w true (rweight f (k ⊗ w))
  rweight e w = rweight_of e w false Expr.zero
