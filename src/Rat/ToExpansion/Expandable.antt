-- ===== src/Rat/ToExpansion/Expandable.antt =====
-- The expressions that the expansion is proved for.
use vcsn.Base.{Bool, true, false, ◌&&◌}
use vcsn.Weight.{Weightset}
use vcsn.Rat.{VariadicType, UnaryType, Expr, Exprs}

module _ {L K : Type 0} ⦃ws : Weightset K⦄ where
  -- Whether the expression has no composition, no quotient, no complement and no product without
  -- operands but sums and concatenations, and no conjunction, shuffle, infiltration nor
  -- transposition over weights that do not commute.
  abbrev mutual
    pub is_expandable : Expr L K → Bool
    is_expandable (Expr.name e s) = is_expandable e
    is_expandable (Expr.variadic VariadicType.add es) = are_expandable es
    is_expandable (Expr.variadic VariadicType.mul es) = are_expandable es
    is_expandable (Expr.variadic VariadicType.compose es) = false
    is_expandable (Expr.variadic VariadicType.ldivide es) = false
    is_expandable (Expr.variadic t Exprs.nil) = false
    is_expandable (Expr.variadic t (Exprs.cons e es)) =
        ws.is_commutative && (is_expandable e && are_expandable es)
    is_expandable (Expr.unary UnaryType.star e) = is_expandable e
    is_expandable (Expr.unary UnaryType.complement e) = false
    is_expandable (Expr.unary UnaryType.transposition e) = ws.is_commutative && is_expandable e
    is_expandable (Expr.weight_node t w e) = is_expandable e
    is_expandable _ = true

    pub are_expandable : Exprs L K → Bool
    are_expandable Exprs.nil = true
    are_expandable (Exprs.cons e es) = is_expandable e && are_expandable es
