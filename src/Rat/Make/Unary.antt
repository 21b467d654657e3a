-- ===== src/Rat/Make/Unary.antt =====
-- The unary constructors `star` and `complement` of vcsn/core/rat/expressionset.hxx.
pub mod Laws
use vcsn.Base.{Bool, true, false, ◌&&◌, Result, ok, raise, Error, ◌>>=◌, if◌then◌else◌}
use vcsn.Weight.{Weightset}
use vcsn.Rat.{UnaryType, Expr, is_zero}
use vcsn.Rat.Identities.{is_trivial, is_distributive, is_agressive}
use vcsn.Rat.Constant.{is_valid}
use vcsn.Rat.Make.{ExpressionSet}

module _ {L K : Type 0} where
  abbrev pub is_star : Expr L K → Bool
  is_star (Expr.unary UnaryType.star e) = true
  is_star _ = false

module _ {L K : Type 0} ⦃ws : Weightset K⦄ (rs : ExpressionSet L K) where
  -- `if (!is_valid(*this, res)) raise_not_starrable(self(), e);`
  abbrev pub check_star : Expr L K → Bool → Result (Expr L K)
  check_star res true = ok res
  check_star res false = raise Error.not_starrable

  unfoldable pub make_star : Expr L K → Result (Expr L K)
  make_star e =
      if is_trivial rs.identities && is_zero e
      then ok Expr.one
      else if is_agressive rs.identities && (is_star e && ws.is_b)
      then ok e
      else if is_distributive rs.identities
      then (is_valid (Expr.unary UnaryType.star e) >>= λ valid.
          check_star (Expr.unary UnaryType.star e) valid)
      else ok (Expr.unary UnaryType.star e)

  unfoldable pub make_complement : Expr L K → Expr L K
  make_complement (Expr.weight_node t k e) =
      if is_trivial rs.identities
      then make_complement e
      else Expr.unary UnaryType.complement (Expr.weight_node t k e)
  make_complement (Expr.unary UnaryType.complement e) =
      if is_trivial rs.identities && ws.is_bool
      then e
      else Expr.unary UnaryType.complement (Expr.unary UnaryType.complement e)
  make_complement e = Expr.unary UnaryType.complement e
