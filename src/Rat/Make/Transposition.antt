-- ===== src/Rat/Make/Transposition.antt =====
-- The constructor `transposition` of vcsn/core/rat/expressionset.hxx. The deep transposition that the
-- agressive identities ask for is given.
use vcsn.Base.{Bool, true, false, ◌&&◌, Result, ok, if◌then◌else◌}
use vcsn.Weight.{Weightset}
use vcsn.Rat.{UnaryType, Expr, is_zero, is_one, is_atom}
use vcsn.Rat.Identities.{is_trivial, is_agressive}
use vcsn.Rat.Make.{ExpressionSet, make_atom}

module _ {L K : Type 0} where
  abbrev pub is_transposition : Expr L K → Bool
  is_transposition (Expr.unary UnaryType.transposition e) = true
  is_transposition _ = false

  -- The operand of a transposition.
  abbrev pub transposed_operand : Expr L K → Expr L K
  transposed_operand (Expr.unary t e) = e
  transposed_operand e = e

module _ {L K : Type 0} ⦃ws : Weightset K⦄ (rs : ExpressionSet L K) where
  -- `atom(labelset()->transpose(l->value()))`
  abbrev pub transposed_atom : Expr L K → Expr L K
  transposed_atom (Expr.atom l) = make_atom rs (rs.labels.transpose l)
  transposed_atom e = e

  unfoldable pub make_transposition : Result (Expr L K) → Expr L K → Result (Expr L K)
  make_transposition deep e =
      if is_agressive rs.identities
      then deep
      else if is_trivial rs.identities && is_zero e
      then ok e
      else if is_trivial rs.identities && is_one e
      then ok e
      else if is_trivial rs.identities && is_atom e
      then ok (transposed_atom e)
      else if is_agressive rs.identities && is_transposition e
      then ok (transposed_operand e)
      else ok (Expr.unary UnaryType.transposition e)
