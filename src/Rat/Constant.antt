-- ===== src/Rat/Constant.antt =====
-- The constant term of an expression (vcsn/algos/constant-term.hh), and whether the expression is
-- valid (vcsn/algos/is-valid-expression.hh).
pub mod Laws
use vcsn.Base.{Bool, true, false, Result, ok, raise, Error, ◌>>=◌, if◌then◌else◌}
use vcsn.Weight.{Weightset, ◌⊕◌, ◌⊗◌}
use vcsn.Rat.{VariadicType, UnaryType, WeightType, Expr, Exprs}

module _ {K : Type 0} ⦃ws : Weightset K⦄ where
  -- The result of a unary node from the constant term of its child.
  abbrev pub constant_unary : UnaryType → K → Result K
  constant_unary UnaryType.star k = ws.star k
  constant_unary UnaryType.complement k = ok (if ws.is_zero k then ws.one else ws.zero)
  constant_unary UnaryType.transposition k = ok (ws.transpose k)

  abbrev pub constant_weight : WeightType → K → K → K
  constant_weight WeightType.lweight w k = w ⊗ k
  constant_weight WeightType.rweight w k = k ⊗ w

  -- What `is_valid` makes of the outcome of the constant term.
  abbrev pub validity : Result K → Result Bool
  validity (ok k) = ok true
  validity (raise Error.unsupported) = raise Error.unsupported
  validity (raise _) = ok false

module _ {L K : Type 0} ⦃ws : Weightset K⦄ where
  unfoldable mutual
    pub constant_term : Expr L K → Result K
    constant_term Expr.zero = ok ws.zero
    constant_term Expr.one = ok ws.one
    constant_term (Expr.atom l) = ok ws.zero
    constant_term (Expr.name e s) = constant_term e
    constant_term (Expr.variadic VariadicType.add es) = constant_sum ws.zero es
    constant_term (Expr.variadic VariadicType.mul es) = constant_product ws.one es
    constant_term (Expr.variadic VariadicType.conjunction es) = constant_product ws.one es
    constant_term (Expr.variadic VariadicType.shuffle es) = constant_product ws.one es
    constant_term (Expr.variadic VariadicType.infiltrate es) = constant_product ws.one es
    constant_term (Expr.variadic VariadicType.compose es) = raise Error.unsupported
    constant_term (Expr.variadic VariadicType.ldivide es) = raise Error.unsupported
    constant_term (Expr.unary t e) = constant_term e >>= λ k. constant_unary t k
    constant_term (Expr.weight_node t w e) = constant_term e >>= λ k. ok (constant_weight t w k)

    -- `for (auto c: v) res = ws_.add(res, constant_term(c));`
    pub constant_sum : K → Exprs L K → Result K
    constant_sum res Exprs.nil = ok res
    constant_sum res (Exprs.cons e es) = constant_term e >>= λ k. constant_sum (res ⊕ k) es

    -- `for (auto c: v) res = ws_.mul(res, constant_term(c));`
    pub constant_product : K → Exprs L K → Result K
    constant_product res Exprs.nil = ok res
    constant_product res (Exprs.cons e es) = constant_term e >>= λ k. constant_product (res ⊗ k) es

  unfoldable pub is_valid : Expr L K → Result Bool
  is_valid e = validity (constant_term e)
