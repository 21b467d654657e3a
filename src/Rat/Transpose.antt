-- ===== src/Rat/Transpose.antt =====
-- The deep transposition of an expression (vcsn/core/rat/transpose.hh). Compositions, whose labels
-- are tuples, are left out. Where the visit finds a transposition or a quotient it calls the
-- constructor `transposition`, given as `again`, which calls the visit where the identities are
-- agressive.
pub mod Laws
use vcsn.Base.{Bool, true, false, ◌||◌, Result, ok, raise, Error, ◌>>=◌, if◌then◌else◌}
use vcsn.Weight.{Weightset}
use vcsn.Rat.{VariadicType, UnaryType, WeightType, Expr, Exprs}
use vcsn.Rat.Make.{ExpressionSet, make_atom, lweight, rweight}
use vcsn.Rat.Make.Add.{add}
use vcsn.Rat.Make.Mul.{mul}
use vcsn.Rat.Make.Product.{conjunction, shuffle, infiltrate}
use vcsn.Rat.Make.Unary.{make_star, make_complement}
use vcsn.Rat.Make.Transposition.{make_transposition, is_transposition}

module _ {L K : Type 0} where
  abbrev pub is_ldivide : Expr L K → Bool
  is_ldivide (Expr.variadic VariadicType.ldivide es) = true
  is_ldivide _ = false

module _ {L K : Type 0} ⦃ws : Weightset K⦄ (rs : ExpressionSet L K) where
  -- The member function of the expression set for the type of a node; a product is built from the
  -- right.
  abbrev pub binary : VariadicType → Expr L K → Expr L K → Expr L K
  binary VariadicType.add r c = add rs r c
  binary VariadicType.mul r c = mul rs c r
  binary VariadicType.conjunction r c = conjunction rs r c
  binary VariadicType.shuffle r c = shuffle rs r c
  binary VariadicType.infiltrate r c = infiltrate rs r c
  binary t r c = r

module _ {L K : Type 0} ⦃ws : Weightset K⦄ (rs : ExpressionSet L K)
    (again : Expr L K → Result (Expr L K)) where
  unfoldable mutual
    pub transpose : Expr L K → Result (Expr L K)
    transpose Expr.zero = ok Expr.zero
    transpose Expr.one = ok Expr.one
    transpose (Expr.atom l) = ok (make_atom rs (rs.labels.transpose l))
    transpose (Expr.name e s) = transpose e >>= λ x. ok (Expr.name x s)
    transpose (Expr.variadic VariadicType.compose es) = raise Error.unsupported
    transpose (Expr.variadic VariadicType.ldivide es) =
        again (Expr.variadic VariadicType.ldivide es)
    transpose (Expr.variadic t es) = transpose_operands t es
    transpose (Expr.unary UnaryType.star e) = transpose e >>= λ x. make_star rs x
    transpose (Expr.unary UnaryType.complement e) = transpose e >>= λ x. ok (make_complement rs x)
    transpose (Expr.unary UnaryType.transposition e) =
        if is_transposition e || is_ldivide e
        then ok e
        else again (Expr.unary UnaryType.transposition e)
    transpose (Expr.weight_node WeightType.lweight k e) =
        transpose e >>= λ x. ok (rweight rs x (ws.transpose k))
    transpose (Expr.weight_node WeightType.rweight k e) =
        transpose e >>= λ x. ok (lweight rs (ws.transpose k) x)

    -- `visit_(v, f)`
    pub transpose_operands : VariadicType → Exprs L K → Result (Expr L K)
    transpose_operands t Exprs.nil = raise Error.invalid_arguments
    transpose_operands t (Exprs.cons e es) = transpose e >>= λ res. transpose_tail t res es

    -- The loop over the other operands.
    pub transpose_tail : VariadicType → Expr L K → Exprs L K → Result (Expr L K)
    transpose_tail t res Exprs.nil = ok res
    transpose_tail t res (Exprs.cons e es) =
        transpose e >>= λ x. transpose_tail t (binary rs t res x) es

module _ {L K : Type 0} ⦃ws : Weightset K⦄ (rs : ExpressionSet L K) where
  -- `transposition`, where the identities are not agressive: no deep transposition is made.
  abbrev pub shallow : Expr L K → Result (Expr L K)
  shallow e = make_transposition rs (raise Error.unsupported) e
