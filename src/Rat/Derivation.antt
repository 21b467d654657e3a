-- ===== src/Rat/Derivation.antt =====
-- The derivation of an expression by a letter (vcsn/algos/derivation.hh), a polynomial of
-- expressions.
pub mod Laws
pub mod Derivable
pub mod Steps
pub mod Total
use vcsn.Base.{List, [], ◌∷◌, Bool, true, false, Result, ok, raise, Error, ◌>>=◌, if◌then◌else◌}
use vcsn.Weight.{Weightset, ◌⊗◌}
use vcsn.Poly.{
  Monomial, Polynomial, Labels, add_all, add_images, lweight, rweight, rmul_label, pairwise,
}
use vcsn.Rat.{VariadicType, UnaryType, WeightType, Expr, Exprs, is_zero, ◌+++◌}
use vcsn.Rat.Order.Laws.{expression_order}
use vcsn.Rat.Constant.{constant_term}
use vcsn.Rat.Make.{ExpressionSet}
use vcsn.Rat.Make.{lweight as weighted, rweight as right_weighted}
use vcsn.Rat.Make.Add.{add}
use vcsn.Rat.Make.Mul.{mul}
use vcsn.Rat.Make.Product.{conjunction}
use vcsn.Rat.Make.Unary.{make_complement}

module _ {L K : Type 0} (rs : ExpressionSet L K) where
  -- `make_expression_polynomialset(rs)`
  abbrev pub expression_labels : Labels (Expr L K)
  expression_labels = record { order = expression_order rs.keys; label_is_zero = λ e. is_zero e }

module _ {L K : Type 0} where
  -- `prod_(begin, end)`
  abbrev pub prod : Exprs L K → Expr L K
  prod Exprs.nil = Expr.one
  prod (Exprs.cons x Exprs.nil) = x
  prod (Exprs.cons x (Exprs.cons y ys)) =
      Expr.variadic VariadicType.mul (Exprs.cons x (Exprs.cons y ys))

module _ {L K : Type 0} ⦃ws : Weightset K⦄ (rs : ExpressionSet L K) where
  -- `res += <constant> (v . prod_(xs))`
  abbrev pub add_factor :
      Polynomial (Expr L K) K → K → Polynomial (Expr L K) K → Exprs L K → Polynomial (Expr L K) K
  add_factor res constant v xs = add_all (expression_labels rs) res (
      lweight (expression_labels rs) constant
        (rmul_label (expression_labels rs) (mul rs) v (prod xs)))

module _ {L K : Type 0} ⦃ws : Weightset K⦄ (rs : ExpressionSet L K)
    (ldivide : K → K → Result K) where
  -- `to_label(v)`
  unfoldable pub to_label : Expr L K → Polynomial (Expr L K) K → Expr L K
  to_label res [] = res
  to_label res (m ∷ v) = to_label (add rs res (weighted rs m.weight m.label)) v

  -- `for (auto&& m: v) weight_set(m, weightset()->ldivide(w, weight_of(m)));`
  unfoldable pub divide_each : K → Polynomial (Expr L K) K → Result (Polynomial (Expr L K) K)
  divide_each w [] = ok []
  divide_each w (m ∷ v) = ldivide w m.weight >>= λ k.
      divide_each w v >>= λ rest. ok (record { label = m.label; weight = k } ∷ rest)

  -- `ldivide_here(w, v)`
  unfoldable pub ldivide_here : K → Polynomial (Expr L K) K → Result (Polynomial (Expr L K) K)
  ldivide_here w v = if ws.is_one w then ok v else divide_each w v

  -- `normalize(v)`, where the norm is the weight of the first monomial.
  unfoldable pub normalize : Polynomial (Expr L K) K → Result (Polynomial (Expr L K) K)
  normalize [] = ok []
  normalize (m ∷ v) = if ws.is_zero m.weight then ok (m ∷ v) else ldivide_here m.weight (m ∷ v)

  -- `ps_.complement(v)`
  unfoldable pub complement : Polynomial (Expr L K) K → Result (Polynomial (Expr L K) K)
  complement v = normalize v >>= λ n.
      ok (record { label = make_complement rs (to_label Expr.zero n); weight = ws.one } ∷ [])

  unfoldable mutual
    pub derivation : L → Expr L K → Result (Polynomial (Expr L K) K)
    derivation a Expr.zero = ok []
    derivation a Expr.one = ok []
    derivation a (Expr.atom l) =
        ok (if rs.labels.equal l a then record { label = Expr.one; weight = ws.one } ∷ [] else [])
    derivation a (Expr.name e s) = derivation a e
    derivation a (Expr.variadic VariadicType.add es) = derivation_add a [] es
    derivation a (Expr.variadic VariadicType.mul es) = derivation_mul a [] ws.one es
    derivation a (Expr.variadic VariadicType.conjunction Exprs.nil) = ok []
    derivation a (Expr.variadic VariadicType.conjunction (Exprs.cons e es)) =
        derivation a e >>= λ res. derivation_conjunction a res es
    derivation a (Expr.variadic VariadicType.shuffle es) = derivation_shuffle a [] Exprs.nil es
    derivation a (Expr.variadic VariadicType.infiltrate es) = raise Error.unsupported
    derivation a (Expr.variadic VariadicType.compose es) = raise Error.unsupported
    derivation a (Expr.variadic VariadicType.ldivide es) = raise Error.unsupported
    derivation a (Expr.unary UnaryType.star e) = derivation a e >>= λ v. constant_term e >>= λ c.
        ws.star c >>= λ s. ok (
          lweight (expression_labels rs) s
            (rmul_label (expression_labels rs) (mul rs) v (Expr.unary UnaryType.star e)))
    derivation a (Expr.unary UnaryType.complement e) = derivation a e >>= λ v. complement v
    derivation a (Expr.unary UnaryType.transposition e) = raise Error.unsupported
    derivation a (Expr.weight_node WeightType.lweight k e) =
        derivation a e >>= λ v. ok (lweight (expression_labels rs) k v)
    derivation a (Expr.weight_node WeightType.rweight k e) =
        derivation a e >>= λ v. ok (rweight (expression_labels rs) (right_weighted rs) v k)

    -- The loop over the terms of a sum.
    pub derivation_add : L → Polynomial (Expr L K) K → Exprs L K → Result (Polynomial (Expr L K) K)
    derivation_add a res Exprs.nil = ok res
    derivation_add a res (Exprs.cons e es) =
        derivation a e >>= λ v. derivation_add a (add_all (expression_labels rs) res v) es

    -- The loop over the factors of a product, which ends where the constant term is 0.
    pub derivation_mul :
        L → Polynomial (Expr L K) K → K → Exprs L K → Result (Polynomial (Expr L K) K)
    derivation_mul a res constant Exprs.nil = ok res
    derivation_mul a res constant (Exprs.cons e es) = derivation a e >>= λ v.
        constant_term e >>= λ c.
        if ws.is_zero (constant ⊗ c)
        then ok (add_factor rs res constant v es)
        else derivation_mul a (add_factor rs res constant v es) (constant ⊗ c) es

    pub derivation_conjunction :
        L → Polynomial (Expr L K) K → Exprs L K → Result (Polynomial (Expr L K) K)
    derivation_conjunction a res Exprs.nil = ok res
    derivation_conjunction a res (Exprs.cons e es) = derivation a e >>= λ v.
        derivation_conjunction a (pairwise (expression_labels rs) (conjunction rs) res v) es

    -- The loop over the operands of a shuffle: `before` are those that it has passed.
    pub derivation_shuffle :
        L → Polynomial (Expr L K) K → Exprs L K → Exprs L K → Result (Polynomial (Expr L K) K)
    derivation_shuffle a res before Exprs.nil = ok res
    derivation_shuffle a res before (Exprs.cons e es) = derivation a e >>= λ v.
        derivation_shuffle a
          (add_images (expression_labels rs)
            (λ l. Expr.variadic VariadicType.shuffle (before +++ Exprs.cons l es)) (λ k. k) res v)
          (before +++ Exprs.cons e Exprs.nil) es
