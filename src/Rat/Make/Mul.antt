-- ===== src/Rat/Make/Mul.antt =====
-- Products of expressions: `mul` of vcsn/core/rat/expressionset.hxx. It calls itself on parts of
-- its left argument, and for a given left argument on parts of the right one.
pub mod Laws
use vcsn.Base.{Bool, true, false, ◌&&◌, ◌||◌, if◌then◌else◌}
use vcsn.Weight.{Weightset, ◌⊗◌}
use vcsn.Rat.{
  VariadicType, WeightType, Expr, Exprs, is_zero, is_one, is_lweight, is_add,
  unwrap_possible_lweight, possibly_implicit_lweight,
}
use vcsn.Rat.Identities.{is_trivial, is_linear, is_distributive}
use vcsn.Rat.Make.{ExpressionSet, lweight, rweight}
use vcsn.Rat.Make.Add.{add, gather}

module _ {L K : Type 0} ⦃ws : Weightset K⦄ (rs : ExpressionSet L K) where
  -- The body of `mul`: `weighted` is `lweight(mul(lw, rw), mul(nl, nr))`, and the sums are those
  -- over the terms of `l` and of `r`.
  abbrev mul_of : Expr L K → Expr L K → Expr L K → Expr L K → Expr L K → Expr L K
  mul_of l r weighted left_sum right_sum =
      if is_trivial rs.identities && is_zero l
      then l
      else if is_trivial rs.identities && is_zero r
      then r
      else if is_trivial rs.identities && is_one (unwrap_possible_lweight r)
      then rweight rs l (possibly_implicit_lweight r)
      else if is_trivial rs.identities && is_one (unwrap_possible_lweight l)
      then lweight rs (possibly_implicit_lweight l) r
      else if is_linear rs.identities && ws.is_commutative && (is_lweight l || is_lweight r)
      then weighted
      else if is_distributive rs.identities && is_add l
      then left_sum
      else if is_distributive rs.identities && is_add r
      then right_sum
      else Expr.variadic VariadicType.mul (gather rs VariadicType.mul l r)

  -- `lweight(mul(lw, rw), e)` where `lw` and `rw` are the weights of `l` and `r`.
  abbrev weigh : Expr L K → Expr L K → Expr L K → Expr L K
  weigh l r e = lweight rs (possibly_implicit_lweight l ⊗ possibly_implicit_lweight r) e

  -- `mul(l, r)` for one `l`: `of_sub` is the product by the expression under the weight of `l`, and
  -- `of_terms` the sum of the products by the terms of `l`.
  unfoldable mutual
    pub mul_right : Expr L K → (Expr L K → Expr L K) → (Expr L K → Expr L K) → Expr L K → Expr L K
    mul_right l of_sub of_terms (Expr.weight_node WeightType.lweight h f) =
        mul_of l (Expr.weight_node WeightType.lweight h f)
          (weigh l (Expr.weight_node WeightType.lweight h f)
            (if is_lweight l then of_sub f else mul_right l of_sub of_terms f))
          (of_terms (Expr.weight_node WeightType.lweight h f)) Expr.zero
    mul_right l of_sub of_terms (Expr.variadic t xs) =
        mul_of l (Expr.variadic t xs) (weigh l (Expr.variadic t xs) (of_sub (Expr.variadic t xs)))
          (of_terms (Expr.variadic t xs)) (mul_right_terms l of_sub of_terms Expr.zero xs)
    mul_right l of_sub of_terms r = mul_of l r (weigh l r (of_sub r)) (of_terms r) Expr.zero

    -- `for (const auto& ra: r) res = add(res, mul(l, ra));`
    pub mul_right_terms :
        Expr L K → (Expr L K → Expr L K) → (Expr L K → Expr L K) → Expr L K → Exprs L K → Expr L K
    mul_right_terms l of_sub of_terms res Exprs.nil = res
    mul_right_terms l of_sub of_terms res (Exprs.cons x xs) =
        mul_right_terms l of_sub of_terms (add rs res (mul_right l of_sub of_terms x)) xs

  unfoldable mutual
    pub mul : Expr L K → Expr L K → Expr L K
    mul (Expr.weight_node WeightType.lweight h f) r =
        mul_right (Expr.weight_node WeightType.lweight h f) (λ x. mul f x) (λ _. Expr.zero) r
    mul (Expr.variadic t xs) r =
        mul_right (Expr.variadic t xs) (λ _. Expr.zero) (λ x. mul_terms xs Expr.zero x) r
    mul l r = mul_right l (λ _. Expr.zero) (λ _. Expr.zero) r

    -- `for (const auto& la: l) res = add(res, mul(la, r));`
    pub mul_terms : Exprs L K → Expr L K → Expr L K → Expr L K
    mul_terms Exprs.nil res r = res
    mul_terms (Exprs.cons x xs) res r = mul_terms xs (add rs res (mul x r)) r
