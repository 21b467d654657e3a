-- ===== src/Rat/Make/Product.antt =====
-- The other binary constructors of vcsn/core/rat/expressionset.hxx: `conjunction`, `ldivide`,
-- `infiltrate`, `shuffle`, and the repeated product `power`.
pub mod Laws
pub mod Power
use vcsn.Base.{ℕ, zero, suc, Bool, true, false, ◌&&◌, ◌||◌, ◌==◌, if◌then◌else◌}
use vcsn.Weight.{Weightset, ◌⊗◌, power}
use vcsn.Rat.{
  VariadicType, WeightType, Expr, Exprs, is_zero, is_one, is_atom, is_universal, is_add, is_lweight,
  unwrap_possible_lweight, possibly_implicit_lweight,
}
use vcsn.Rat.Identities.{is_trivial, is_linear, is_associative, is_distributive}
use vcsn.Rat.Make.{ExpressionSet, lweight, rweight}
use vcsn.Rat.Make.Add.{gather}
use vcsn.Rat.Make.Mul.{mul}

module _ {L K : Type 0} ⦃ws : Weightset K⦄ (rs : ExpressionSet L K) where
  -- `labelset()->equal(lhs, rhs)` on the labels of two atoms.
  abbrev pub equal_atoms : Expr L K → Expr L K → Bool
  equal_atoms (Expr.atom a) (Expr.atom b) = rs.labels.equal a b
  equal_atoms _ _ = false

  -- The tests of `conjunction` that look for atoms.
  unfoldable pub conjunction_of_atoms : Expr L K → Expr L K → Expr L K
  conjunction_of_atoms l r =
      let l' = unwrap_possible_lweight l in
      let r' = unwrap_possible_lweight r in
      if is_trivial rs.identities && (is_atom l' && is_atom r')
      then if equal_atoms l' r' then rweight rs l (possibly_implicit_lweight r) else Expr.zero
      else if is_trivial rs.identities && ((is_one l' && is_atom r') || (is_atom l' && is_one r'))
      then Expr.zero
      else Expr.variadic VariadicType.conjunction (gather rs VariadicType.conjunction l r)

  unfoldable pub conjunction : Expr L K → Expr L K → Expr L K
  conjunction l r =
      if is_trivial rs.identities && is_zero l
      then l
      else if is_trivial rs.identities && is_zero r
      then r
      else if is_trivial rs.identities && is_universal r
      then l
      else if is_trivial rs.identities && is_universal l
      then r
      else if is_trivial rs.identities
          && (is_one (unwrap_possible_lweight l) && is_one (unwrap_possible_lweight r))
      then lweight rs (possibly_implicit_lweight l ⊗ possibly_implicit_lweight r) Expr.one
      else conjunction_of_atoms l r

  unfoldable pub ldivide : Expr L K → Expr L K → Expr L K
  ldivide l r =
      if is_trivial rs.identities && is_zero l
      then l
      else if is_trivial rs.identities && is_one l
      then r
      else if is_trivial rs.identities && is_zero r
      then r
      else Expr.variadic VariadicType.ldivide (Exprs.cons l (Exprs.cons r Exprs.nil))

  unfoldable pub infiltrate : Expr L K → Expr L K → Expr L K
  infiltrate l r =
      if is_trivial rs.identities && is_zero l
      then l
      else if is_trivial rs.identities && is_zero r
      then r
      else if is_trivial rs.identities && is_one l
      then r
      else if is_trivial rs.identities && is_one r
      then l
      else Expr.variadic VariadicType.infiltrate (gather rs VariadicType.infiltrate l r)

  unfoldable pub shuffle : Expr L K → Expr L K → Expr L K
  shuffle l r =
      if is_trivial rs.identities && is_zero l
      then l
      else if is_trivial rs.identities && is_zero r
      then r
      else if is_trivial rs.identities && is_one l
      then r
      else if is_trivial rs.identities && is_one r
      then l
      else Expr.variadic VariadicType.shuffle (gather rs VariadicType.shuffle l r)

  -- `for (unsigned i = 1; i < n; ++i) res = mul(res, e);`, where `n` counts the rounds.
  unfoldable pub mul_rounds : ℕ → Expr L K → Expr L K → Expr L K
  mul_rounds zero e res = res
  mul_rounds (suc n) e res = mul_rounds n e (mul rs res e)

  -- `n` copies of an expression.
  unfoldable pub copies : ℕ → Expr L K → Exprs L K
  copies zero e = Exprs.nil
  copies (suc n) e = Exprs.cons e (copies n e)

  -- The body of `power` for `suc n`; `inner` is `power(lw->sub(), n)`.
  abbrev power_of : Expr L K → ℕ → Expr L K → Expr L K
  power_of e n inner =
      if n == 0
      then e
      else if is_trivial rs.identities && is_zero e
      then e
      else if is_trivial rs.identities && is_one (unwrap_possible_lweight e)
      then lweight rs (power (possibly_implicit_lweight e) (suc n)) Expr.one
      else if is_linear rs.identities && ws.is_commutative && is_lweight e
      then lweight rs (power (possibly_implicit_lweight e) (suc n)) inner
      else if is_distributive rs.identities && is_add e
      then mul_rounds n e e
      else if is_associative rs.identities
      then Expr.variadic VariadicType.mul (copies (suc n) e)
      else mul_rounds n e e

  unfoldable pub make_power : Expr L K → ℕ → Expr L K
  make_power e zero = Expr.one
  make_power (Expr.weight_node WeightType.lweight k f) (suc n) =
      power_of (Expr.weight_node WeightType.lweight k f) n (make_power f (suc n))
  make_power e (suc n) = power_of e n Expr.zero
