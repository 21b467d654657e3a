-- ===== src/Rat/Make/Add.antt =====
-- Sums of expressions: `gather_`, `add` and the three `add_linear_` of
-- vcsn/core/rat/expressionset.hxx. The children of a sum are sorted, so that `lower_bound` is the
-- first child that is not smaller.
pub mod Laws
use vcsn.Base.{Bool, true, false, ◌&&◌, if◌then◌else◌, is_lt}
use vcsn.Weight.{Weightset, ◌⊕◌}
use vcsn.Rat.{
  VariadicType, Expr, Exprs, is_zero, unwrap_possible_lweight, possibly_implicit_lweight, ◌+++◌,
}
use vcsn.Rat.Identities.{is_trivial, is_associative, is_linear}
use vcsn.Rat.Order.{compare_expr}
use vcsn.Rat.Make.{ExpressionSet, lweight}

-- Whether two node types are the same.
abbrev pub same_type : VariadicType → VariadicType → Bool
same_type VariadicType.add VariadicType.add = true
same_type VariadicType.mul VariadicType.mul = true
same_type VariadicType.conjunction VariadicType.conjunction = true
same_type VariadicType.shuffle VariadicType.shuffle = true
same_type VariadicType.infiltrate VariadicType.infiltrate = true
same_type VariadicType.compose VariadicType.compose = true
same_type VariadicType.ldivide VariadicType.ldivide = true
same_type _ _ = false

module _ {L K : Type 0} ⦃ws : Weightset K⦄ where
  -- The sum of the weights of two terms.
  abbrev pub sum_weight : Expr L K → Expr L K → K
  sum_weight l r = possibly_implicit_lweight l ⊕ possibly_implicit_lweight r

module _ {L K : Type 0} ⦃ws : Weightset K⦄ (rs : ExpressionSet L K) where
  -- The children that `gather_<Type>(res, v)` adds to `res`.
  unfoldable pub gathered : VariadicType → Expr L K → Exprs L K
  gathered t (Expr.variadic u es) =
      if same_type t u && is_associative rs.identities
      then es
      else Exprs.cons (Expr.variadic u es) Exprs.nil
  gathered t e = Exprs.cons e Exprs.nil

  -- `gather_<Type>(l, r)`
  unfoldable pub gather : VariadicType → Expr L K → Expr L K → Exprs L K
  gather t l r =
      if is_associative rs.identities
      then gathered t l +++ gathered t r
      else Exprs.cons l (Exprs.cons r Exprs.nil)

  unfoldable pub less_linear : Expr L K → Expr L K → Bool
  less_linear l r =
      is_lt (compare_expr rs.keys (unwrap_possible_lweight l) (unwrap_possible_lweight r))

  -- `add_(vs)`
  unfoldable pub add_values : Exprs L K → Expr L K
  add_values Exprs.nil = Expr.zero
  add_values (Exprs.cons e Exprs.nil) = e
  add_values (Exprs.cons e (Exprs.cons f es)) =
      Expr.variadic VariadicType.add (Exprs.cons e (Exprs.cons f es))

  -- Two terms that differ by their weights alone, followed by `rest`.
  unfoldable pub merged : Expr L K → Expr L K → Exprs L K → Exprs L K
  merged l r rest =
      if ws.is_zero (sum_weight l r)
      then rest
      else Exprs.cons (lweight rs (sum_weight l r) (unwrap_possible_lweight l)) rest

  -- The children of `add_linear_(const add_t& s, const value_t& r)`. `boost::lower_bound` finds the
  -- first term that is not less than `r` in the sorted terms of `s`.
  unfoldable pub insert_linear : Exprs L K → Expr L K → Exprs L K
  insert_linear Exprs.nil r = Exprs.cons r Exprs.nil
  insert_linear (Exprs.cons x xs) r =
      if less_linear x r
      then Exprs.cons x (insert_linear xs r)
      else if less_linear r x
      then Exprs.cons r (Exprs.cons x xs)
      else merged x r xs

  -- The children of `add_linear_(const add_t& s1, const add_t& s2)`.
  unfoldable pub merge_linear : Exprs L K → Exprs L K → Exprs L K
  merge_linear Exprs.nil ys = ys
  merge_linear (Exprs.cons x xs) Exprs.nil = Exprs.cons x xs
  merge_linear (Exprs.cons x xs) (Exprs.cons y ys) = elim (less_linear x y) [
    | true ↦ Exprs.cons x (merge_linear xs (Exprs.cons y ys))
    | false ↦ elim (less_linear y x) [
      | true ↦ Exprs.cons y (merge_linear (Exprs.cons x xs) ys)
      | false ↦ merged x y (merge_linear xs ys)
    ]
  ]

  -- `add_linear_` of two expressions that are no sums.
  unfoldable pub add_terms : Expr L K → Expr L K → Expr L K
  add_terms l r =
      if less_linear l r
      then Expr.variadic VariadicType.add (Exprs.cons l (Exprs.cons r Exprs.nil))
      else if less_linear r l
      then Expr.variadic VariadicType.add (Exprs.cons r (Exprs.cons l Exprs.nil))
      else lweight rs (sum_weight l r) (unwrap_possible_lweight l)

  -- `add_linear_(const value_t& l, const value_t& r)`
  unfoldable pub add_linear : Expr L K → Expr L K → Expr L K
  add_linear (Expr.variadic VariadicType.add xs) (Expr.variadic VariadicType.add ys) =
      add_values (merge_linear xs ys)
  add_linear (Expr.variadic VariadicType.add xs) r = add_values (insert_linear xs r)
  add_linear l (Expr.variadic VariadicType.add ys) = add_values (insert_linear ys l)
  add_linear l r = add_terms l r

  unfoldable pub add : Expr L K → Expr L K → Expr L K
  add l r =
      if is_trivial rs.identities && is_zero l
      then r
      else if is_trivial rs.identities && is_zero r
      then l
      else if is_linear rs.identities
      then add_linear l r
      else Expr.variadic VariadicType.add (gather VariadicType.add l r)
