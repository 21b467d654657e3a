-- ===== src/Rat/Make/Add/Laws.antt =====
-- The sum of expressions denotes the sum of the series.
use vcsn.Base.{
  ◌≡◌, refl, sym, ◌∙◌, ap, ap₂, true, false, Eq, arith, eq_of_not_lt, Bool-cases, inl, inr,
}
use vcsn.Weight.{Weightset, IsSemiring}
use vcsn.Series.{Series, zeros, left_scale, plus}
use vcsn.Series.Linear.{
  plus_assoc, plus_comm, zeros-plus, plus-zeros, plus-left_scale, left_scale-one, left_scale-zero,
  plus_interchange,
}
use vcsn.Rat.{
  VariadicType, WeightType, Expr, Exprs, unwrap_possible_lweight, possibly_implicit_lweight,
}
use vcsn.Rat.Denote.{Meaning, denote, denotes, combine}
use vcsn.Rat.Denote.Variadic.{denotes-cons, denotes-append, is_lawful}
use vcsn.Rat.Order.Laws.{eq_of_compare_expr, compare_expr-Reverses}
use vcsn.Rat.Make.{ExpressionSet}
use vcsn.Rat.Make.Weights.{denote-is_zero, denote-lweight, denote-variadic}
use vcsn.Rat.Make.Add.{
  same_type, gathered, gather, less_linear, add_values, sum_weight, merged, insert_linear,
  merge_linear, add_terms, add_linear, add,
}

same_type_eq : (t u : VariadicType) → same_type t u ≡ true → t ≡ u
same_type_eq t u h = ground arith

module _ {A L K : Type 0} ⦃e : Eq A⦄ ⦃ws : Weightset K⦄ (m : Meaning A L K) (sr : IsSemiring ws)
    (rs : ExpressionSet L K) where
  denotes-singleton :
      (t : VariadicType) (x : Expr L K) → denotes m t (Exprs.cons x Exprs.nil) ≡ denote m x
  unfolding denotes
  denotes-singleton t x = refl

  denotes-pair :
      (t : VariadicType) (x y : Expr L K)
      → denotes m t (Exprs.cons x (Exprs.cons y Exprs.nil)) ≡ combine m t (denote m x) (denote m y)
  unfolding denotes
  denotes-pair t x y = refl

  denotes-gathered : (t : VariadicType) (x : Expr L K) → denotes m t (gathered rs t x) ≡ denote m x
  unfolding gathered denotes denote
  denotes-gathered t (Expr.variadic u xs) = ground (arith, same_type_eq t u)
  denotes-gathered t Expr.zero = refl
  denotes-gathered t _ = refl

  -- The children that `gather_` collects from two expressions denote their combination, for each
  -- variadic operation that is associative.
  pub denotes-gather :
      (t : VariadicType)
      → is_lawful t ≡ true
      → (l r : Expr L K) → denotes m t (gather rs t l r) ≡ combine m t (denote m l) (denote m r)
  unfolding gather
  denotes-gather t h l r = ground (
    arith,
    denotes-append m sr t h (gathered rs t l) (gathered rs t r),
    denotes-gathered t l,
    denotes-gathered t r,
    denotes-pair t l r,
  )

  -- An expression is its explicit or implicit left weight times the rest.
  pub denote-unwrap :
      (x : Expr L K)
      → denote m x ≡ left_scale (possibly_implicit_lweight x) (denote m (unwrap_possible_lweight x))
  unfolding denote
  denote-unwrap (Expr.weight_node WeightType.lweight k x) = refl
  denote-unwrap (Expr.weight_node WeightType.rweight k x) = sym (left_scale-one sr _)
  denote-unwrap _ = sym (left_scale-one sr _)

  -- Terms of which neither is smaller differ by their weights alone.
  unwrap_eq :
      (l r : Expr L K)
      → less_linear rs l r ≡ false
      → less_linear rs r l ≡ false
      → unwrap_possible_lweight l ≡ unwrap_possible_lweight r
  unfolding less_linear
  unwrap_eq l r p q =
      let l' = unwrap_possible_lweight l in
      let r' = unwrap_possible_lweight r in
      eq_of_compare_expr rs.keys l' r'
        (eq_of_not_lt _ _ _ (compare_expr-Reverses rs.keys l' r') p q)

  merged_sum :
      (l r : Expr L K)
      → less_linear rs l r ≡ false
      → less_linear rs r l ≡ false
      → left_scale (sum_weight l r) (denote m (unwrap_possible_lweight l))
        ≡ plus (denote m l) (denote m r)
  merged_sum l r p q =
      sym (plus-left_scale sr _ _ _)
      ∙ sym (
          ap₂ plus (denote-unwrap l) (
            denote-unwrap r
            ∙ ap (λ x. left_scale (possibly_implicit_lweight r) (denote m x))
                (sym (unwrap_eq l r p q))))

  null_sum :
      (l r : Expr L K)
      → less_linear rs l r ≡ false
      → less_linear rs r l ≡ false
      → ws.is_zero (sum_weight l r) ≡ true
      → plus (denote m l) (denote m r) ≡ zeros
  null_sum l r p q z =
      sym (merged_sum l r p q)
      ∙ ap (λ k. left_scale k (denote m (unwrap_possible_lweight l))) (sr.eq_of_is_zero _ z)
      ∙ left_scale-zero sr _

  abbrev sum_of : Exprs L K → Series A K
  sum_of xs = denotes m VariadicType.add xs

  sum_cons :
      (x : Expr L K) (xs : Exprs L K) → sum_of (Exprs.cons x xs) ≡ plus (denote m x) (sum_of xs)
  sum_cons x xs = denotes-cons m sr VariadicType.add refl x xs

  sum-merged :
      (l r : Expr L K) (rest : Exprs L K)
      → less_linear rs l r ≡ false
      → less_linear rs r l ≡ false
      → sum_of (merged rs l r rest) ≡ plus (plus (denote m l) (denote m r)) (sum_of rest)
  unfolding merged
  sum-merged l r rest p q = elim (Bool-cases (ws.is_zero (sum_weight l r))) [
    | inl z ↦ rw z (sym (ap (λ f. plus f (sum_of rest)) (null_sum l r p q z) ∙ zeros-plus sr _))
    | inr z ↦ rw z (
        sum_cons _ rest
        ∙ ap (λ f. plus f (sum_of rest)) (denote-lweight m sr rs _ _ ∙ merged_sum l r p q))
  ]

  plus_left_comm : (f g h : Series A K) → plus f (plus g h) ≡ plus g (plus f h)
  plus_left_comm f g h =
      sym (plus_assoc sr f g h) ∙ ap (λ x. plus x h) (plus_comm sr f g) ∙ plus_assoc sr g f h

  sum-insert_linear :
      (xs : Exprs L K) (r : Expr L K)
      → sum_of (insert_linear rs xs r) ≡ plus (sum_of xs) (denote m r)
  unfolding insert_linear
  sum-insert_linear Exprs.nil r =
      denotes-singleton VariadicType.add r ∙ unfold denotes in sym (zeros-plus sr (denote m r))
  sum-insert_linear (Exprs.cons x xs) r = elim (Bool-cases (less_linear rs x r)) [
    | inl p ↦ rw p (
        sum_cons x (insert_linear rs xs r)
        ∙ ap (plus (denote m x)) (sum-insert_linear xs r)
        ∙ sym (plus_assoc sr _ _ _)
        ∙ ap (λ f. plus f (denote m r)) (sym (sum_cons x xs)))
    | inr p ↦ elim (Bool-cases (less_linear rs r x)) [
      | inl q ↦ rw (p, q) (sum_cons r (Exprs.cons x xs) ∙ plus_comm sr _ _)
      | inr q ↦
          rw (p, q)
            (sum-merged x r xs p q
              ∙ plus_assoc sr _ _ _
              ∙ ap (plus (denote m x)) (plus_comm sr _ _)
              ∙ sym (plus_assoc sr _ _ _)
              ∙ ap (λ f. plus f (denote m r)) (sym (sum_cons x xs)))
    ]
  ]

  sum-merge_linear :
      (xs ys : Exprs L K) → sum_of (merge_linear rs xs ys) ≡ plus (sum_of xs) (sum_of ys)
  unfolding merge_linear
  sum-merge_linear Exprs.nil ys = unfold denotes in sym (zeros-plus sr (sum_of ys))
  sum-merge_linear (Exprs.cons x xs) Exprs.nil = unfold denotes in sym (plus-zeros sr _)
  sum-merge_linear (Exprs.cons x xs) (Exprs.cons y ys) = elim (Bool-cases (less_linear rs x y)) [
    | inl p ↦
        rw (p, merge_linear)
          (sum_cons x (merge_linear rs xs (Exprs.cons y ys))
            ∙ ap (plus (denote m x)) (sum-merge_linear xs (Exprs.cons y ys))
            ∙ sym (plus_assoc sr _ _ _)
            ∙ ap (λ f. plus f (sum_of (Exprs.cons y ys))) (sym (sum_cons x xs)))
    | inr p ↦ elim (Bool-cases (less_linear rs y x)) [
      | inl q ↦
          rw (p, q, merge_linear)
            (sum_cons y (merge_linear rs (Exprs.cons x xs) ys)
              ∙ ap (plus (denote m y)) (sum-merge_linear (Exprs.cons x xs) ys)
              ∙ plus_left_comm _ _ _
              ∙ ap (plus (sum_of (Exprs.cons x xs))) (sym (sum_cons y ys)))
      | inr q ↦
          rw (p, q, merge_linear)
            (sum-merged x y (merge_linear rs xs ys) p q
              ∙ ap (plus (plus (denote m x) (denote m y))) (sum-merge_linear xs ys)
              ∙ plus_interchange sr _ _ _ _
              ∙ ap₂ plus (sym (sum_cons x xs)) (sym (sum_cons y ys)))
    ]
  ]

  denote-add_values : (xs : Exprs L K) → denote m (add_values rs xs) ≡ sum_of xs
  unfolding add_values denote denotes
  denote-add_values Exprs.nil = refl
  denote-add_values (Exprs.cons x Exprs.nil) = refl
  denote-add_values (Exprs.cons x (Exprs.cons y xs)) = refl

  denote-add_terms : (l r : Expr L K) → denote m (add_terms rs l r) ≡ plus (denote m l) (denote m r)
  unfolding add_terms
  denote-add_terms l r = ground (
    arith,
    merged_sum l r,
    denote-lweight m sr rs (sum_weight l r) (unwrap_possible_lweight l),
    denote-variadic m sr rs VariadicType.add (Exprs.cons l (Exprs.cons r Exprs.nil)),
    denote-variadic m sr rs VariadicType.add (Exprs.cons r (Exprs.cons l Exprs.nil)),
    denotes-pair VariadicType.add l r,
    denotes-pair VariadicType.add r l,
    plus_comm sr (denote m l) (denote m r),
  )

  merge_sums :
      (xs ys : Exprs L K)
      → denote m (add_values rs (merge_linear rs xs ys)) ≡ plus (sum_of xs) (sum_of ys)
  merge_sums xs ys = denote-add_values (merge_linear rs xs ys) ∙ sum-merge_linear xs ys

  insert_term :
      (xs : Exprs L K) (r : Expr L K)
      → denote m (add_values rs (insert_linear rs xs r)) ≡ plus (sum_of xs) (denote m r)
  insert_term xs r = denote-add_values (insert_linear rs xs r) ∙ sum-insert_linear xs r

  denote-add_linear :
      (l r : Expr L K) → denote m (add_linear rs l r) ≡ plus (denote m l) (denote m r)
  unfolding add_linear denote
  denote-add_linear (Expr.variadic VariadicType.add xs) (Expr.variadic VariadicType.add ys) =
      merge_sums xs ys
  denote-add_linear (Expr.variadic VariadicType.add xs) r = insert_term xs r
  denote-add_linear l (Expr.variadic VariadicType.add ys) =
      insert_term ys l ∙ plus_comm sr (sum_of ys) (denote m l)
  denote-add_linear l r = denote-add_terms l r

  -- Over any semiring of weights, `add(l, r)` denotes the sum of the series of `l` and `r`, under
  -- every set of identities.
  pub denote-add : (l r : Expr L K) → denote m (add rs l r) ≡ plus (denote m l) (denote m r)
  unfolding add
  denote-add l r = ground (
    arith,
    denote-is_zero m l,
    denote-is_zero m r,
    zeros-plus sr (denote m r),
    plus-zeros sr (denote m l),
    denote-add_linear l r,
    denotes-gather VariadicType.add refl l r,
    denote-variadic m sr rs VariadicType.add (gather rs VariadicType.add l r),
  )
