-- ===== src/Rat/Make/Mul/Laws.antt =====
-- The product of expressions denotes the product of the series.
use vcsn.Base.{◌≡◌, refl, sym, ◌∙◌, ap, ap₂, true, false, Eq, ◌||◌, if◌then◌else◌, arith}
use vcsn.Weight.{Weightset, IsSemiring, ◌⊗◌}
use vcsn.Series.{Series, unit, left_scale, right_scale, plus, product}
use vcsn.Series.Linear.{zeros-plus, plus-zeros, plus_assoc, left_scale-left_scale, right_scale_comm}
use vcsn.Series.Product.{
  zeros-product, product-zeros, unit-product, product-unit, plus-product, product-plus,
  left_scale-product, right_scale-product,
}
use vcsn.Rat.{
  VariadicType, WeightType, Expr, Exprs, is_zero, is_one, is_lweight, is_add,
  unwrap_possible_lweight, possibly_implicit_lweight,
}
use vcsn.Rat.Denote.{Meaning, denote, denotes}
use vcsn.Rat.Denote.Variadic.{denotes-cons}
use vcsn.Rat.Make.{ExpressionSet}
use vcsn.Rat.Make.Weights.{
  denote-is_zero, denote-is_one, denote-lweight, denote-rweight, denote-variadic,
}
use vcsn.Rat.Make.Add.{add, gather}
use vcsn.Rat.Make.Add.Laws.{denote-add, denote-unwrap, denotes-gather}
use vcsn.Rat.Make.Mul.{mul_of, weigh, mul_right, mul_right_terms, mul, mul_terms}

module _ {A L K : Type 0} ⦃e : Eq A⦄ ⦃ws : Weightset K⦄ (m : Meaning A L K) (sr : IsSemiring ws)
    (rs : ExpressionSet L K) where
  abbrev times : Expr L K → Expr L K → Series A K
  times l r = product (denote m l) (denote m r)

  zero_times : (l r : Expr L K) → is_zero l ≡ true → denote m l ≡ times l r
  zero_times l r h =
      let p = denote-is_zero m l h in
      p ∙ sym (ap (λ f. product f (denote m r)) p ∙ zeros-product sr (denote m r))

  times_zero : (l r : Expr L K) → is_zero r ≡ true → denote m r ≡ times l r
  times_zero l r h =
      let p = denote-is_zero m r h in
      p ∙ sym (ap (product (denote m l)) p ∙ product-zeros sr (denote m l))

  -- A weighted 1 is the scaled unit.
  pub weighted_one :
      (x : Expr L K)
      → is_one (unwrap_possible_lweight x) ≡ true
      → denote m x ≡ left_scale (possibly_implicit_lweight x) unit
  weighted_one x h =
      denote-unwrap m sr rs x
      ∙ ap (left_scale (possibly_implicit_lweight x))
          (denote-is_one m (unwrap_possible_lweight x) h)

  times_one :
      (l r : Expr L K)
      → is_one (unwrap_possible_lweight r) ≡ true
      → right_scale (denote m l) (possibly_implicit_lweight r) ≡ times l r
  times_one l r h = sym (
      ap (product (denote m l)) (weighted_one r h)
      ∙ sym (right_scale-product sr (denote m l) (possibly_implicit_lweight r) unit)
      ∙ product-unit sr _)

  one_times :
      (l r : Expr L K)
      → is_one (unwrap_possible_lweight l) ≡ true
      → left_scale (possibly_implicit_lweight l) (denote m r) ≡ times l r
  one_times l r h = sym (
      ap (λ f. product f (denote m r)) (weighted_one l h)
      ∙ left_scale-product sr (possibly_implicit_lweight l) unit (denote m r)
      ∙ ap (left_scale (possibly_implicit_lweight l)) (unit-product sr (denote m r)))

  pub scaled_times :
      ws.is_commutative ≡ true
      → (k h : K) (f g : Series A K)
      → left_scale (k ⊗ h) (product f g) ≡ product (left_scale k f) (left_scale h g)
  scaled_times comm k h f g = sym (
      left_scale-product sr k f (left_scale h g)
      ∙ ap (left_scale k) (
          sym (right_scale-product sr f h g)
          ∙ ap (λ x. product x g) (right_scale_comm sr comm f h)
          ∙ left_scale-product sr h f g)
      ∙ left_scale-left_scale sr k h (product f g))

  -- The weights come out of a product, over a commutative weightset.
  denote-weigh :
      ws.is_commutative ≡ true
      → (l r x : Expr L K)
      → denote m x ≡ times (unwrap_possible_lweight l) (unwrap_possible_lweight r)
      → denote m (weigh rs l r x) ≡ times l r
  denote-weigh comm l r x h =
      denote-lweight m sr rs _ x
      ∙ ap (left_scale _) h
      ∙ scaled_times comm _ _ _ _
      ∙ ap₂ product (sym (denote-unwrap m sr rs l)) (sym (denote-unwrap m sr rs r))

  denote-mul_of :
      (l r weighted left_sum right_sum : Expr L K)
      → (ws.is_commutative ≡ true
          → is_lweight l || is_lweight r ≡ true
          → denote m weighted ≡ times l r)
      → (is_add l ≡ true → denote m left_sum ≡ times l r)
      → (is_add r ≡ true → denote m right_sum ≡ times l r)
      → denote m (mul_of rs l r weighted left_sum right_sum) ≡ times l r
  denote-mul_of l r weighted left_sum right_sum p q s = ground (
    arith,
    p,
    q,
    s,
    zero_times l r,
    times_zero l r,
    times_one l r,
    one_times l r,
    denote-rweight m sr rs l (possibly_implicit_lweight r),
    denote-lweight m sr rs (possibly_implicit_lweight l) r,
    denotes-gather m sr rs VariadicType.mul refl l r,
    denote-variadic m sr rs VariadicType.mul (gather rs VariadicType.mul l r),
  )

  unwrap_self : (x : Expr L K) → is_lweight x ≡ false → unwrap_possible_lweight x ≡ x
  unwrap_self (Expr.weight_node WeightType.lweight k x) h = cc
  unwrap_self (Expr.weight_node WeightType.rweight k x) h = refl
  unwrap_self _ h = refl

  left_weighted :
      (l r : Expr L K)
      → is_lweight r ≡ false
      → is_lweight l || is_lweight r ≡ true
      → is_lweight l ≡ true
  left_weighted l r h k = ground arith

  module _ (l : Expr L K) (of_sub of_terms : Expr L K → Expr L K)
      (by_sub : is_lweight l ≡ true
        → (r : Expr L K) → denote m (of_sub r) ≡ times (unwrap_possible_lweight l) r)
      (by_terms : is_add l ≡ true → (r : Expr L K) → denote m (of_terms r) ≡ times l r) where
    -- The branch for weights where the right argument has none.
    weigh_left :
        (r : Expr L K)
        → is_lweight r ≡ false
        → ws.is_commutative ≡ true
        → is_lweight l || is_lweight r ≡ true
        → denote m (weigh rs l r (of_sub r)) ≡ times l r
    weigh_left r h comm k = denote-weigh comm l r (of_sub r) (
        by_sub (left_weighted l r h k) r
        ∙ ap (times (unwrap_possible_lweight l)) (sym (unwrap_self r h)))

    -- The product by the part of `l` under a weight, or by `l`.
    sub_or_self :
        (f x : Expr L K)
        → denote m x ≡ times l f
        → denote m (if is_lweight l then of_sub f else x) ≡ times (unwrap_possible_lweight l) f
    sub_or_self f x h =
        let whole = λ (p : is_lweight l ≡ false). ap (λ y. times y f) (unwrap_self l p) in
        ground (arith, λ (p : is_lweight l ≡ true). by_sub p f, whole)

    mutual
      unfolding mul_right mul_right_terms denote denotes

      denote-mul_right : (r : Expr L K) → denote m (mul_right rs l of_sub of_terms r) ≡ times l r
      denote-mul_right (Expr.weight_node WeightType.lweight h f) =
          let r = Expr.weight_node WeightType.lweight h f in
          denote-mul_of l r _ (of_terms r) Expr.zero
            (λ comm k. denote-weigh comm l r _ (sub_or_self f _ (denote-mul_right f)))
            (λ h. by_terms h r) (λ h. cc)
      denote-mul_right (Expr.weight_node WeightType.rweight h f) =
          let r = Expr.weight_node WeightType.rweight h f in
          denote-mul_of l r _ (of_terms r) Expr.zero (weigh_left r refl) (λ h. by_terms h r)
            (λ h. cc)
      denote-mul_right (Expr.variadic VariadicType.add xs) =
          let r = Expr.variadic VariadicType.add xs in
          denote-mul_of l r _ (of_terms r) (mul_right_terms rs l of_sub of_terms Expr.zero xs)
            (weigh_left r refl) (λ h. by_terms h r)
            (λ h. denote-mul_right_terms xs Expr.zero ∙ zeros-plus sr _)
      denote-mul_right (Expr.variadic t xs) =
          denote-mul_of l (Expr.variadic t xs) _ (of_terms (Expr.variadic t xs))
            (mul_right_terms rs l of_sub of_terms Expr.zero xs)
            (weigh_left (Expr.variadic t xs) refl) (λ h. by_terms h (Expr.variadic t xs)) (λ h. cc)
      denote-mul_right Expr.zero =
          denote-mul_of l Expr.zero _ (of_terms Expr.zero) Expr.zero (weigh_left Expr.zero refl)
            (λ h. by_terms h Expr.zero) (λ h. cc)
      denote-mul_right r =
          denote-mul_of l r _ (of_terms r) Expr.zero (weigh_left r refl) (λ h. by_terms h r)
            (λ h. cc)

      denote-mul_right_terms :
          (xs : Exprs L K) (res : Expr L K)
          → denote m (mul_right_terms rs l of_sub of_terms res xs)
            ≡ plus (denote m res) (product (denote m l) (denotes m VariadicType.add xs))
      denote-mul_right_terms Exprs.nil res =
          sym (
            ap (plus (denote m res)) (product-zeros sr (denote m l)) ∙ plus-zeros sr (denote m res))
      denote-mul_right_terms (Exprs.cons x xs) res =
          denote-mul_right_terms xs (add rs res (mul_right rs l of_sub of_terms x))
          ∙ ap (λ f. plus f (product (denote m l) (denotes m VariadicType.add xs)))
              (denote-add m sr rs res (mul_right rs l of_sub of_terms x)
                ∙ ap (plus (denote m res)) (denote-mul_right x))
          ∙ plus_assoc sr _ _ _
          ∙ ap (plus (denote m res)) (
              sym (
                ap (product (denote m l)) (denotes-cons m sr VariadicType.add refl x xs)
                ∙ product-plus sr _ _ _))

  mutual
    unfolding mul mul_terms denote denotes

    denote-mul_at : (l r : Expr L K) → denote m (mul rs l r) ≡ times l r
    denote-mul_at (Expr.weight_node WeightType.lweight h f) r =
        denote-mul_right (Expr.weight_node WeightType.lweight h f) (λ x. mul rs f x)
          (λ _. Expr.zero) (λ _ x. denote-mul_at f x) (λ h. cc) r
    denote-mul_at (Expr.variadic VariadicType.add xs) r =
        denote-mul_right (Expr.variadic VariadicType.add xs) (λ _. Expr.zero)
          (λ x. mul_terms rs xs Expr.zero x) (λ h. cc)
          (λ _ x. denote-mul_terms xs Expr.zero x ∙ zeros-plus sr _) r
    denote-mul_at (Expr.variadic t xs) r =
        denote-mul_right (Expr.variadic t xs) (λ _. Expr.zero) (λ x. mul_terms rs xs Expr.zero x)
          (λ h. cc) (λ h. cc) r
    denote-mul_at l r = denote-mul_right l (λ _. Expr.zero) (λ _. Expr.zero) (λ h. cc) (λ h. cc) r

    denote-mul_terms :
        (xs : Exprs L K) (res r : Expr L K)
        → denote m (mul_terms rs xs res r)
          ≡ plus (denote m res) (product (denotes m VariadicType.add xs) (denote m r))
    denote-mul_terms Exprs.nil res r =
        sym
          (ap (plus (denote m res)) (zeros-product sr (denote m r)) ∙ plus-zeros sr (denote m res))
    denote-mul_terms (Exprs.cons x xs) res r =
        denote-mul_terms xs (add rs res (mul rs x r)) r
        ∙ ap (λ f. plus f (product (denotes m VariadicType.add xs) (denote m r)))
            (denote-add m sr rs res (mul rs x r) ∙ ap (plus (denote m res)) (denote-mul_at x r))
        ∙ plus_assoc sr _ _ _
        ∙ ap (plus (denote m res)) (
            sym (
              ap (λ f. product f (denote m r)) (denotes-cons m sr VariadicType.add refl x xs)
              ∙ plus-product sr _ _ _))

  -- Over any semiring of weights, `mul(l, r)` denotes the product of the series of `l` and `r`,
  -- under every set of identities.
  pub denote-mul : (l r : Expr L K) → denote m (mul rs l r) ≡ product (denote m l) (denote m r)
  denote-mul l r = denote-mul_at l r
