-- ===== src/Rat/Make/Weights.antt =====
-- The weights of expressions are the scalings of the series.
use vcsn.Base.{◌≡◌, refl, sym, ◌∙◌, ap, ap₂, Bool, true, false, Eq, arith}
use vcsn.Weight.{Weightset, IsSemiring, ◌⊗◌}
use vcsn.Series.{zeros, unit, left_scale, right_scale, plus}
use vcsn.Series.Linear.{
  left_scale-one, left_scale-zero, left_scale-zeros, left_scale-left_scale, left_scale-plus,
  right_scale-one, right_scale-zero, right_scale-right_scale, right_scale-left_scale,
  right_scale_comm,
}
use vcsn.Series.Hadamard.{unit_commute, zeros_commute, single_commute}
use vcsn.Rat.{VariadicType, WeightType, Expr, Exprs, is_zero, is_one, is_leaf, is_lweight, is_add}
use vcsn.Rat.Denote.{Meaning, denote, denotes}
use vcsn.Rat.Denote.Variadic.{denotes-cons}
use vcsn.Rat.Make.{ExpressionSet, lweight_of, lweight, lweight_each, rweight_of, rweight}

module _ {A L K : Type 0} ⦃e : Eq A⦄ ⦃ws : Weightset K⦄ (m : Meaning A L K) where
  pub denote-is_zero : (x : Expr L K) → is_zero x ≡ true → denote m x ≡ zeros
  unfolding denote
  denote-is_zero Expr.zero h = refl
  denote-is_zero _ h = cc

  pub denote-is_one : (x : Expr L K) → is_one x ≡ true → denote m x ≡ unit
  unfolding denote
  denote-is_one Expr.one h = refl
  denote-is_one _ h = cc

module _ {A L K : Type 0} ⦃e : Eq A⦄ ⦃ws : Weightset K⦄ (m : Meaning A L K) (sr : IsSemiring ws)
    (rs : ExpressionSet L K) where
  lweight-is_zero :
      (w : K) (x : Expr L K) → is_zero x ≡ true → denote m x ≡ left_scale w (denote m x)
  lweight-is_zero w x h =
      denote-is_zero m x h ∙ sym (ap (left_scale w) (denote-is_zero m x h) ∙ left_scale-zeros sr w)

  lweight_one : (w : K) (x : Expr L K) → ws.is_one w ≡ true → denote m x ≡ left_scale w (denote m x)
  lweight_one w x h =
      sym
        (ap (λ k. left_scale k (denote m x)) (sr.eq_of_is_one w h) ∙ left_scale-one sr (denote m x))

  lweight_zero :
      (w : K) (x : Expr L K) → ws.is_zero w ≡ true → denote m Expr.zero ≡ left_scale w (denote m x)
  unfolding denote
  lweight_zero w x h =
      sym (
        ap (λ k. left_scale k (denote m x)) (sr.eq_of_is_zero w h)
        ∙ left_scale-zero sr (denote m x))

  denote-weight_node :
      (w : K) (x : Expr L K)
      → denote m (Expr.weight_node WeightType.lweight w x) ≡ left_scale w (denote m x)
  unfolding denote
  denote-weight_node w x = refl

  pub denote-variadic :
      (t : VariadicType) (xs : Exprs L K) → denote m (Expr.variadic t xs) ≡ denotes m t xs
  unfolding denote
  denote-variadic t xs = refl

  denote-lweight_of :
      (w : K) (x inner : Expr L K) (addends : Exprs L K)
      → (is_lweight x ≡ true → denote m inner ≡ left_scale w (denote m x))
      → (is_add x ≡ true → denotes m VariadicType.add addends ≡ left_scale w (denote m x))
      → denote m (lweight_of rs w x inner addends) ≡ left_scale w (denote m x)
  denote-lweight_of w x inner addends p q = ground (
    arith,
    p,
    q,
    lweight-is_zero w x,
    lweight_one w x,
    lweight_zero w x,
    denote-weight_node w x,
    denote-variadic VariadicType.add addends,
  )

  mutual
    unfolding lweight lweight_each denote denotes

    denote-lweight_at :
        (x : Expr L K) (w : K) → denote m (lweight rs w x) ≡ left_scale w (denote m x)
    denote-lweight_at Expr.zero w =
        denote-lweight_of w Expr.zero Expr.zero Exprs.nil (λ h. cc) (λ h. cc)
    denote-lweight_at Expr.one w =
        denote-lweight_of w Expr.one Expr.zero Exprs.nil (λ h. cc) (λ h. cc)
    denote-lweight_at (Expr.atom l) w =
        denote-lweight_of w (Expr.atom l) Expr.zero Exprs.nil (λ h. cc) (λ h. cc)
    denote-lweight_at (Expr.name x s) w =
        denote-lweight_of w (Expr.name x s) Expr.zero Exprs.nil (λ h. cc) (λ h. cc)
    denote-lweight_at (Expr.variadic VariadicType.add xs) w =
        denote-lweight_of w (Expr.variadic VariadicType.add xs) Expr.zero (lweight_each rs w xs)
          (λ h. cc) (λ h. denote-lweight_each xs w)
    denote-lweight_at (Expr.variadic t xs) w =
        denote-lweight_of w (Expr.variadic t xs) Expr.zero (lweight_each rs w xs) (λ h. cc)
          (λ h. cc)
    denote-lweight_at (Expr.unary t x) w =
        denote-lweight_of w (Expr.unary t x) Expr.zero Exprs.nil (λ h. cc) (λ h. cc)
    denote-lweight_at (Expr.weight_node WeightType.lweight h x) w =
        denote-lweight_of w (Expr.weight_node WeightType.lweight h x) (lweight rs (w ⊗ h) x)
          Exprs.nil
          (λ _. denote-lweight_at x (w ⊗ h) ∙ sym (left_scale-left_scale sr w h (denote m x)))
          (λ h. cc)
    denote-lweight_at (Expr.weight_node WeightType.rweight h x) w =
        denote-lweight_of w (Expr.weight_node WeightType.rweight h x) Expr.zero Exprs.nil (λ h. cc)
          (λ h. cc)

    denote-lweight_each :
        (xs : Exprs L K) (w : K)
        → denotes m VariadicType.add (lweight_each rs w xs)
          ≡ left_scale w (denotes m VariadicType.add xs)
    denote-lweight_each Exprs.nil w = sym (left_scale-zeros sr w)
    denote-lweight_each (Exprs.cons x xs) w =
        denotes-cons m sr VariadicType.add refl (lweight rs w x) (lweight_each rs w xs)
        ∙ ap₂ plus (denote-lweight_at x w) (denote-lweight_each xs w)
        ∙ sym (
            ap (left_scale w) (denotes-cons m sr VariadicType.add refl x xs)
            ∙ left_scale-plus sr w (denote m x) (denotes m VariadicType.add xs))

  -- Over any semiring of weights, `lweight(w, e)` denotes the series of `e` multiplied by `w` on
  -- the left, under every set of identities.
  pub denote-lweight :
      (w : K) (x : Expr L K) → denote m (lweight rs w x) ≡ left_scale w (denote m x)
  denote-lweight w x = denote-lweight_at x w

  leaf_commute :
      (x : Expr L K) (w : K)
      → is_leaf x ≡ true
      → left_scale w (denote m x) ≡ right_scale (denote m x) w
  unfolding denote
  leaf_commute Expr.zero w h = sym (zeros_commute sr w)
  leaf_commute Expr.one w h = sym (unit_commute sr w)
  leaf_commute (Expr.atom l) w h = sym (single_commute sr (m.letters l) w)
  leaf_commute _ w h = cc

  rweight_comm :
      (x : Expr L K) (w : K)
      → ws.is_commutative ≡ true
      → left_scale w (denote m x) ≡ right_scale (denote m x) w
  rweight_comm x w h = sym (right_scale_comm sr h (denote m x) w)

  rweight_zero :
      (x : Expr L K) (w : K) → ws.is_zero w ≡ true → denote m Expr.zero ≡ right_scale (denote m x) w
  unfolding denote
  rweight_zero x w h =
      sym (ap (right_scale (denote m x)) (sr.eq_of_is_zero w h) ∙ right_scale-zero sr (denote m x))

  rweight_one :
      (x : Expr L K) (w : K) → ws.is_one w ≡ true → denote m x ≡ right_scale (denote m x) w
  rweight_one x w h =
      sym (ap (right_scale (denote m x)) (sr.eq_of_is_one w h) ∙ right_scale-one sr (denote m x))

  denote-rweight_node :
      (x : Expr L K) (w : K)
      → denote m (Expr.weight_node WeightType.rweight w x) ≡ right_scale (denote m x) w
  unfolding denote
  denote-rweight_node x w = refl

  denote-rweight_of :
      (x : Expr L K) (w : K) (is_weighted : Bool) (inner : Expr L K)
      → (is_weighted ≡ true → denote m inner ≡ right_scale (denote m x) w)
      → denote m (rweight_of rs x w is_weighted inner) ≡ right_scale (denote m x) w
  denote-rweight_of x w is_weighted inner p = ground (
    arith,
    p,
    denote-lweight w x,
    rweight_comm x w,
    rweight_zero x w,
    rweight_one x w,
    leaf_commute x w,
    denote-rweight_node x w,
  )

  denote-rweight_at :
      (x : Expr L K) (w : K) → denote m (rweight rs x w) ≡ right_scale (denote m x) w
  unfolding rweight denote
  denote-rweight_at (Expr.weight_node WeightType.lweight k x) w =
      denote-rweight_of (Expr.weight_node WeightType.lweight k x) w true _ (λ _.
        denote-lweight k (rweight rs x w)
        ∙ ap (left_scale k) (denote-rweight_at x w)
        ∙ sym (right_scale-left_scale sr k (denote m x) w))
  denote-rweight_at (Expr.weight_node WeightType.rweight k x) w =
      denote-rweight_of (Expr.weight_node WeightType.rweight k x) w true _
        (λ _. denote-rweight_at x (k ⊗ w) ∙ sym (right_scale-right_scale sr (denote m x) k w))
  denote-rweight_at x w = denote-rweight_of x w false Expr.zero (λ h. cc)

  -- Over any semiring of weights, `rweight(e, w)` denotes the series of `e` multiplied by `w` on
  -- the right, under every set of identities.
  pub denote-rweight :
      (x : Expr L K) (w : K) → denote m (rweight rs x w) ≡ right_scale (denote m x) w
  denote-rweight x w = denote-rweight_at x w
