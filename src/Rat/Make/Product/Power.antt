-- ===== src/Rat/Make/Product/Power.antt =====
-- The repeated product of an expression denotes the repeated product of its series.
use vcsn.Base.{ℕ, zero, suc, ◌≡◌, refl, sym, ◌∙◌, ap, ap₂, true, Eq, arith}
use vcsn.Weight.{Weightset, IsSemiring, ◌⊗◌, power, power_rounds}
use vcsn.Series.{Series, unit, left_scale, product, repeated}
use vcsn.Series.Linear.{left_scale-left_scale, left_scale-one}
use vcsn.Series.Product.{
  zeros-product, product-unit, unit-product, product_assoc, left_scale-product,
}
use vcsn.Rat.{
  VariadicType, WeightType, Expr, is_zero, is_one, is_lweight, unwrap_possible_lweight,
  possibly_implicit_lweight,
}
use vcsn.Rat.Denote.{Meaning, denote, denotes}
use vcsn.Rat.Denote.Variadic.{denotes-cons}
use vcsn.Rat.Make.{ExpressionSet, lweight}
use vcsn.Rat.Make.Weights.{denote-is_zero, denote-is_one, denote-lweight, denote-variadic}
use vcsn.Rat.Make.Add.Laws.{denote-unwrap}
use vcsn.Rat.Make.Mul.{mul}
use vcsn.Rat.Make.Mul.Laws.{denote-mul, weighted_one, scaled_times}
use vcsn.Rat.Make.Product.{mul_rounds, copies, power_of, make_power}

module _ {K : Type 0} ⦃ws : Weightset K⦄ (sr : IsSemiring ws) where
  -- The power by recursion on the exponent.
  weight_power : K → ℕ → K
  weight_power k zero = ws.one
  weight_power k (suc n) = k ⊗ weight_power k n

  power_rounds-weight_power : (n : ℕ) (k res : K) → power_rounds n k res ≡ res ⊗ weight_power k n
  unfolding power_rounds weight_power
  power_rounds-weight_power zero k res = sym (sr.mul-one res)
  power_rounds-weight_power (suc n) k res =
      power_rounds-weight_power n k (res ⊗ k) ∙ sr.mul_assoc res k (weight_power k n)

  one_power : (n : ℕ) → weight_power ws.one n ≡ ws.one
  unfolding weight_power
  one_power zero = refl
  one_power (suc n) = sr.one-mul _ ∙ one_power n

  -- `power` of a weightset multiplies n copies.
  power-weight_power : (k : K) (n : ℕ) → power k n ≡ weight_power k n
  unfolding power
  power-weight_power k n = ground (
    arith,
    power_rounds-weight_power n k ws.one,
    sr.one-mul (weight_power k n),
    one_power n,
    λ (h : ws.is_one k ≡ true). sr.eq_of_is_one k h,
  )

module _ {A L K : Type 0} ⦃e : Eq A⦄ ⦃ws : Weightset K⦄ (m : Meaning A L K) (sr : IsSemiring ws)
    (rs : ExpressionSet L K) where
  abbrev raised : Expr L K → ℕ → Series A K
  raised x n = repeated (denote m x) n

  denote-mul_rounds :
      (n : ℕ) (x res : Expr L K)
      → denote m (mul_rounds rs n x res) ≡ product (denote m res) (raised x n)
  unfolding mul_rounds repeated
  denote-mul_rounds zero x res = sym (product-unit sr (denote m res))
  denote-mul_rounds (suc n) x res =
      denote-mul_rounds n x (mul rs res x)
      ∙ ap (λ f. product f (raised x n)) (denote-mul m sr rs res x)
      ∙ product_assoc sr _ _ _

  denotes-copies : (n : ℕ) (x : Expr L K) → denotes m VariadicType.mul (copies rs n x) ≡ raised x n
  unfolding copies repeated
  denotes-copies zero x = unfold denotes in refl
  denotes-copies (suc n) x =
      denotes-cons m sr VariadicType.mul refl x (copies rs n x)
      ∙ ap (product (denote m x)) (denotes-copies n x)

  zero_raised : (x : Expr L K) (n : ℕ) → is_zero x ≡ true → denote m x ≡ raised x (suc n)
  unfolding repeated
  zero_raised x n h =
      let p = denote-is_zero m x h in
      p ∙ sym (ap (λ f. product f (raised x n)) p ∙ zeros-product sr _)

  unit_raised :
      (k : K) (n : ℕ)
      → repeated {A = A} (left_scale k unit) n ≡ left_scale (weight_power sr k n) unit
  unfolding repeated weight_power
  unit_raised k zero = sym (left_scale-one sr unit)
  unit_raised k (suc n) =
      left_scale-product sr k unit _
      ∙ ap (left_scale k) (unit-product sr _ ∙ unit_raised k n)
      ∙ left_scale-left_scale sr k _ unit

  scaled_raised :
      ws.is_commutative ≡ true
      → (k : K) (f : Series A K) (n : ℕ)
      → repeated (left_scale k f) n ≡ left_scale (weight_power sr k n) (repeated f n)
  unfolding repeated weight_power
  scaled_raised comm k f zero = sym (left_scale-one sr unit)
  scaled_raised comm k f (suc n) =
      ap (product (left_scale k f)) (scaled_raised comm k f n)
      ∙ sym (scaled_times m sr rs comm k _ f _)

  one_raised :
      (x : Expr L K) (n : ℕ)
      → is_one (unwrap_possible_lweight x) ≡ true
      → denote m (lweight rs (power (possibly_implicit_lweight x) n) Expr.one) ≡ raised x n
  one_raised x n h =
      denote-lweight m sr rs _ Expr.one
      ∙ ap₂ left_scale (power-weight_power sr _ n) (denote-is_one m Expr.one refl)
      ∙ sym (ap (λ f. repeated f n) (weighted_one m sr rs x h) ∙ unit_raised _ n)

  lweight-raised :
      (x inner : Expr L K) (n : ℕ)
      → ws.is_commutative ≡ true
      → denote m inner ≡ raised (unwrap_possible_lweight x) n
      → denote m (lweight rs (power (possibly_implicit_lweight x) n) inner) ≡ raised x n
  lweight-raised x inner n comm h =
      denote-lweight m sr rs _ inner
      ∙ ap₂ left_scale (power-weight_power sr _ n) h
      ∙ sym (ap (λ f. repeated f n) (denote-unwrap m sr rs x) ∙ scaled_raised comm _ _ n)

  once : (x : Expr L K) (n : ℕ) → n ≡ 0 → denote m x ≡ raised x (suc n)
  once x n h = sym (ap (λ k. raised x (suc k)) h ∙ unfold repeated in product-unit sr (denote m x))

  again : (x : Expr L K) (n : ℕ) → product (denote m x) (raised x n) ≡ raised x (suc n)
  unfolding repeated
  again x n = refl

  denote-power_of :
      (x : Expr L K) (n : ℕ) (inner : Expr L K)
      → (is_lweight x ≡ true → denote m inner ≡ raised (unwrap_possible_lweight x) (suc n))
      → denote m (power_of rs x n inner) ≡ raised x (suc n)
  denote-power_of x n inner p = ground (
    arith,
    p,
    once x n,
    zero_raised x n,
    one_raised x (suc n),
    lweight-raised x inner (suc n),
    denote-mul_rounds n x x,
    again x n,
    denotes-copies (suc n) x,
    denote-variadic m sr rs VariadicType.mul (copies rs (suc n) x),
  )

  -- Over any semiring of weights, `power(e, n)` denotes the product of n copies of the series of
  -- `e`, under every set of identities.
  pub denote-make_power :
      (x : Expr L K) (n : ℕ) → denote m (make_power rs x n) ≡ repeated (denote m x) n
  unfolding make_power
  denote-make_power x zero = unfold denote repeated in refl
  denote-make_power (Expr.weight_node WeightType.lweight k x) (suc n) =
      denote-power_of (Expr.weight_node WeightType.lweight k x) n (make_power rs x (suc n))
        (λ _. denote-make_power x (suc n))
  denote-make_power (Expr.weight_node WeightType.rweight k x) (suc n) =
      denote-power_of (Expr.weight_node WeightType.rweight k x) n Expr.zero (λ h. cc)
  denote-make_power x (suc n) = denote-power_of x n Expr.zero (λ h. cc)
