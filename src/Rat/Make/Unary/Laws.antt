-- ===== src/Rat/Make/Unary/Laws.antt =====
-- What the constructors of the star make.
use vcsn.Base.{
  Bool-cases, ◌≡◌, refl, sym, ◌∙◌, ap, ◌≢◌, ◌⊎◌, Bool, true, false, Result, ok, raise, Error, ◌>>=◌,
  >>=-eq-ok, Eq, inl, inr, if◌then◌else◌, ◌&&◌, arith, List, [], ◌∷◌, fun_ext,
}
use vcsn.Weight.{Weightset, IsSemiring}
use vcsn.Series.{zeros, unit, starred}
use vcsn.Series.Product.{starred_cons, zeros-product}
use vcsn.Rat.{UnaryType, Expr, is_zero}
use vcsn.Rat.Identities.{Identities, is_trivial, is_distributive, is_agressive}
use vcsn.Rat.Denote.{Meaning, denote, star_or}
use vcsn.Rat.Constant.{constant_term, is_valid, validity}
use vcsn.Rat.Constant.Laws.{ok_eq}
use vcsn.Rat.Make.{ExpressionSet}
use vcsn.Rat.Make.Weights.{denote-is_zero}
use vcsn.Rat.Make.Unary.{is_star, check_star, make_star}

module _ {K : Type 0} ⦃ws : Weightset K⦄ where
  ok_of_validity : (r : Result K) → validity r ≡ ok true → (c : K) × (r ≡ ok c)
  ok_of_validity (ok c) h = (c, refl)
  ok_of_validity (raise Error.unsupported) h = cc
  ok_of_validity (raise Error.not_starrable) h = cc
  ok_of_validity (raise Error.division_by_zero) h = cc
  ok_of_validity (raise Error.invalid_division) h = cc
  ok_of_validity (raise Error.invalid_lhs) h = cc
  ok_of_validity (raise Error.invalid_rhs) h = cc
  ok_of_validity (raise Error.invalid_arguments) h = cc

-- The branch that a chain of three tests takes.
chosen :
    {X : Type 0} (b1 b2 b3 : Bool) (r1 r2 r3 r4 : Result X) (y : X)
    → (if b1 then r1 else if b2 then r2 else if b3 then r3 else r4) ≡ ok y
    → ((b1 ≡ true) × (r1 ≡ ok y))
      ⊎ (((b2 ≡ true) × (r2 ≡ ok y)) ⊎ (((b3 ≡ true) × (r3 ≡ ok y)) ⊎ ((b3 ≡ false) × (r4 ≡ ok y))))
chosen true b2 b3 r1 r2 r3 r4 y h = inl (refl, h)
chosen false true b3 r1 r2 r3 r4 y h = inr (inl (refl, h))
chosen false false true r1 r2 r3 r4 y h = inr (inr (inl (refl, h)))
chosen false false false r1 r2 r3 r4 y h = inr (inr (inr (refl, h)))

true_ne : true ≢ false
true_ne h = cc

clash : (b c : Bool) → b ≡ false → (b && c) ≡ true → ⊥
clash true c h k = true_ne h
clash false c h k = true_ne (sym k)

second_true : (b c : Bool) → (b && c) ≡ true → c ≡ true
second_true true c h = h
second_true false c h = cc

not_agressive : (i : Identities) → is_distributive i ≡ true → is_agressive i ≡ false
not_agressive i h = ground arith

module _ {L K : Type 0} ⦃ws : Weightset K⦄ (rs : ExpressionSet L K) where
  checked :
      (x y : Expr L K) (valid : Bool) → check_star rs x valid ≡ ok y → (x ≡ y) × (valid ≡ true)
  checked x y true h = (ok_eq x y h, refl)
  checked x y false h = cc

  valid_of_checked :
      (x y : Expr L K)
      → (is_valid x >>= λ valid. check_star rs x valid) ≡ ok y
      → (x ≡ y) × ((c : K) × (constant_term x ≡ ok c))
  unfolding is_valid
  valid_of_checked x y h =
      let (valid, hv, hc) = >>=-eq-ok (is_valid x) (λ valid. check_star rs x valid) h in
      let (eq, is_true) = checked x y valid hc in
      (eq, ok_of_validity (constant_term x) (hv ∙ ap ok is_true))

  star_branches :
      (e x : Expr L K)
      → make_star rs e ≡ ok x
      → (((is_trivial rs.identities && is_zero e) ≡ true) × (ok Expr.one ≡ ok x))
        ⊎ (((is_agressive rs.identities && (is_star e && ws.is_b) ≡ true) × (ok e ≡ ok x))
            ⊎ (((is_distributive rs.identities ≡ true)
                  × ((is_valid (Expr.unary UnaryType.star e) >>= λ valid.
                        check_star rs (Expr.unary UnaryType.star e) valid)
                      ≡ ok x))
                ⊎ ((is_distributive rs.identities ≡ false)
                    × (ok (Expr.unary UnaryType.star e) ≡ ok x))))
  unfolding make_star
  star_branches e x h =
      chosen (is_trivial rs.identities && is_zero e)
        (is_agressive rs.identities && (is_star e && ws.is_b)) (is_distributive rs.identities)
        (ok Expr.one) (ok e)
        (is_valid (Expr.unary UnaryType.star e) >>= λ valid.
          check_star rs (Expr.unary UnaryType.star e) valid)
        (ok (Expr.unary UnaryType.star e)) x h

  constant_of_zero : (e : Expr L K) → is_zero e ≡ true → constant_term e ≡ ok ws.zero
  unfolding constant_term
  constant_of_zero Expr.zero h = refl
  constant_of_zero Expr.one h = cc
  constant_of_zero (Expr.atom l) h = cc
  constant_of_zero (Expr.name e s) h = cc
  constant_of_zero (Expr.variadic t es) h = cc
  constant_of_zero (Expr.unary t e) h = cc
  constant_of_zero (Expr.weight_node t k e) h = cc

  module _ (sr : IsSemiring ws) (e : Expr L K) (c : K) (d : is_distributive rs.identities ≡ true)
      (known : constant_term e ≡ ok c) where
    -- The null expression has the null constant term, whose star is one.
    star_of_null :
        (r : Result K)
        → (is_trivial rs.identities && is_zero e) ≡ true
        → ws.star c ≡ r
        → r ≡ ok ws.one
    star_of_null r z h =
        sym h
        ∙ ap ws.star (ok_eq _ _ (sym known ∙ constant_of_zero e (second_true _ _ z)))
        ∙ sr.star-zero

    -- The branch of the identities, with the outcome of the check.
    checked_star :
        (valid : Bool)
        → (is_trivial rs.identities && is_zero e) ≡ false
        → validity (ws.star c) ≡ ok valid
        → make_star rs e ≡ check_star rs (Expr.unary UnaryType.star e) valid
    unfolding make_star is_valid constant_term
    checked_star valid n v = rw (n, not_agressive rs.identities d, d, known, v) refl

    -- Under the identities `distributive`, over any semiring of weights, and where the constant
    -- term of an expression is computed: if that has a star, the star of the expression is built,
    -- of the null expression too, and has this star as its constant term; if it is not starrable,
    -- the constructor raises the same error.
    pub make_star_starrable :
        ((s : K)
          → ws.star c ≡ ok s
          → (x : Expr L K) × (make_star rs e ≡ ok x) × (constant_term x ≡ ok s))
        × (ws.star c ≡ raise Error.not_starrable → make_star rs e ≡ raise Error.not_starrable)
    unfolding constant_term
    make_star_starrable = (
      λ s h. elim (Bool-cases (is_trivial rs.identities && is_zero e)) [
        | inl z ↦ (Expr.one, at_null z, sym (star_of_null (ok s) z h))
        | inr n ↦ (
          Expr.unary UnaryType.star e,
          checked_star true n (ap validity h),
          ap (λ r. r >>= λ k. ws.star k) known ∙ h,
        )
      ],
      λ h. elim (Bool-cases (is_trivial rs.identities && is_zero e)) [
        | inl z ↦ absurd (cc (star_of_null _ z h))
        | inr n ↦ checked_star false n (ap validity h)
      ],
    )
      where
        at_null : (is_trivial rs.identities && is_zero e) ≡ true → make_star rs e ≡ ok Expr.one
        at_null z = unfold make_star in rw z

module _ {A L K : Type 0} ⦃e : Eq A⦄ ⦃ws : Weightset K⦄ (m : Meaning A L K) (sr : IsSemiring ws)
    (rs : ExpressionSet L K) where
  starred-zeros_at : (w : List A) → starred {A = A} {K = K} zeros ws.one w ≡ unit w
  unfolding unit
  starred-zeros_at [] = unfold starred in refl
  starred-zeros_at (a ∷ w) =
      starred_cons sr zeros ws.one a w
      ∙ ap (λ f. ws.mul ws.one (f w)) (zeros-product sr (starred zeros ws.one))
      ∙ sr.mul-zero ws.one

  star_of_zero :
      (x : Expr L K) → is_zero x ≡ true → denote m Expr.one ≡ denote m (Expr.unary UnaryType.star x)
  unfolding denote
  star_of_zero x h = sym (
      ap (λ f. starred f (star_or ws (ws.star (f [])))) (denote-is_zero m x h)
      ∙ ap (λ k. starred zeros (star_or ws k)) sr.star-zero
      ∙ fun_ext starred-zeros_at)

  -- Over any semiring of weights, a star that is built denotes the star of the series, under every
  -- set of identities but `agressive`.
  pub denote-make_star :
      (x y : Expr L K)
      → is_agressive rs.identities ≡ false
      → make_star rs x ≡ ok y
      → denote m y ≡ denote m (Expr.unary UnaryType.star x)
  denote-make_star x y a h = elim (star_branches rs x y h) [
    | inl (z, k) ↦ ap (denote m) (sym (ok_eq _ _ k)) ∙ star_of_zero x (second_true _ _ z)
    | inr (inl (s, k)) ↦ absurd (clash _ _ a s)
    | inr (inr (inl (t, k))) ↦
        ap (denote m) (sym (valid_of_checked rs (Expr.unary UnaryType.star x) y k).0)
    | inr (inr (inr (t, k))) ↦ ap (denote m) (sym (ok_eq _ _ k))
  ]
