-- ===== src/Rat/Derivation/Total.antt =====
-- The derivation of an expression that has a constant term is computed.
use vcsn.Base.{
  ◌≡◌, refl, ◌∙◌, ap, true, false, Bool, ok, Result, ◌>>=◌, >>=-eq-ok, [], if◌then◌else◌,
}
use vcsn.Weight.{Weightset, ◌⊕◌, ◌⊗◌}
use vcsn.Poly.{Polynomial, add_all, add_images, pairwise}
use vcsn.Rat.{VariadicType, UnaryType, WeightType, Expr, Exprs, ◌+++◌}
use vcsn.Rat.Constant.{constant_term, constant_sum, constant_product}
use vcsn.Rat.Make.{ExpressionSet}
use vcsn.Rat.Make.Product.{conjunction}
use vcsn.Rat.Derivation.{
  expression_labels, add_factor, derivation, derivation_add, derivation_mul, derivation_conjunction,
  derivation_shuffle,
}
use vcsn.Rat.Derivation.Derivable.{is_derivable, are_derivable, both_true}

-- A bind of computed parts is computed.
pub >>=-ok {ℓ κ} :
    {A : Type ℓ} {B : Type κ} (r : Result A) (f : A → Result B) {a : A} {b : B}
    → r ≡ ok a
    → f a ≡ ok b
    → (r >>= f) ≡ ok b
>>=-ok r f h k = ap (λ x. x >>= f) h ∙ k

module _ {L K : Type 0} ⦃ws : Weightset K⦄ where
  -- Each expression has a constant term.
  abbrev pub HaveConstants : Exprs L K → Type 0
  HaveConstants Exprs.nil = Unit
  HaveConstants (Exprs.cons x xs) = ((c : K) × (constant_term x ≡ ok c)) × HaveConstants xs

  pub constants_of_sum :
      (xs : Exprs L K) (res c : K) → constant_sum res xs ≡ ok c → HaveConstants xs
  unfolding constant_sum
  constants_of_sum Exprs.nil res c h = tt
  constants_of_sum (Exprs.cons x xs) res c h =
      let (k, hk, hr) = >>=-eq-ok (constant_term x) _ h in
      ((k, hk), constants_of_sum xs (res ⊕ k) c hr)

  pub constants_of_product :
      (xs : Exprs L K) (res c : K) → constant_product res xs ≡ ok c → HaveConstants xs
  unfolding constant_product
  constants_of_product Exprs.nil res c h = tt
  constants_of_product (Exprs.cons x xs) res c h =
      let (k, hk, hr) = >>=-eq-ok (constant_term x) _ h in
      ((k, hk), constants_of_product xs (res ⊗ k) c hr)

module _ {L K : Type 0} ⦃ws : Weightset K⦄ (rs : ExpressionSet L K) (ldivide : K → K → Result K)
    (a : L) where
  abbrev IsOk : Result (Polynomial (Expr L K) K) → Type 0
  IsOk r = (v : Polynomial (Expr L K) K) × (r ≡ ok v)

  either-IsOk :
      (b : Bool) (r s : Result (Polynomial (Expr L K) K))
      → IsOk r
      → IsOk s
      → IsOk (if b then r else s)
  either-IsOk true r s hr hs = hr
  either-IsOk false r s hr hs = hs

  mutual
    unfolding derivation derivation_add derivation_mul derivation_conjunction derivation_shuffle
        constant_term

    total_at :
        (x : Expr L K) (c : K)
        → is_derivable x ≡ true
        → constant_term x ≡ ok c
        → IsOk (derivation rs ldivide a x)
    total_at Expr.zero c d h = (_, refl)
    total_at Expr.one c d h = (_, refl)
    total_at (Expr.atom l) c d h = (_, refl)
    total_at (Expr.name x s) c d h = total_at x c d h
    total_at (Expr.variadic VariadicType.add xs) c d h =
        total_add xs [] d (constants_of_sum xs ws.zero c h)
    total_at (Expr.variadic VariadicType.mul xs) c d h =
        total_mul xs [] ws.one d (constants_of_product xs ws.one c h)
    total_at (Expr.variadic VariadicType.conjunction Exprs.nil) c d h = cc
    total_at (Expr.variadic VariadicType.conjunction (Exprs.cons x xs)) c d h =
        let (k, hk) = (constants_of_product (Exprs.cons x xs) ws.one c h).0 in
        let ds = (both_true ws.is_commutative _ d).1 in
        let (dx, dxs) = both_true (is_derivable x) (are_derivable xs) ds in
        let (p, hp) = total_at x k dx hk in
        let (v, hv) =
          total_conjunction xs p dxs (constants_of_product (Exprs.cons x xs) ws.one c h).1 in
        (v, >>=-ok (derivation rs ldivide a x) _ hp hv)
    total_at (Expr.variadic VariadicType.shuffle xs) c d h =
        total_shuffle xs [] Exprs.nil (both_true ws.is_commutative (are_derivable xs) d).1
          (constants_of_product xs ws.one c h)
    total_at (Expr.variadic VariadicType.infiltrate xs) c d h = cc
    total_at (Expr.variadic VariadicType.compose xs) c d h = cc
    total_at (Expr.variadic VariadicType.ldivide xs) c d h = cc
    total_at (Expr.unary UnaryType.star x) c d h =
        let (k, hk, hs) = >>=-eq-ok (constant_term x) _ h in
        let (p, hp) = total_at x k d hk in
        (
          _,
          >>=-ok (derivation rs ldivide a x) _ hp
              (>>=-ok (constant_term x) _ hk (>>=-ok (ws.star k) _ hs refl)),
        )
    total_at (Expr.unary UnaryType.complement x) c d h = cc
    total_at (Expr.unary UnaryType.transposition x) c d h = cc
    total_at (Expr.weight_node WeightType.lweight w x) c d h =
        let (k, hk, hr) = >>=-eq-ok (constant_term x) _ h in
        let (p, hp) = total_at x k d hk in (_, >>=-ok (derivation rs ldivide a x) _ hp refl)
    total_at (Expr.weight_node WeightType.rweight w x) c d h =
        let (k, hk, hr) = >>=-eq-ok (constant_term x) _ h in
        let (p, hp) = total_at x k d hk in (_, >>=-ok (derivation rs ldivide a x) _ hp refl)

    total_add :
        (xs : Exprs L K) (res : Polynomial (Expr L K) K)
        → are_derivable xs ≡ true
        → HaveConstants xs
        → IsOk (derivation_add rs ldivide a res xs)
    total_add Exprs.nil res d h = (_, refl)
    total_add (Exprs.cons x xs) res d h =
        let (dx, dxs) = both_true (is_derivable x) (are_derivable xs) d in
        let (p, hp) = total_at x h.0.0 dx h.0.1 in
        let (v, hv) = total_add xs (add_all (expression_labels rs) res p) dxs h.1 in
        (v, >>=-ok (derivation rs ldivide a x) _ hp hv)

    total_conjunction :
        (xs : Exprs L K) (res : Polynomial (Expr L K) K)
        → are_derivable xs ≡ true
        → HaveConstants xs
        → IsOk (derivation_conjunction rs ldivide a res xs)
    total_conjunction Exprs.nil res d h = (_, refl)
    total_conjunction (Exprs.cons x xs) res d h =
        let (dx, dxs) = both_true (is_derivable x) (are_derivable xs) d in
        let (p, hp) = total_at x h.0.0 dx h.0.1 in
        let (v, hv) =
          total_conjunction xs (pairwise (expression_labels rs) (conjunction rs) res p) dxs h.1 in
        (v, >>=-ok (derivation rs ldivide a x) _ hp hv)

    total_shuffle :
        (xs : Exprs L K) (res : Polynomial (Expr L K) K) (before : Exprs L K)
        → are_derivable xs ≡ true
        → HaveConstants xs
        → IsOk (derivation_shuffle rs ldivide a res before xs)
    total_shuffle Exprs.nil res before d h = (_, refl)
    total_shuffle (Exprs.cons x xs) res before d h =
        let (dx, dxs) = both_true (is_derivable x) (are_derivable xs) d in
        let (p, hp) = total_at x h.0.0 dx h.0.1 in
        let (v, hv) =
          total_shuffle xs
            (add_images (expression_labels rs)
              (λ l. Expr.variadic VariadicType.shuffle (before +++ Exprs.cons l xs)) (λ k. k) res p)
            (before +++ Exprs.cons x Exprs.nil) dxs h.1 in
        (v, >>=-ok (derivation rs ldivide a x) _ hp hv)

    total_mul :
        (xs : Exprs L K) (res : Polynomial (Expr L K) K) (c : K)
        → are_derivable xs ≡ true
        → HaveConstants xs
        → IsOk (derivation_mul rs ldivide a res c xs)
    total_mul Exprs.nil res c d h = (_, refl)
    total_mul (Exprs.cons x xs) res c d h =
        let (dx, dxs) = both_true (is_derivable x) (are_derivable xs) d in
        let (p, hp) = total_at x h.0.0 dx h.0.1 in
        let (v, hv) = total_mul xs (add_factor rs res c p xs) (c ⊗ h.0.0) dxs h.1 in
        let (w, hw) =
          either-IsOk (ws.is_zero (c ⊗ h.0.0)) (ok (add_factor rs res c p xs)) _ (_, refl)
            (v, hv) in
        (w, >>=-ok (derivation rs ldivide a x) _ hp (>>=-ok (constant_term x) _ h.0.1 hw))

  -- Every derivable expression whose constant term is computed has a derivation by every letter.
  pub derivation_total :
      (x : Expr L K) (c : K)
      → is_derivable x ≡ true
      → constant_term x ≡ ok c
      → (v : Polynomial (Expr L K) K) × (derivation rs ldivide a x ≡ ok v)
  derivation_total x c d h = total_at x c d h
