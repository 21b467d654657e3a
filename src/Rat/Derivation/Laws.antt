-- ===== src/Rat/Derivation/Laws.antt =====
-- The derivation of an expression denotes the derivative of its series.
use vcsn.Base.{◌≡◌, refl, sym, ◌∙◌, ap, [], ◌∷◌, true, false, Eq, ok, >>=-eq-ok, Result}
use vcsn.Weight.{Weightset, IsSemiring, ◌⊗◌}
use vcsn.Label.{IsLabelset}
use vcsn.Series.{Series, derive, unit, plus, hadamard, shuffled, left_scale, right_scale}
use vcsn.Series.Linear.{plus_assoc, zeros-plus, plus-zeros, left_scale-one, left_scale-zeros}
use vcsn.Series.Hadamard.{hadamard-ones, hadamard_assoc}
use vcsn.Series.Interleave.{shuffled-zeros, unit-shuffled}
use vcsn.Poly.{Polynomial, add_all, add_images, pairwise}
use vcsn.Poly.Laws.{value, value-add_all, value-lweight, value-rweight}
use vcsn.Rat.{VariadicType, UnaryType, WeightType, Expr, Exprs, ◌+++◌}
use vcsn.Rat.Denote.{Meaning, denote, denotes}
use vcsn.Rat.Denote.Variadic.{denotes-cons}
use vcsn.Rat.Constant.{constant_term}
use vcsn.Rat.Constant.Laws.{ok_eq}
use vcsn.Rat.Make.{ExpressionSet, rweight}
use vcsn.Rat.Make.Weights.{denote-rweight}
use vcsn.Rat.Make.Product.{conjunction}
use vcsn.Rat.Derivation.Steps.{
  zero_label, den-pairwise, derivation-atom, constant, derivation-star, shuffle_step, mul_step,
}
use vcsn.Rat.Derivation.Derivable.{is_derivable, are_derivable, both_true}
use vcsn.Rat.Derivation.{
  expression_labels, add_factor, derivation, derivation_add, derivation_mul, derivation_conjunction,
  derivation_shuffle,
}

module _ {A K : Type 0} ⦃e : Eq A⦄ ⦃ws : Weightset K⦄ (m : Meaning A A K) (sr : IsSemiring ws)
    (rs : ExpressionSet A K) (ldivide : K → K → Result K)
    (free : (l : A) → rs.labels.is_one l ≡ false) (letter : (l : A) → m.letters l ≡ l ∷ [])
    (sound : IsLabelset rs.labels m.letters) where
  module _ (a : A) where
    abbrev series_of : Polynomial (Expr A K) K → Series A K
    series_of v = value (denote m) v

    mutual
      unfolding derivation derivation_add derivation_mul derivation_conjunction derivation_shuffle
          denote denotes value unit

      derivation_at :
          (x : Expr A K) (v : Polynomial (Expr A K) K)
          → is_derivable x ≡ true
          → derivation rs ldivide a x ≡ ok v
          → series_of v ≡ derive a (denote m x)
      derivation_at Expr.zero v d h = ap series_of (sym (ok_eq _ _ h))
      derivation_at Expr.one v d h = ap series_of (sym (ok_eq _ _ h))
      derivation_at (Expr.atom l) v d h = derivation-atom m sr rs ldivide free letter sound a l v h
      derivation_at (Expr.name x s) v d h = derivation_at x v d h
      derivation_at (Expr.variadic VariadicType.add xs) v d h =
          add_at xs [] v d h ∙ zeros-plus sr (derive a (denotes m VariadicType.add xs))
      derivation_at (Expr.variadic VariadicType.mul xs) v d h =
          mul_at xs [] ws.one v d h
          ∙ zeros-plus sr _
          ∙ left_scale-one sr (derive a (denotes m VariadicType.mul xs))
      derivation_at (Expr.variadic VariadicType.conjunction Exprs.nil) v d h = cc
      derivation_at (Expr.variadic VariadicType.conjunction (Exprs.cons x xs)) v d h =
          let (p, hp, hv) =
            >>=-eq-ok (derivation rs ldivide a x) (λ p. derivation_conjunction rs ldivide a p xs)
              h in
          let (comm, ds) = both_true ws.is_commutative _ d in
          let (dx, dxs) = both_true (is_derivable x) (are_derivable xs) ds in
          conjunction_at xs p v comm dxs hv
          ∙ ap (λ f. hadamard f (derive a (denotes m VariadicType.conjunction xs)))
              (derivation_at x p dx hp)
          ∙ sym (ap (derive a) (denotes-cons m sr VariadicType.conjunction refl x xs))
      derivation_at (Expr.variadic VariadicType.shuffle xs) v d h =
          let (comm, ds) = both_true ws.is_commutative (are_derivable xs) d in
          shuffle_at xs [] Exprs.nil v comm ds h
          ∙ zeros-plus sr _
          ∙ unit-shuffled sr (derive a (denotes m VariadicType.shuffle xs))
      derivation_at (Expr.variadic VariadicType.infiltrate xs) v d h = cc
      derivation_at (Expr.variadic VariadicType.compose xs) v d h = cc
      derivation_at (Expr.variadic VariadicType.ldivide xs) v d h = cc
      derivation_at (Expr.unary UnaryType.star x) v d h =
          let (p, hp, h1) = >>=-eq-ok (derivation rs ldivide a x) _ h in
          let (c, hc, h2) = >>=-eq-ok (constant_term x) _ h1 in
          let (s, hs, h3) = >>=-eq-ok (ws.star c) _ h2 in
          ap series_of (sym (ok_eq _ _ h3))
          ∙ derivation-star m sr rs ldivide free letter sound a x p c s (derivation_at x p d hp)
              (constant m sr rs ldivide free letter sound a x c hc) hs
      derivation_at (Expr.unary UnaryType.complement x) v d h = cc
      derivation_at (Expr.unary UnaryType.transposition x) v d h = cc
      derivation_at (Expr.weight_node WeightType.lweight k x) v d h =
          let (p, hp, hv) = >>=-eq-ok (derivation rs ldivide a x) _ h in
          ap series_of (sym (ok_eq _ _ hv))
          ∙ value-lweight sr (denote m) (expression_labels rs)
              (zero_label m sr rs ldivide free letter sound) k p
          ∙ ap (left_scale k) (derivation_at x p d hp)
      derivation_at (Expr.weight_node WeightType.rweight k x) v d h =
          let (p, hp, hv) = >>=-eq-ok (derivation rs ldivide a x) _ h in
          ap series_of (sym (ok_eq _ _ hv))
          ∙ value-rweight sr (denote m) (expression_labels rs)
              (zero_label m sr rs ldivide free letter sound) (rweight rs) (denote-rweight m sr rs) p
              k
          ∙ ap (λ f. right_scale f k) (derivation_at x p d hp)

      add_at :
          (xs : Exprs A K) (res v : Polynomial (Expr A K) K)
          → are_derivable xs ≡ true
          → derivation_add rs ldivide a res xs ≡ ok v
          → series_of v ≡ plus (series_of res) (derive a (denotes m VariadicType.add xs))
      add_at Exprs.nil res v d h =
          ap series_of (sym (ok_eq _ _ h)) ∙ sym (plus-zeros sr (series_of res))
      add_at (Exprs.cons x xs) res v d h =
          let (p, hp, hv) = >>=-eq-ok (derivation rs ldivide a x) _ h in
          let (dx, dxs) = both_true (is_derivable x) (are_derivable xs) d in
          add_at xs (add_all (expression_labels rs) res p) v dxs hv
          ∙ ap (λ f. plus f (derive a (denotes m VariadicType.add xs)))
              (value-add_all sr (denote m) (expression_labels rs)
                  (zero_label m sr rs ldivide free letter sound) res p
                ∙ ap (plus (series_of res)) (derivation_at x p dx hp))
          ∙ plus_assoc sr _ _ _
          ∙ ap (plus (series_of res))
              (sym (ap (derive a) (denotes-cons m sr VariadicType.add refl x xs)))

      conjunction_at :
          (xs : Exprs A K) (res v : Polynomial (Expr A K) K)
          → ws.is_commutative ≡ true
          → are_derivable xs ≡ true
          → derivation_conjunction rs ldivide a res xs ≡ ok v
          → series_of v
            ≡ hadamard (series_of res) (derive a (denotes m VariadicType.conjunction xs))
      conjunction_at Exprs.nil res v comm d h =
          ap series_of (sym (ok_eq _ _ h)) ∙ sym (hadamard-ones sr (series_of res))
      conjunction_at (Exprs.cons x xs) res v comm d h =
          let (p, hp, hv) = >>=-eq-ok (derivation rs ldivide a x) _ h in
          let (dx, dxs) = both_true (is_derivable x) (are_derivable xs) d in
          conjunction_at xs (pairwise (expression_labels rs) (conjunction rs) res p) v comm dxs hv
          ∙ ap (λ f. hadamard f (derive a (denotes m VariadicType.conjunction xs)))
              (den-pairwise m sr rs ldivide free letter sound comm res p
                ∙ ap (hadamard (series_of res)) (derivation_at x p dx hp))
          ∙ hadamard_assoc sr _ _ _
          ∙ ap (hadamard (series_of res))
              (sym (ap (derive a) (denotes-cons m sr VariadicType.conjunction refl x xs)))

      shuffle_at :
          (xs : Exprs A K) (res : Polynomial (Expr A K) K) (before : Exprs A K)
          (v : Polynomial (Expr A K) K)
          → ws.is_commutative ≡ true
          → are_derivable xs ≡ true
          → derivation_shuffle rs ldivide a res before xs ≡ ok v
          → series_of v
            ≡ plus (series_of res) (
                shuffled
                  (denotes m VariadicType.shuffle before)
                  (derive a (denotes m VariadicType.shuffle xs)))
      shuffle_at Exprs.nil res before v comm d h =
          ap series_of (sym (ok_eq _ _ h))
          ∙ sym (ap (plus (series_of res)) (shuffled-zeros sr _) ∙ plus-zeros sr (series_of res))
      shuffle_at (Exprs.cons x xs) res before v comm d h =
          let (p, hp, hv) = >>=-eq-ok (derivation rs ldivide a x) _ h in
          let (dx, dxs) = both_true (is_derivable x) (are_derivable xs) d in
          shuffle_at xs
            (add_images (expression_labels rs)
              (λ l. Expr.variadic VariadicType.shuffle (before +++ Exprs.cons l xs)) (λ k. k) res p)
            (before +++ Exprs.cons x Exprs.nil) v comm dxs hv
          ∙ shuffle_step m sr rs ldivide free letter sound a x xs before res p comm
              (derivation_at x p dx hp)

      mul_at :
          (xs : Exprs A K) (res : Polynomial (Expr A K) K) (c : K) (v : Polynomial (Expr A K) K)
          → are_derivable xs ≡ true
          → derivation_mul rs ldivide a res c xs ≡ ok v
          → series_of v
            ≡ plus (series_of res) (left_scale c (derive a (denotes m VariadicType.mul xs)))
      mul_at Exprs.nil res c v d h =
          ap series_of (sym (ok_eq _ _ h))
          ∙ sym (ap (plus (series_of res)) (left_scale-zeros sr c) ∙ plus-zeros sr (series_of res))
      mul_at (Exprs.cons x xs) res c v d h =
          let (p, hp, h1) = >>=-eq-ok (derivation rs ldivide a x) _ h in
          let (k, hk, h2) = >>=-eq-ok (constant_term x) _ h1 in
          let (dx, dxs) = both_true (is_derivable x) (are_derivable xs) d in
          mul_step m sr rs ldivide free letter sound a x xs res c p v k (derivation_at x p dx hp)
            (constant m sr rs ldivide free letter sound a x k hk) h2
            (λ h3. mul_at xs (add_factor rs res c p xs) (c ⊗ k) v dxs h3)

    -- Over any semiring of weights and with letters as labels, where the derivation by `a` of a
    -- derivable expression is computed, the polynomial denotes the derivative of the series of the
    -- expression: the weight of `w` in it is that of `aw` in the expression.
    pub derivation-derive :
        (x : Expr A K) (v : Polynomial (Expr A K) K)
        → is_derivable x ≡ true
        → derivation rs ldivide a x ≡ ok v
        → value (denote m) v ≡ derive a (denote m x)
    derivation-derive x v d h = derivation_at x v d h
