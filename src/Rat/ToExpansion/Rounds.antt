-- ===== src/Rat/ToExpansion/Rounds.antt =====
-- One round of the loops over the factors of a product, in either direction.
use vcsn.Base.{
  ◌≡◌, refl, sym, ◌∙◌, ap, subst, [], ◌∷◌, true, false, Eq, ok, >>=-eq-ok, Result, Bool, ◌⊎◌, inl,
  inr, fun_ext, if◌then◌else◌, ◌>>=◌,
}
use vcsn.Weight.{Weightset, IsSemiring}
use vcsn.Label.{IsLabelset}
use vcsn.Series.{Series, unit, product}
use vcsn.Series.Product.{product-unit}
use vcsn.Series.Reversed.{reversed, reversed-unit, reversed-product}
use vcsn.Rat.{VariadicType, Expr, Exprs, ◌+++◌}
use vcsn.Rat.Denote.{Meaning, denote, denotes}
use vcsn.Rat.Denote.Variadic.{denotes-cons, denotes-append}
use vcsn.Rat.Constant.Laws.{ok_eq}
use vcsn.Rat.Make.{ExpressionSet}
use vcsn.Rat.Derivation.{prod}
use vcsn.Rat.Derivation.Steps.{denote-prod}
use vcsn.Rat.Expansion.{Expansion, one}
use vcsn.Rat.Expansion.Maps.{IsTransitive, IsSorted}
use vcsn.Rat.Expansion.Laws.{Denotes}
use vcsn.Rat.ToExpansion.Turned.{IsReversing, IsPlain}
use vcsn.Rat.ToExpansion.Factors.{IsStep, factor_before-IsStep, add_factor-IsStep, with_rest-IsStep}
use vcsn.Rat.ToExpansion.Steps.{null-IsStep, IsStep-trans}
use vcsn.Rat.ToExpansion.Nodes.{denote-maybe_transposition}
use vcsn.Rat.ToExpansion.{add_factor, with_rest, factor_before, factor_after, transposition}

-- A result that is one of two, by a test.
ok_either :
    {X : Type 0} (b : Bool) (x v : X) (rest : Result X)
    → (if b then ok x else rest) ≡ ok v
    → ((b ≡ true) × (x ≡ v)) ⊎ (rest ≡ ok v)
ok_either true x v rest h = inl (refl, ok_eq x v h)
ok_either false x v rest h = inr h

module _ {A K : Type 0} ⦃e : Eq A⦄ ⦃ws : Weightset K⦄ (m : Meaning A A K) (sr : IsSemiring ws)
    (rs : ExpressionSet A K) (trans : IsTransitive rs.keys.labels) (ldivide : K → K → Result K)
    (free : (l : A) → rs.labels.is_one l ≡ false) (letter : (l : A) → m.letters l ≡ l ∷ [])
    (sound : IsLabelset rs.labels m.letters) where
  abbrev product_of : Exprs A K → Series A K
  product_of xs = denotes m VariadicType.mul xs

  pub unit_before : unit ≡ reversed (product_of Exprs.nil)
  unfolding denotes
  unit_before = sym (fun_ext (reversed-unit sr))

  denotes_one : (x : Expr A K) → product_of (Exprs.cons x Exprs.nil) ≡ denote m x
  unfolding denotes
  denotes_one x = refl

  -- One round from the left, where `rest` is what the loop does next.
  pub mul_round :
      (x : Expr A K) (xs : Exprs A K) (res rhs v : Expansion A K) (rest : Result (Expansion A K))
      → IsSorted rs.keys.labels res.polynomials
      → Denotes m rs.keys.labels rhs (denote m x)
      → (if ws.is_zero (factor_before rs res rhs xs).constant
          then ok (factor_before rs res rhs xs)
          else rest)
        ≡ ok v
      → (IsSorted rs.keys.labels (factor_before rs res rhs xs).polynomials
          → rest ≡ ok v
          → IsStep m rs (factor_before rs res rhs xs) v (product_of xs) unit)
      → IsStep m rs res v (product_of (Exprs.cons x xs)) unit
  mul_round x xs res rhs v rest s d h next =
      subst (λ f. IsStep m rs res v f unit) (sym (denotes-cons m sr VariadicType.mul refl x xs))
        (IsStep-trans m sr rs res (factor_before rs res rhs xs) v (denote m x) (product_of xs) unit
          (subst (IsStep m rs res (factor_before rs res rhs xs) (denote m x))
            (sym (product-unit sr (product_of xs))) first)
          (elim (ok_either _ _ v rest h) [
            | inl (z, same) ↦
                subst (λ u. IsStep m rs (factor_before rs res rhs xs) u (product_of xs) unit) same
                  (null-IsStep m sr rs _ (product_of xs) unit first.sorted (sr.eq_of_is_zero _ z))
            | inr later ↦ next first.sorted later
          ]))
    where
      first : IsStep m rs res (factor_before rs res rhs xs) (denote m x) (product_of xs)
      first =
          factor_before-IsStep m sr rs trans ldivide free letter sound res rhs (denote m x) xs s d

  module _ (plain : IsPlain ws) (comm : ws.is_commutative ≡ true)
      (transpose : Expr A K → Result (Expr A K)) (turns : IsReversing m rs transpose) where
    factor_after-IsStep :
        (before : Exprs A K) (res rhs v : Expansion A K) (f : Series A K)
        → IsSorted rs.keys.labels res.polynomials
        → Denotes m rs.keys.labels rhs f
        → factor_after rs transpose res rhs before ≡ ok v
        → IsStep m rs res v f (reversed (product_of before))
    factor_after-IsStep Exprs.nil res rhs v f s d h =
        subst (λ u. IsStep m rs res u f (reversed (product_of Exprs.nil))) (ok_eq _ _ h)
          (subst (IsStep m rs res (add_factor rs res rhs) f) unit_before
            (add_factor-IsStep m sr rs trans ldivide free letter sound res rhs f s d))
    factor_after-IsStep (Exprs.cons y ys) res rhs v f s d h =
        let (z, hz, hv) = >>=-eq-ok (transposition rs transpose (prod (Exprs.cons y ys))) _ h in
        subst (λ u. IsStep m rs res u f (reversed (product_of (Exprs.cons y ys)))) (ok_eq _ _ hv)
          (subst (IsStep m rs res (add_factor rs res (with_rest rs rhs z)) f)
            (denote-maybe_transposition m sr rs trans ldivide free letter sound plain transpose
                turns true (prod (Exprs.cons y ys)) z (λ t. comm) hz
              ∙ ap reversed (denote-prod m sr rs ldivide free letter sound (Exprs.cons y ys)))
            (with_rest-IsStep m sr rs trans ldivide free letter sound res rhs f z s d))

    -- One round from the right, where `r` is the expansion of the factors on the right of `x`.
    pub transposed_round :
        (x : Expr A K) (before xs : Exprs A K) (r v : Expansion A K)
        (visited : Result (Expansion A K))
        → IsStep m rs
            (one rs)
            r
            (reversed (product_of xs))
            (reversed (product_of (before +++ Exprs.cons x Exprs.nil)))
        → (if ws.is_zero r.constant
            then ok r
            else (visited >>= λ rhs.
                transposition rs transpose x >>= λ z. factor_after rs transpose r rhs before))
          ≡ ok v
        → ((rhs : Expansion A K)
            → visited ≡ ok rhs
            → Denotes m rs.keys.labels rhs (reversed (denote m x)))
        → IsStep m rs
            (one rs)
            v
            (reversed (product_of (Exprs.cons x xs)))
            (reversed (product_of before))
    transposed_round x before xs r v visited first h next =
        subst (λ f. IsStep m rs (one rs) v f (reversed (product_of before)))
          (sym (reversed-product sr comm (denote m x) (product_of xs))
            ∙ ap reversed (sym (denotes-cons m sr VariadicType.mul refl x xs)))
          (IsStep-trans m sr rs (one rs) r v (reversed (product_of xs)) (reversed (denote m x))
            (reversed (product_of before))
            (subst (IsStep m rs (one rs) r (reversed (product_of xs))) both first)
            (elim (ok_either (ws.is_zero r.constant) r v
              (visited >>= λ rhs.
                transposition rs transpose x >>= λ z. factor_after rs transpose r rhs before)
              h) [
                | inl (z, same) ↦
                    subst
                      (λ u. IsStep m rs r u (reversed (denote m x)) (reversed (product_of before)))
                      same (null-IsStep m sr rs r _ _ first.sorted (sr.eq_of_is_zero _ z))
                | inr later ↦
                    let (rhs, hr, ht) = >>=-eq-ok visited _ later in
                    let (z, hz, hv) = >>=-eq-ok (transposition rs transpose x) _ ht in
                    factor_after-IsStep before r rhs v (reversed (denote m x)) first.sorted
                      (next rhs hr) hv
              ]))
      where
        both :
            reversed (product_of (before +++ Exprs.cons x Exprs.nil))
            ≡ product (reversed (denote m x)) (reversed (product_of before))
        both =
            ap reversed (
              denotes-append m sr VariadicType.mul refl before (Exprs.cons x Exprs.nil)
              ∙ ap (product (product_of before)) (denotes_one x))
            ∙ reversed-product sr comm (product_of before) (denote m x)
