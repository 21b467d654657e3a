-- ===== src/Rat/Constant/Laws.antt =====
-- The constant term is the weight of the empty word.
use vcsn.Base.{
  ◌≡◌, refl, sym, ◌∙◌, ap, List, [], ◌∷◌, Bool, true, false, Eq, ok, >>=-eq-ok, ◌≢◌, if◌then◌else◌,
  arith,
}
use vcsn.Weight.{Weightset, IsSemiring, ◌⊕◌, ◌⊗◌}
use vcsn.Label.{Labelset, IsLabelset}
use vcsn.Series.{Series, single, unit, product, shuffled, infiltrated, starred}
use vcsn.Rat.{VariadicType, UnaryType, WeightType, Expr, Exprs}
use vcsn.Rat.Denote.{Meaning, denote, denotes, combine, neutral, unary_value, star_or}
use vcsn.Rat.Denote.Variadic.{denotes-cons, is_lawful}
use vcsn.Rat.Constant.{constant_unary, constant_term, constant_sum, constant_product}

module _ {L K : Type 0} (ls : Labelset L) where
  -- No atom is labelled by one.
  abbrev mutual
    pub IsProper : Expr L K → Type 0
    IsProper (Expr.atom a) = ls.is_one a ≡ false
    IsProper (Expr.name e s) = IsProper e
    IsProper (Expr.variadic t es) = AreProper es
    IsProper (Expr.unary t e) = IsProper e
    IsProper (Expr.weight_node t w e) = IsProper e
    IsProper Expr.zero = Unit
    IsProper Expr.one = Unit

    pub AreProper : Exprs L K → Type 0
    AreProper Exprs.nil = Unit
    AreProper (Exprs.cons e es) = IsProper e × AreProper es

-- The operations whose weight at the empty word is the product of the weights.
abbrev times_at_nil : VariadicType → Bool
times_at_nil VariadicType.add = false
times_at_nil t = is_lawful t

lawful_of_times : (t : VariadicType) → times_at_nil t ≡ true → is_lawful t ≡ true
lawful_of_times t h = ground arith

pub ok_eq {ℓ} : {A : Type ℓ} (a b : A) → ok a ≡ ok b → a ≡ b
ok_eq a b h = cc

module _ {A K : Type 0} ⦃e : Eq A⦄ ⦃ws : Weightset K⦄ where
  single_at_nil : (u : List A) → u ≢ [] → single u [] ≡ ws.zero
  unfolding single
  single_at_nil [] n = absurd (n refl)
  single_at_nil (a ∷ u) n = refl

module _ {A L K : Type 0} ⦃e : Eq A⦄ ⦃ws : Weightset K⦄ (m : Meaning A L K) (sr : IsSemiring ws)
    (ls : Labelset L) (sound : IsLabelset ls m.letters) where
  unary_at_nil :
      (t : UnaryType) (f : Series A K) (k c : K)
      → constant_unary t k ≡ ok c
      → f [] ≡ k
      → unary_value m t f [] ≡ c
  unfolding starred
  unary_at_nil UnaryType.star f k c h p = ap (λ x. star_or ws (ws.star x)) p ∙ ap (star_or ws) h
  unary_at_nil UnaryType.complement f k c h p =
      ap (λ x. if ws.is_zero x then ws.one else ws.zero) p ∙ ok_eq _ _ h
  unary_at_nil UnaryType.transposition f k c h p = ap ws.transpose p ∙ ok_eq _ _ h

  product_at_nil :
      (t : VariadicType)
      → times_at_nil t ≡ true
      → (f g : Series A K) → combine m t f g [] ≡ f [] ⊗ g []
  unfolding product shuffled infiltrated
  product_at_nil VariadicType.mul h f g = refl
  product_at_nil VariadicType.conjunction h f g = refl
  product_at_nil VariadicType.shuffle h f g = refl
  product_at_nil VariadicType.infiltrate h f g = refl
  product_at_nil _ h f g = cc

  neutral_at_nil : (t : VariadicType) → times_at_nil t ≡ true → neutral m t [] ≡ ws.one
  unfolding unit
  neutral_at_nil VariadicType.mul h = refl
  neutral_at_nil VariadicType.conjunction h = refl
  neutral_at_nil VariadicType.shuffle h = refl
  neutral_at_nil VariadicType.infiltrate h = refl
  neutral_at_nil _ h = cc

  mutual
    unfolding constant_term constant_sum constant_product denote denotes unit

    constant_at :
        (x : Expr L K) (c : K) → IsProper ls x → constant_term x ≡ ok c → denote m x [] ≡ c
    constant_at Expr.zero c p h = ok_eq _ _ h
    constant_at Expr.one c p h = ok_eq _ _ h
    constant_at (Expr.atom l) c p h = single_at_nil (m.letters l) (sound.ne_nil l p) ∙ ok_eq _ _ h
    constant_at (Expr.name x s) c p h = constant_at x c p h
    constant_at (Expr.variadic VariadicType.add xs) c p h =
        sym (sr.zero-add _) ∙ sum_at xs ws.zero c p h
    constant_at (Expr.variadic VariadicType.mul xs) c p h =
        sym (sr.one-mul _) ∙ product_at VariadicType.mul refl xs ws.one c p h
    constant_at (Expr.variadic VariadicType.conjunction xs) c p h =
        sym (sr.one-mul _) ∙ product_at VariadicType.conjunction refl xs ws.one c p h
    constant_at (Expr.variadic VariadicType.shuffle xs) c p h =
        sym (sr.one-mul _) ∙ product_at VariadicType.shuffle refl xs ws.one c p h
    constant_at (Expr.variadic VariadicType.infiltrate xs) c p h =
        sym (sr.one-mul _) ∙ product_at VariadicType.infiltrate refl xs ws.one c p h
    constant_at (Expr.variadic VariadicType.compose xs) c p h = cc
    constant_at (Expr.variadic VariadicType.ldivide xs) c p h = cc
    constant_at (Expr.unary t x) c p h =
        let (k, hk, hc) = >>=-eq-ok (constant_term x) (λ k. constant_unary t k) h in
        unary_at_nil t (denote m x) k c hc (constant_at x k p hk)
    constant_at (Expr.weight_node WeightType.lweight w x) c p h =
        let (k, hk, hc) = >>=-eq-ok (constant_term x) (λ k. ok (w ⊗ k)) h in
        ap (λ y. w ⊗ y) (constant_at x k p hk) ∙ ok_eq _ _ hc
    constant_at (Expr.weight_node WeightType.rweight w x) c p h =
        let (k, hk, hc) = >>=-eq-ok (constant_term x) (λ k. ok (k ⊗ w)) h in
        ap (λ y. y ⊗ w) (constant_at x k p hk) ∙ ok_eq _ _ hc

    sum_at :
        (xs : Exprs L K) (res c : K)
        → AreProper ls xs
        → constant_sum res xs ≡ ok c
        → res ⊕ denotes m VariadicType.add xs [] ≡ c
    sum_at Exprs.nil res c p h = sr.add-zero res ∙ ok_eq _ _ h
    sum_at (Exprs.cons x xs) res c p h =
        let (k, hk, hc) = >>=-eq-ok (constant_term x) (λ k. constant_sum (res ⊕ k) xs) h in
        ap (λ f. res ⊕ f []) (denotes-cons m sr VariadicType.add refl x xs)
        ∙ sym (sr.add_assoc _ _ _)
        ∙ ap (λ y. (res ⊕ y) ⊕ denotes m VariadicType.add xs []) (constant_at x k p.0 hk)
        ∙ sum_at xs (res ⊕ k) c p.1 hc

    product_at :
        (t : VariadicType)
        → times_at_nil t ≡ true
        → (xs : Exprs L K) (res c : K) → AreProper ls xs
        → constant_product res xs ≡ ok c
        → res ⊗ denotes m t xs [] ≡ c
    product_at t lawful Exprs.nil res c p h =
        ap (λ y. res ⊗ y) (neutral_at_nil t lawful) ∙ sr.mul-one res ∙ ok_eq _ _ h
    product_at t lawful (Exprs.cons x xs) res c p h =
        let (k, hk, hc) = >>=-eq-ok (constant_term x) (λ k. constant_product (res ⊗ k) xs) h in
        ap (λ f. res ⊗ f []) (denotes-cons m sr t (lawful_of_times t lawful) x xs)
        ∙ ap (λ y. res ⊗ y) (product_at_nil t lawful (denote m x) (denotes m t xs))
        ∙ sym (sr.mul_assoc _ _ _)
        ∙ ap (λ y. (res ⊗ y) ⊗ denotes m t xs []) (constant_at x k p.0 hk)
        ∙ product_at t lawful xs (res ⊗ k) c p.1 hc

  -- Over any semiring of weights and any lawful labelset, where the constant term of an expression
  -- whose atoms are not labelled by one is computed, it is the weight of the empty word in the
  -- series of the expression.
  pub constant_term-denote :
      (x : Expr L K) (c : K) → IsProper ls x → constant_term x ≡ ok c → denote m x [] ≡ c
  constant_term-denote x c p h = constant_at x c p h
