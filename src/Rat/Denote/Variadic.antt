-- ===== src/Rat/Denote/Variadic.antt =====
-- The five variadic operations that are associative and have a neutral element.
use vcsn.Base.{◌≡◌, refl, sym, ◌∙◌, ap, Bool, true, false, Eq}
use vcsn.Weight.{Weightset, IsSemiring}
use vcsn.Series.{Series}
use vcsn.Series.Linear.{plus_assoc, zeros-plus, plus-zeros}
use vcsn.Series.Product.{product_assoc, unit-product, product-unit}
use vcsn.Series.Hadamard.{hadamard_assoc, ones-hadamard, hadamard-ones}
use vcsn.Series.Interleave.{
  shuffled_assoc, unit-shuffled, shuffled-unit, infiltrated_assoc, unit-infiltrated,
  infiltrated-unit,
}
use vcsn.Rat.{VariadicType, Expr, Exprs, ◌+++◌}
use vcsn.Rat.Denote.{Meaning, combine, neutral, denote, denotes}

abbrev pub is_lawful : VariadicType → Bool
is_lawful VariadicType.compose = false
is_lawful VariadicType.ldivide = false
is_lawful _ = true

module _ {A L K : Type 0} ⦃e : Eq A⦄ ⦃ws : Weightset K⦄ (m : Meaning A L K)
    (sr : IsSemiring ws) where
  pub combine_assoc :
      (t : VariadicType)
      → is_lawful t ≡ true
      → (f g h : Series A K) → combine m t (combine m t f g) h ≡ combine m t f (combine m t g h)
  combine_assoc VariadicType.add _ = plus_assoc sr
  combine_assoc VariadicType.mul _ = product_assoc sr
  combine_assoc VariadicType.conjunction _ = hadamard_assoc sr
  combine_assoc VariadicType.shuffle _ = shuffled_assoc sr
  combine_assoc VariadicType.infiltrate _ = infiltrated_assoc sr
  combine_assoc VariadicType.compose h = cc
  combine_assoc VariadicType.ldivide h = cc

  pub combine-neutral :
      (t : VariadicType) → is_lawful t ≡ true → (f : Series A K) → combine m t f (neutral m t) ≡ f
  combine-neutral VariadicType.add _ = plus-zeros sr
  combine-neutral VariadicType.mul _ = product-unit sr
  combine-neutral VariadicType.conjunction _ = hadamard-ones sr
  combine-neutral VariadicType.shuffle _ = shuffled-unit sr
  combine-neutral VariadicType.infiltrate _ = infiltrated-unit sr
  combine-neutral VariadicType.compose h = cc
  combine-neutral VariadicType.ldivide h = cc

  neutral-combine :
      (t : VariadicType) → is_lawful t ≡ true → (f : Series A K) → combine m t (neutral m t) f ≡ f
  neutral-combine VariadicType.add _ = zeros-plus sr
  neutral-combine VariadicType.mul _ = unit-product sr
  neutral-combine VariadicType.conjunction _ = ones-hadamard sr
  neutral-combine VariadicType.shuffle _ = unit-shuffled sr
  neutral-combine VariadicType.infiltrate _ = unit-infiltrated sr
  neutral-combine VariadicType.compose h = cc
  neutral-combine VariadicType.ldivide h = cc

  pub denotes-cons :
      (t : VariadicType)
      → is_lawful t ≡ true
      → (x : Expr L K) (xs : Exprs L K)
      → denotes m t (Exprs.cons x xs) ≡ combine m t (denote m x) (denotes m t xs)
  unfolding denotes
  denotes-cons t h x Exprs.nil = sym (combine-neutral t h _)
  denotes-cons t h x (Exprs.cons y ys) = refl

  pub denotes-append :
      (t : VariadicType)
      → is_lawful t ≡ true
      → (xs ys : Exprs L K)
      → denotes m t (xs +++ ys) ≡ combine m t (denotes m t xs) (denotes m t ys)
  denotes-append t h Exprs.nil ys = unfold denotes in sym (neutral-combine t h _)
  denotes-append t h (Exprs.cons x xs) ys =
      denotes-cons t h x (xs +++ ys)
      ∙ ap (combine m t (denote m x)) (denotes-append t h xs ys)
      ∙ sym (combine_assoc t h _ _ _)
      ∙ ap (λ f. combine m t f (denotes m t ys)) (sym (denotes-cons t h x xs))
