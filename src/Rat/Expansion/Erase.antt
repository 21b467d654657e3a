-- ===== src/Rat/Expansion/Erase.antt =====
-- The erasure of null polynomials from a sorted map.
use vcsn.Base.{
  ◌≡◌, refl, sym, ap, subst, ◌∙◌, [], ◌∷◌, true, false, Compare, Ordering, if◌then◌else◌,
  Bool-cases, ◌⊎◌, inl, inr,
}
use vcsn.Poly.{Monomial, Polynomial, Found, by_order, find}
use vcsn.Rat.{Expr}
use vcsn.Rat.Expansion.{Polys, found_or_empty, polynomial_at, is_null, erase_null}
use vcsn.Rat.Expansion.Maps.{IsTransitive, IsBelow, IsSorted, IsBelow-trans, find-IsBelow}

module _ {L K : Type 0} (o : Compare L) (trans : IsTransitive o) where
  erase_null-IsBelow :
      (k : L) (v : Polys L K) → IsBelow o k v → IsSorted o v → IsBelow o k (erase_null v)
  unfolding erase_null
  erase_null-IsBelow k [] b s = tt
  erase_null-IsBelow k (p ∷ v) b s =
      elim (is_null p.weight) as (λ c. IsBelow o k (if c then erase_null v else p ∷ erase_null v)) [
        | true ↦ erase_null-IsBelow k v (IsBelow-trans o trans k p.label v b s.0) s.1
        | false ↦ b
      ]

  pub erase_null-IsSorted : (v : Polys L K) → IsSorted o v → IsSorted o (erase_null v)
  unfolding erase_null
  erase_null-IsSorted [] s = tt
  erase_null-IsSorted (p ∷ v) s =
      elim (is_null p.weight) as (λ c. IsSorted o (if c then erase_null v else p ∷ erase_null v)) [
        | true ↦ erase_null-IsSorted v s.1
        | false ↦ (erase_null-IsBelow p.label v s.0 s.1, erase_null-IsSorted v s.1)
      ]

  erased_at :
      (d : Ordering) (a : L) (p : Monomial L (Polynomial (Expr L K) K)) (v : Polys L K)
      → o.cmp a p.label ≡ d
      → IsSorted o (p ∷ v)
      → is_null p.weight ≡ true
      → polynomial_at o v a
        ≡ found_or_empty (by_order d Found.absent (Found.present p.weight) (find o.cmp v a))
  erased_at Ordering.lt a p v h s z =
      ap found_or_empty (find-IsBelow o trans a v (IsBelow-trans o trans a p.label v h s.0))
  erased_at Ordering.eq a p v h s z =
      ap found_or_empty
        (find-IsBelow o trans a v (subst (λ x. IsBelow o x v) (sym (o.eq_of_cmp a p.label h)) s.0))
      ∙ null p.weight z
    where
      null : (x : Polynomial (Expr L K) K) → is_null x ≡ true → [] ≡ x
      null [] h = refl
      null (m ∷ x) h = cc
  erased_at Ordering.gt a p v h s z = refl

  kept_at :
      (d : Ordering) (v : Polys L K) (a : L) (p : Polynomial (Expr L K) K)
      → polynomial_at o (erase_null v) a ≡ polynomial_at o v a
      → found_or_empty (by_order d Found.absent (Found.present p) (find o.cmp (erase_null v) a))
        ≡ found_or_empty (by_order d Found.absent (Found.present p) (find o.cmp v a))
  kept_at Ordering.lt v a p h = refl
  kept_at Ordering.eq v a p h = refl
  kept_at Ordering.gt v a p h = h

  -- To erase null polynomials changes no value.
  pub at-erase_null :
      (v : Polys L K) (a : L)
      → IsSorted o v
      → polynomial_at o (erase_null v) a ≡ polynomial_at o v a
  unfolding erase_null find
  at-erase_null [] a s = refl
  at-erase_null (p ∷ v) a s = step (Bool-cases (is_null p.weight)) (at-erase_null v a s.1)
    where
      step :
          (is_null p.weight ≡ true) ⊎ (is_null p.weight ≡ false)
          → polynomial_at o (erase_null v) a ≡ polynomial_at o v a
          → polynomial_at o (erase_null (p ∷ v)) a ≡ polynomial_at o (p ∷ v) a
      step (inl z) ih = rw z (ih ∙ erased_at _ a p v refl s z)
      step (inr n) ih = rw n (kept_at (o.cmp a p.label) v a p.weight ih)
