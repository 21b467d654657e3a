-- ===== src/Series/Last.antt =====
-- The operations on series by the last letter of a word, where their definitions go by the first.
use vcsn.Base.{◌≡◌, refl, sym, ◌∙◌, ap, ap₂, fun_ext, List, [], ◌∷◌, ◌++◌}
use vcsn.Weight.{Weightset, IsSemiring, ◌⊕◌, ◌⊗◌, add_interchange, add_interchange3}
use vcsn.Series.{Series, derive, plus, left_scale, product, shuffled, infiltrated, iterate, starred}
use vcsn.Series.Product.{plus-product, left_scale-product, starred_cons}

module _ {A K : Type 0} where
  -- The weights of the words that end with `a`.
  abbrev pub derive_last : A → Series A K → Series A K
  derive_last a f w = f (w ++ (a ∷ []))

module _ {K : Type 0} ⦃ws : Weightset K⦄ (sr : IsSemiring ws) where
  last_step :
      (x s p q y z : K)
      → x ⊗ (s ⊗ ((p ⊕ y) ⊗ s)) ⊕ (q ⊕ z) ⊗ s ≡ (((x ⊗ s) ⊗ y ⊕ (x ⊗ (s ⊗ p) ⊕ q)) ⊕ z) ⊗ s
  last_step x s p q y z =
      ap (λ k. k ⊕ (q ⊕ z) ⊗ s)
        (sym (sr.mul_assoc x s _)
          ∙ sym (sr.mul_assoc (x ⊗ s) (p ⊕ y) s)
          ∙ ap (λ k. k ⊗ s) (sr.mul-add (x ⊗ s) p y ∙ sr.add_comm _ _))
      ∙ sym (sr.add-mul _ _ s)
      ∙ ap (λ k. k ⊗ s)
          (sr.add_assoc _ _ _
            ∙ ap (λ k. (x ⊗ s) ⊗ y ⊕ k)
                (ap (λ k. k ⊕ (q ⊕ z)) (sr.mul_assoc x s p) ∙ sym (sr.add_assoc _ q z))
            ∙ sym (sr.add_assoc _ _ z))

module _ {A K : Type 0} ⦃ws : Weightset K⦄ (sr : IsSemiring ws) where
  pub product_last :
      (f g : Series A K) (a : A) (w : List A)
      → product f g (w ++ (a ∷ [])) ≡ product f (derive_last a g) w ⊕ f (w ++ (a ∷ [])) ⊗ g []
  unfolding product
  product_last f g a [] = refl
  product_last f g a (b ∷ w) =
      ap (λ x. f [] ⊗ g (b ∷ (w ++ (a ∷ []))) ⊕ x) (product_last (derive b f) g a w)
      ∙ sym (sr.add_assoc _ _ _)

  pub shuffled_last :
      (f g : Series A K) (a : A) (w : List A)
      → shuffled f g (w ++ (a ∷ []))
        ≡ shuffled (derive_last a f) g w ⊕ shuffled f (derive_last a g) w
  unfolding shuffled
  shuffled_last f g a [] = refl
  shuffled_last f g a (b ∷ w) =
      ap₂ ws.add (shuffled_last (derive b f) g a w) (shuffled_last f (derive b g) a w)
      ∙ add_interchange sr _ _ _ _

  pub infiltrated_last :
      (f g : Series A K) (a : A) (w : List A)
      → infiltrated f g (w ++ (a ∷ []))
        ≡ infiltrated (derive_last a f) g w
          ⊕ infiltrated f (derive_last a g) w
          ⊕ infiltrated (derive_last a f) (derive_last a g) w
  unfolding infiltrated
  infiltrated_last f g a [] = refl
  infiltrated_last f g a (b ∷ w) =
      rw
        (
          infiltrated_last (derive b f) g a w,
          infiltrated_last f (derive b g) a w,
          infiltrated_last (derive b f) (derive b g) a w,
        )
        (regroup _ _ _ _ _ _ _ _ _)
    where
      regroup :
          (x1 x2 x3 y1 y2 y3 z1 z2 z3 : K)
          → ((x1 ⊕ x2) ⊕ x3) ⊕ ((y1 ⊕ y2) ⊕ y3) ⊕ ((z1 ⊕ z2) ⊕ z3)
            ≡ ((x1 ⊕ y1) ⊕ z1) ⊕ ((x2 ⊕ y2) ⊕ z2) ⊕ ((x3 ⊕ y3) ⊕ z3)
      regroup x1 x2 x3 y1 y2 y3 z1 z2 z3 =
          add_interchange3 sr (x1 ⊕ x2) x3 (y1 ⊕ y2) y3 (z1 ⊕ z2) z3
          ∙ ap (λ x. x ⊕ ((x3 ⊕ y3) ⊕ z3)) (add_interchange3 sr x1 x2 y1 y2 z1 z2)

  module _ (f : Series A K) (s : K) (a : A) where
    derive-starred :
        (b : A) → derive b (starred f s) ≡ left_scale s (product (derive b f) (starred f s))
    derive-starred b = fun_ext λ w. starred_cons sr f s b w

    derived_last :
        (h : Series A K) (b : A) (w : List A)
        → product (derive b (product h (starred f s))) (derive_last a f) w
          ≡ h [] ⊗ (s ⊗ product (product (derive b f) (starred f s)) (derive_last a f) w)
            ⊕ product (product (derive b h) (starred f s)) (derive_last a f) w
    unfolding product
    derived_last h b w =
        ap
          (λ x.
            product (plus (left_scale (h []) x) (product (derive b h) (starred f s)))
              (derive_last a f) w)
          (derive-starred b)
        ∙ ap (λ x. x w) (plus-product sr _ _ _)
        ∙ ap (λ x. x ⊕ product (product (derive b h) (starred f s)) (derive_last a f) w)
            (ap (λ x. x w) (left_scale-product sr _ _ _)
              ∙ ap (λ x. h [] ⊗ x w) (left_scale-product sr _ _ _))

    -- Iterating after `h` ends with a letter of `f`, or of `h`.
    iterate_last :
        (h : Series A K) (w : List A)
        → iterate f s h (w ++ (a ∷ []))
          ≡ (product (product h (starred f s)) (derive_last a f) w ⊕ h (w ++ (a ∷ []))) ⊗ s
    unfolding iterate product starred
    iterate_last h [] =
        sym (
          sr.add-mul _ _ _ ∙ ap (λ x. x ⊕ h (a ∷ []) ⊗ s) (sr.mul_assoc _ _ _ ∙ sr.mul_assoc _ _ _))
    iterate_last h (b ∷ w) =
        ap₂ (λ x y. h [] ⊗ (s ⊗ x) ⊕ y) (iterate_last (derive b f) w) (iterate_last (derive b h) w)
        ∙ last_step sr (h []) s _ _ _ _
        ∙ ap (λ x. (((h [] ⊗ s) ⊗ f (b ∷ (w ++ (a ∷ []))) ⊕ x) ⊕ h (b ∷ (w ++ (a ∷ [])))) ⊗ s)
            (sym (derived_last h b w))

    pub starred_last :
        (w : List A) → starred f s (w ++ (a ∷ [])) ≡ product (starred f s) (derive_last a f) w ⊗ s
    unfolding product starred
    starred_last [] = unfold iterate in sym (sr.mul_assoc _ _ _)
    starred_last (b ∷ w) =
        ap (λ x. s ⊗ x) (iterate_last (derive b f) w)
        ∙ sym (sr.mul_assoc s _ s)
        ∙ ap (λ x. x ⊗ s)
            (sr.mul-add s _ _
              ∙ sr.add_comm _ _
              ∙ ap (λ x. s ⊗ f (b ∷ (w ++ (a ∷ []))) ⊕ x)
                  (sym (
                    ap (λ x. product x (derive_last a f) w) (derive-starred b)
                    ∙ ap (λ x. x w) (left_scale-product sr _ _ _))))
