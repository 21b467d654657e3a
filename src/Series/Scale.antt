-- ===== src/Series/Scale.antt =====
-- Weights pass through the shuffle, the infiltration and the Hadamard product, on the right where they commute.
use vcsn.Base.{◌≡◌, sym, ◌∙◌, ap, ap₂, List, [], ◌∷◌, true, fun_ext}
use vcsn.Weight.{Weightset, IsSemiring, ◌⊗◌}
use vcsn.Series.{Series, derive, shuffled, infiltrated, hadamard, left_scale}

module _ {K : Type 0} ⦃ws : Weightset K⦄ (sr : IsSemiring ws) where
  left_comm : ws.is_commutative ≡ true → (a b c : K) → a ⊗ (b ⊗ c) ≡ b ⊗ (a ⊗ c)
  left_comm comm a b c =
      sym (sr.mul_assoc a b c) ∙ ap (λ x. x ⊗ c) (sr.mul_comm comm a b) ∙ sr.mul_assoc b a c

module _ {A K : Type 0} ⦃ws : Weightset K⦄ (sr : IsSemiring ws) where
  left_scale-shuffled_at :
      (k : K) (f g : Series A K) (w : List A) → shuffled (left_scale k f) g w ≡ k ⊗ shuffled f g w
  unfolding shuffled
  left_scale-shuffled_at k f g [] = sr.mul_assoc k (f []) (g [])
  left_scale-shuffled_at k f g (a ∷ w) =
      ap₂ ws.add (left_scale-shuffled_at k (derive a f) g w)
        (left_scale-shuffled_at k f (derive a g) w)
      ∙ sym (sr.mul-add k _ _)

  pub left_scale-shuffled :
      (k : K) (f g : Series A K) → shuffled (left_scale k f) g ≡ left_scale k (shuffled f g)
  left_scale-shuffled k f g = fun_ext (left_scale-shuffled_at k f g)

  left_scale-infiltrated_at :
      (k : K) (f g : Series A K) (w : List A)
      → infiltrated (left_scale k f) g w ≡ k ⊗ infiltrated f g w
  unfolding infiltrated
  left_scale-infiltrated_at k f g [] = sr.mul_assoc k (f []) (g [])
  left_scale-infiltrated_at k f g (a ∷ w) =
      ap₂ ws.add
        (ap₂ ws.add (left_scale-infiltrated_at k (derive a f) g w)
            (left_scale-infiltrated_at k f (derive a g) w)
          ∙ sym (sr.mul-add k _ _))
        (left_scale-infiltrated_at k (derive a f) (derive a g) w)
      ∙ sym (sr.mul-add k _ _)

  pub left_scale-infiltrated :
      (k : K) (f g : Series A K) → infiltrated (left_scale k f) g ≡ left_scale k (infiltrated f g)
  left_scale-infiltrated k f g = fun_ext (left_scale-infiltrated_at k f g)

  module _ (comm : ws.is_commutative ≡ true) where
    shuffled-left_scale_at :
        (k : K) (f g : Series A K) (w : List A) → shuffled f (left_scale k g) w ≡ k ⊗ shuffled f g w
    unfolding shuffled
    shuffled-left_scale_at k f g [] = left_comm sr comm (f []) k (g [])
    shuffled-left_scale_at k f g (a ∷ w) =
        ap₂ ws.add (shuffled-left_scale_at k (derive a f) g w)
          (shuffled-left_scale_at k f (derive a g) w)
        ∙ sym (sr.mul-add k _ _)

    pub shuffled-left_scale :
        (k : K) (f g : Series A K) → shuffled f (left_scale k g) ≡ left_scale k (shuffled f g)
    shuffled-left_scale k f g = fun_ext (shuffled-left_scale_at k f g)

    pub hadamard-left_scale :
        (k h : K) (f g : Series A K)
        → hadamard (left_scale k f) (left_scale h g) ≡ left_scale (k ⊗ h) (hadamard f g)
    hadamard-left_scale k h f g = fun_ext λ w.
        sr.mul_assoc k (f w) (h ⊗ g w)
        ∙ ap (λ x. k ⊗ x) (left_comm sr comm (f w) h (g w))
        ∙ sym (sr.mul_assoc k h (f w ⊗ g w))

    infiltrated-left_scale_at :
        (k : K) (f g : Series A K) (w : List A)
        → infiltrated f (left_scale k g) w ≡ k ⊗ infiltrated f g w
    unfolding infiltrated
    infiltrated-left_scale_at k f g [] = left_comm sr comm (f []) k (g [])
    infiltrated-left_scale_at k f g (a ∷ w) =
        ap₂ ws.add
          (ap₂ ws.add (infiltrated-left_scale_at k (derive a f) g w)
              (infiltrated-left_scale_at k f (derive a g) w)
            ∙ sym (sr.mul-add k _ _))
          (infiltrated-left_scale_at k (derive a f) (derive a g) w)
        ∙ sym (sr.mul-add k _ _)

    pub infiltrated-left_scale :
        (k : K) (f g : Series A K) → infiltrated f (left_scale k g) ≡ left_scale k (infiltrated f g)
    infiltrated-left_scale k f g = fun_ext (infiltrated-left_scale_at k f g)

    pub infiltrated-left_scales :
        (k h : K) (f g : Series A K)
        → infiltrated (left_scale k f) (left_scale h g) ≡ left_scale (k ⊗ h) (infiltrated f g)
    infiltrated-left_scales k h f g = fun_ext λ w.
        left_scale-infiltrated_at k f (left_scale h g) w
        ∙ ap (λ x. k ⊗ x) (infiltrated-left_scale_at h f g w)
        ∙ sym (sr.mul_assoc k h (infiltrated f g w))
