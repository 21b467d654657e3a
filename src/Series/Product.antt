-- ===== src/Series/Product.antt =====
-- The product of series, and the star.
use vcsn.Base.{◌≡◌, refl, fun_ext, sym, List, [], ◌∷◌, ap, ◌≡⟨◌⟩◌, ◌∎}
use vcsn.Weight.{Weightset, IsSemiring, ◌⊕◌, ◌⊗◌, add_interchange, star_step}
use vcsn.Series.{
  Series, derive, zeros, unit, plus, left_scale, right_scale, product, iterate, starred,
}

module _ {A K : Type 0} ⦃ws : Weightset K⦄ (sr : IsSemiring ws) where
  zeros-product_at : (g : Series A K) (w : List A) → product zeros g w ≡ ws.zero
  unfolding product
  zeros-product_at g [] = sr.zero-mul (g [])
  zeros-product_at g (a ∷ w) = rw (zeros-product_at g w, sr.zero-mul) (sr.add-zero _)

  product-zeros_at : (f : Series A K) (w : List A) → product f zeros w ≡ ws.zero
  unfolding product
  product-zeros_at f [] = sr.mul-zero (f [])
  product-zeros_at f (a ∷ w) = rw (product-zeros_at (derive a f) w, sr.mul-zero) (sr.add-zero _)

  unit-product_at : (g : Series A K) (w : List A) → product unit g w ≡ g w
  unfolding product unit
  unit-product_at g [] = sr.one-mul (g [])
  unit-product_at g (a ∷ w) = rw (zeros-product_at g w, sr.one-mul) (sr.add-zero _)

  product-unit_at : (f : Series A K) (w : List A) → product f unit w ≡ f w
  unfolding product unit
  product-unit_at f [] = sr.mul-one (f [])
  product-unit_at f (a ∷ w) = rw (product-unit_at (derive a f) w, sr.mul-zero) (sr.zero-add _)

  plus-product_at :
      (f g h : Series A K) (w : List A) → product (plus f g) h w ≡ product f h w ⊕ product g h w
  unfolding product
  plus-product_at f g h [] = sr.add-mul _ _ _
  plus-product_at f g h (a ∷ w) =
      rw (plus-product_at (derive a f) (derive a g) h w, sr.add-mul) (add_interchange sr _ _ _ _)

  product-plus_at :
      (f g h : Series A K) (w : List A) → product f (plus g h) w ≡ product f g w ⊕ product f h w
  unfolding product
  product-plus_at f g h [] = sr.mul-add _ _ _
  product-plus_at f g h (a ∷ w) =
      rw (product-plus_at (derive a f) g h w, sr.mul-add) (add_interchange sr _ _ _ _)

  left_scale-product_at :
      (k : K) (f g : Series A K) (w : List A) → product (left_scale k f) g w ≡ k ⊗ product f g w
  unfolding product
  left_scale-product_at k f g [] = sr.mul_assoc _ _ _
  left_scale-product_at k f g (a ∷ w) =
      rw (left_scale-product_at k (derive a f) g w, sr.mul-add, sr.mul_assoc)

  product-right_scale_at :
      (f g : Series A K) (k : K) (w : List A) → product f (right_scale g k) w ≡ product f g w ⊗ k
  unfolding product
  product-right_scale_at f g k [] = sym (sr.mul_assoc _ _ _)
  product-right_scale_at f g k (a ∷ w) =
      rw (product-right_scale_at (derive a f) g k w, sr.add-mul, sr.mul_assoc)

  right_scale-product_at :
      (f : Series A K) (k : K) (g : Series A K) (w : List A)
      → product (right_scale f k) g w ≡ product f (left_scale k g) w
  unfolding product
  right_scale-product_at f k g [] = sr.mul_assoc _ _ _
  right_scale-product_at f k g (a ∷ w) =
      rw (right_scale-product_at (derive a f) k g w, sr.mul_assoc)

  product_assoc_at :
      (f g h : Series A K) (w : List A) → product (product f g) h w ≡ product f (product g h) w
  unfolding product
  product_assoc_at f g h [] = sr.mul_assoc _ _ _
  product_assoc_at f g h (a ∷ w) =
      (f [] ⊗ g []) ⊗ h (a ∷ w)
        ⊕ product (plus (left_scale (f []) (derive a g)) (product (derive a f) g)) h w
      ≡⟨ (rw (plus-product_at, left_scale-product_at, product_assoc_at (derive a f) g h w)) ⟩
        (f [] ⊗ g []) ⊗ h (a ∷ w)
        ⊕ (f [] ⊗ product (derive a g) h w ⊕ product (derive a f) (product g h) w)
      ≡⟨ (simp (sr.mul-add, sr.mul_assoc, sr.add_assoc)) ⟩
        f [] ⊗ (g [] ⊗ h (a ∷ w) ⊕ product (derive a g) h w)
        ⊕ product (derive a f) (product g h) w ∎

  pub zeros-product : (g : Series A K) → product zeros g ≡ zeros
  zeros-product g = fun_ext (zeros-product_at g)

  pub product-zeros : (f : Series A K) → product f zeros ≡ zeros
  product-zeros f = fun_ext (product-zeros_at f)

  pub unit-product : (g : Series A K) → product unit g ≡ g
  unit-product g = fun_ext (unit-product_at g)

  pub product-unit : (f : Series A K) → product f unit ≡ f
  product-unit f = fun_ext (product-unit_at f)

  pub product_assoc : (f g h : Series A K) → product (product f g) h ≡ product f (product g h)
  product_assoc f g h = fun_ext (product_assoc_at f g h)

  pub plus-product : (f g h : Series A K) → product (plus f g) h ≡ plus (product f h) (product g h)
  plus-product f g h = fun_ext (plus-product_at f g h)

  pub product-plus : (f g h : Series A K) → product f (plus g h) ≡ plus (product f g) (product f h)
  product-plus f g h = fun_ext (product-plus_at f g h)

  pub left_scale-product :
      (k : K) (f g : Series A K) → product (left_scale k f) g ≡ left_scale k (product f g)
  left_scale-product k f g = fun_ext (left_scale-product_at k f g)

  pub product-right_scale :
      (f g : Series A K) (k : K) → product f (right_scale g k) ≡ right_scale (product f g) k
  product-right_scale f g k = fun_ext (product-right_scale_at f g k)

  pub right_scale-product :
      (f : Series A K) (k : K) (g : Series A K)
      → product (right_scale f k) g ≡ product f (left_scale k g)
  right_scale-product f k g = fun_ext (right_scale-product_at f k g)

  -- Iterating after `h` is the product by the star.
  iterate-product_at :
      (f : Series A K) (s : K) (h : Series A K) (w : List A)
      → iterate f s h w ≡ product h (starred f s) w
  unfolding iterate product starred
  iterate-product_at f s h [] = refl
  iterate-product_at f s h (a ∷ w) = rw (iterate-product_at f s (derive a h) w)

  pub starred_cons :
      (f : Series A K) (s : K) (a : A) (w : List A)
      → starred f s (a ∷ w) ≡ s ⊗ product (derive a f) (starred f s) w
  starred_cons f s a w = unfold starred in ap (λ x. s ⊗ x) (iterate-product_at f s (derive a f) w)

  -- The star is the solution of X = 1 + f X, if `s` is one for the empty word.
  pub starred_unfold :
      (f : Series A K) (s : K)
      → s ≡ ws.one ⊕ f [] ⊗ s
      → starred f s ≡ plus unit (product f (starred f s))
  starred_unfold f s h = fun_ext at
    where
      at : (w : List A) → starred f s w ≡ plus unit (product f (starred f s)) w
      at [] = unfold starred product unit in h
      at (a ∷ w) =
          unfold product unit in
          rw (starred_cons f s a w) (star_step sr s (f []) (product (derive a f) (starred f s) w) h)
