-- ===== src/Series/Interleave.antt =====
-- The shuffle and the infiltration of series.
use vcsn.Base.{◌≡◌, fun_ext, List, [], ◌∷◌}
use vcsn.Weight.{Weightset, IsSemiring, ◌⊕◌, add_interchange, add_interchange3, add_regroup}
use vcsn.Series.{Series, derive, zeros, unit, plus, shuffled, infiltrated}

module _ {A K : Type 0} ⦃ws : Weightset K⦄ (sr : IsSemiring ws) where
  zeros-shuffled_at : (g : Series A K) (w : List A) → shuffled zeros g w ≡ ws.zero
  unfolding shuffled
  zeros-shuffled_at g [] = sr.zero-mul _
  zeros-shuffled_at g (a ∷ w) =
      rw (zeros-shuffled_at g w, zeros-shuffled_at (derive a g) w) (sr.zero-add _)

  shuffled-zeros_at : (f : Series A K) (w : List A) → shuffled f zeros w ≡ ws.zero
  unfolding shuffled
  shuffled-zeros_at f [] = sr.mul-zero _
  shuffled-zeros_at f (a ∷ w) =
      rw (shuffled-zeros_at f w, shuffled-zeros_at (derive a f) w) (sr.zero-add _)

  unit-shuffled_at : (g : Series A K) (w : List A) → shuffled unit g w ≡ g w
  unfolding shuffled unit
  unit-shuffled_at g [] = sr.one-mul _
  unit-shuffled_at g (a ∷ w) =
      rw (zeros-shuffled_at g w, unit-shuffled_at (derive a g) w) (sr.zero-add _)

  shuffled-unit_at : (f : Series A K) (w : List A) → shuffled f unit w ≡ f w
  unfolding shuffled unit
  shuffled-unit_at f [] = sr.mul-one _
  shuffled-unit_at f (a ∷ w) =
      rw (shuffled-zeros_at f w, shuffled-unit_at (derive a f) w) (sr.add-zero _)

  plus-shuffled_at :
      (f g h : Series A K) (w : List A) → shuffled (plus f g) h w ≡ shuffled f h w ⊕ shuffled g h w
  unfolding shuffled
  plus-shuffled_at f g h [] = sr.add-mul _ _ _
  plus-shuffled_at f g h (a ∷ w) =
      rw (plus-shuffled_at (derive a f) (derive a g) h w, plus-shuffled_at f g (derive a h) w)
        (add_interchange sr _ _ _ _)

  shuffled-plus_at :
      (f g h : Series A K) (w : List A) → shuffled f (plus g h) w ≡ shuffled f g w ⊕ shuffled f h w
  unfolding shuffled
  shuffled-plus_at f g h [] = sr.mul-add _ _ _
  shuffled-plus_at f g h (a ∷ w) =
      rw (shuffled-plus_at (derive a f) g h w, shuffled-plus_at f (derive a g) (derive a h) w)
        (add_interchange sr _ _ _ _)

  shuffled_assoc_at :
      (f g h : Series A K) (w : List A) → shuffled (shuffled f g) h w ≡ shuffled f (shuffled g h) w
  unfolding shuffled
  shuffled_assoc_at f g h [] = sr.mul_assoc _ _ _
  shuffled_assoc_at f g h (a ∷ w) =
      rw
        (
          plus-shuffled_at (shuffled (derive a f) g) (shuffled f (derive a g)) h w,
          shuffled-plus_at f (shuffled (derive a g) h) (shuffled g (derive a h)) w,
          shuffled_assoc_at (derive a f) g h w,
          shuffled_assoc_at f (derive a g) h w,
          shuffled_assoc_at f g (derive a h) w,
        )
        (sr.add_assoc _ _ _)

  pub zeros-shuffled : (g : Series A K) → shuffled zeros g ≡ zeros
  zeros-shuffled g = fun_ext (zeros-shuffled_at g)

  pub shuffled-zeros : (f : Series A K) → shuffled f zeros ≡ zeros
  shuffled-zeros f = fun_ext (shuffled-zeros_at f)

  pub unit-shuffled : (g : Series A K) → shuffled unit g ≡ g
  unit-shuffled g = fun_ext (unit-shuffled_at g)

  pub shuffled-unit : (f : Series A K) → shuffled f unit ≡ f
  shuffled-unit f = fun_ext (shuffled-unit_at f)

  pub shuffled_assoc : (f g h : Series A K) → shuffled (shuffled f g) h ≡ shuffled f (shuffled g h)
  shuffled_assoc f g h = fun_ext (shuffled_assoc_at f g h)

  pub plus-shuffled :
      (f g h : Series A K) → shuffled (plus f g) h ≡ plus (shuffled f h) (shuffled g h)
  plus-shuffled f g h = fun_ext (plus-shuffled_at f g h)

  pub shuffled-plus :
      (f g h : Series A K) → shuffled f (plus g h) ≡ plus (shuffled f g) (shuffled f h)
  shuffled-plus f g h = fun_ext (shuffled-plus_at f g h)

  zeros-infiltrated_at : (g : Series A K) (w : List A) → infiltrated zeros g w ≡ ws.zero
  unfolding infiltrated
  zeros-infiltrated_at g [] = sr.zero-mul _
  zeros-infiltrated_at g (a ∷ w) =
      rw (zeros-infiltrated_at g w, zeros-infiltrated_at (derive a g) w) (simp (sr.zero-add))

  infiltrated-zeros_at : (f : Series A K) (w : List A) → infiltrated f zeros w ≡ ws.zero
  unfolding infiltrated
  infiltrated-zeros_at f [] = sr.mul-zero _
  infiltrated-zeros_at f (a ∷ w) =
      rw (infiltrated-zeros_at f w, infiltrated-zeros_at (derive a f) w) (simp (sr.zero-add))

  unit-infiltrated_at : (g : Series A K) (w : List A) → infiltrated unit g w ≡ g w
  unfolding infiltrated unit
  unit-infiltrated_at g [] = sr.one-mul _
  unit-infiltrated_at g (a ∷ w) =
      rw
        (
          zeros-infiltrated_at g w,
          zeros-infiltrated_at (derive a g) w,
          unit-infiltrated_at (derive a g) w,
        )
        (simp (sr.zero-add, sr.add-zero))

  infiltrated-unit_at : (f : Series A K) (w : List A) → infiltrated f unit w ≡ f w
  unfolding infiltrated unit
  infiltrated-unit_at f [] = sr.mul-one _
  infiltrated-unit_at f (a ∷ w) =
      rw
        (
          infiltrated-zeros_at f w,
          infiltrated-zeros_at (derive a f) w,
          infiltrated-unit_at (derive a f) w,
        )
        (simp (sr.add-zero))

  pub zeros-infiltrated : (g : Series A K) → infiltrated zeros g ≡ zeros
  zeros-infiltrated g = fun_ext (zeros-infiltrated_at g)

  pub infiltrated-zeros : (f : Series A K) → infiltrated f zeros ≡ zeros
  infiltrated-zeros f = fun_ext (infiltrated-zeros_at f)

  pub unit-infiltrated : (g : Series A K) → infiltrated unit g ≡ g
  unit-infiltrated g = fun_ext (unit-infiltrated_at g)

  pub infiltrated-unit : (f : Series A K) → infiltrated f unit ≡ f
  infiltrated-unit f = fun_ext (infiltrated-unit_at f)

  plus-infiltrated_at :
      (f g h : Series A K) (w : List A)
      → infiltrated (plus f g) h w ≡ infiltrated f h w ⊕ infiltrated g h w
  unfolding infiltrated
  plus-infiltrated_at f g h [] = sr.add-mul _ _ _
  plus-infiltrated_at f g h (a ∷ w) =
      rw
        (
          plus-infiltrated_at (derive a f) (derive a g) h w,
          plus-infiltrated_at f g (derive a h) w,
          plus-infiltrated_at (derive a f) (derive a g) (derive a h) w,
        )
        (add_interchange3 sr _ _ _ _ _ _)

  infiltrated-plus_at :
      (f g h : Series A K) (w : List A)
      → infiltrated f (plus g h) w ≡ infiltrated f g w ⊕ infiltrated f h w
  unfolding infiltrated
  infiltrated-plus_at f g h [] = sr.mul-add _ _ _
  infiltrated-plus_at f g h (a ∷ w) =
      rw
        (
          infiltrated-plus_at (derive a f) g h w,
          infiltrated-plus_at f (derive a g) (derive a h) w,
          infiltrated-plus_at (derive a f) (derive a g) (derive a h) w,
        )
        (add_interchange3 sr _ _ _ _ _ _)

  infiltrated_assoc_at :
      (f g h : Series A K) (w : List A)
      → infiltrated (infiltrated f g) h w ≡ infiltrated f (infiltrated g h) w
  unfolding infiltrated
  infiltrated_assoc_at f g h [] = sr.mul_assoc _ _ _
  infiltrated_assoc_at f g h (a ∷ w) =
      let f' = derive a f in
      let g' = derive a g in
      let h' = derive a h in
      let left = plus (infiltrated f' g) (infiltrated f g') in
      let right = plus (infiltrated g' h) (infiltrated g h') in
      rw
        (
          plus-infiltrated_at left (infiltrated f' g') h w,
          plus-infiltrated_at (infiltrated f' g) (infiltrated f g') h w,
          plus-infiltrated_at left (infiltrated f' g') h' w,
          plus-infiltrated_at (infiltrated f' g) (infiltrated f g') h' w,
          infiltrated-plus_at f right (infiltrated g' h') w,
          infiltrated-plus_at f (infiltrated g' h) (infiltrated g h') w,
          infiltrated-plus_at f' right (infiltrated g' h') w,
          infiltrated-plus_at f' (infiltrated g' h) (infiltrated g h') w,
          infiltrated_assoc_at f' g h w,
          infiltrated_assoc_at f g' h w,
          infiltrated_assoc_at f' g' h w,
          infiltrated_assoc_at f g h' w,
          infiltrated_assoc_at f' g h' w,
          infiltrated_assoc_at f g' h' w,
          infiltrated_assoc_at f' g' h' w,
        )
        (add_regroup sr _ _ _ _ _ _ _)

  pub infiltrated_assoc :
      (f g h : Series A K) → infiltrated (infiltrated f g) h ≡ infiltrated f (infiltrated g h)
  infiltrated_assoc f g h = fun_ext (infiltrated_assoc_at f g h)

  pub plus-infiltrated :
      (f g h : Series A K) → infiltrated (plus f g) h ≡ plus (infiltrated f h) (infiltrated g h)
  plus-infiltrated f g h = fun_ext (plus-infiltrated_at f g h)

  pub infiltrated-plus :
      (f g h : Series A K) → infiltrated f (plus g h) ≡ plus (infiltrated f g) (infiltrated f h)
  infiltrated-plus f g h = fun_ext (infiltrated-plus_at f g h)
