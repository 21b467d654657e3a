-- ===== src/Series/Linear.antt =====
-- Sums and scalings of series.
use vcsn.Base.{◌≡◌, fun_ext, sym, true}
use vcsn.Weight.{Weightset, IsSemiring, ◌⊕◌, ◌⊗◌, add_interchange}
use vcsn.Series.{Series, zeros, plus, left_scale, right_scale}

module _ {A K : Type 0} ⦃ws : Weightset K⦄ (sr : IsSemiring ws) where
  pub plus_assoc : (f g h : Series A K) → plus (plus f g) h ≡ plus f (plus g h)
  plus_assoc f g h = fun_ext λ w. sr.add_assoc (f w) (g w) (h w)

  pub plus_comm : (f g : Series A K) → plus f g ≡ plus g f
  plus_comm f g = fun_ext λ w. sr.add_comm (f w) (g w)

  pub zeros-plus : (f : Series A K) → plus zeros f ≡ f
  zeros-plus f = fun_ext λ w. sr.zero-add (f w)

  pub plus-zeros : (f : Series A K) → plus f zeros ≡ f
  plus-zeros f = fun_ext λ w. sr.add-zero (f w)

  pub plus_interchange :
      (f g h k : Series A K) → plus (plus f g) (plus h k) ≡ plus (plus f h) (plus g k)
  plus_interchange f g h k = fun_ext λ w. add_interchange sr (f w) (g w) (h w) (k w)

  pub left_scale-one : (f : Series A K) → left_scale ws.one f ≡ f
  left_scale-one f = fun_ext λ w. sr.one-mul (f w)

  pub left_scale-zero : (f : Series A K) → left_scale ws.zero f ≡ zeros
  left_scale-zero f = fun_ext λ w. sr.zero-mul (f w)

  pub left_scale-zeros : (k : K) → left_scale {A = A} k zeros ≡ zeros
  left_scale-zeros k = fun_ext λ w. sr.mul-zero k

  pub left_scale-left_scale :
      (k h : K) (f : Series A K) → left_scale k (left_scale h f) ≡ left_scale (k ⊗ h) f
  left_scale-left_scale k h f = fun_ext λ w. sym (sr.mul_assoc k h (f w))

  pub left_scale-plus :
      (k : K) (f g : Series A K) → left_scale k (plus f g) ≡ plus (left_scale k f) (left_scale k g)
  left_scale-plus k f g = fun_ext λ w. sr.mul-add k (f w) (g w)

  pub plus-left_scale :
      (k h : K) (f : Series A K) → plus (left_scale k f) (left_scale h f) ≡ left_scale (k ⊕ h) f
  plus-left_scale k h f = fun_ext λ w. sym (sr.add-mul k h (f w))

  pub right_scale-one : (f : Series A K) → right_scale f ws.one ≡ f
  right_scale-one f = fun_ext λ w. sr.mul-one (f w)

  pub right_scale-zero : (f : Series A K) → right_scale f ws.zero ≡ zeros
  right_scale-zero f = fun_ext λ w. sr.mul-zero (f w)

  pub right_scale-right_scale :
      (f : Series A K) (k h : K) → right_scale (right_scale f k) h ≡ right_scale f (k ⊗ h)
  right_scale-right_scale f k h = fun_ext λ w. sr.mul_assoc (f w) k h

  pub right_scale-left_scale :
      (k : K) (f : Series A K) (h : K)
      → right_scale (left_scale k f) h ≡ left_scale k (right_scale f h)
  right_scale-left_scale k f h = fun_ext λ w. sr.mul_assoc k (f w) h

  pub right_scale_comm :
      ws.is_commutative ≡ true → (f : Series A K) (k : K) → right_scale f k ≡ left_scale k f
  right_scale_comm comm f k = fun_ext λ w. sr.mul_comm comm (f w) k
