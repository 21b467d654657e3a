-- ===== src/Series/Hadamard.antt =====
-- The pointwise product of series, the complement, and series with one word.
use vcsn.Base.{◌≡◌, refl, fun_ext, ◌∙◌, sym, Bool-cases, inl, inr, List, [], ◌∷◌, ap, ap₂, Eq, ◌≢◌}
use vcsn.Weight.{Weightset, IsSemiring, ◌⊗◌}
use vcsn.Series.{Series, zeros, ones, unit, left_scale, right_scale, hadamard, complemented, single}

module _ {A K : Type 0} ⦃ws : Weightset K⦄ (sr : IsSemiring ws) where
  pub hadamard_assoc : (f g h : Series A K) → hadamard (hadamard f g) h ≡ hadamard f (hadamard g h)
  hadamard_assoc f g h = fun_ext λ w. sr.mul_assoc (f w) (g w) (h w)

  pub zeros-hadamard : (f : Series A K) → hadamard zeros f ≡ zeros
  zeros-hadamard f = fun_ext λ w. sr.zero-mul (f w)

  pub hadamard-zeros : (f : Series A K) → hadamard f zeros ≡ zeros
  hadamard-zeros f = fun_ext λ w. sr.mul-zero (f w)

  pub ones-hadamard : (f : Series A K) → hadamard ones f ≡ f
  ones-hadamard f = fun_ext λ w. sr.one-mul (f w)

  pub hadamard-ones : (f : Series A K) → hadamard f ones ≡ f
  hadamard-ones f = fun_ext λ w. sr.mul-one (f w)

  pub complemented-zeros : complemented {A = A} {K = K} zeros ≡ ones
  complemented-zeros = fun_ext λ w. rw sr.is_zero-zero

  -- A series whose weights are 0 and 1 commutes with every weight.
  pub unit_commute : (k : K) → right_scale {A = A} unit k ≡ left_scale k unit
  unit_commute k = fun_ext at
    where
      at : (w : List A) → unit w ⊗ k ≡ k ⊗ unit w
      at [] = unfold unit in sr.one-mul k ∙ sym (sr.mul-one k)
      at (a ∷ w) = unfold unit in sr.zero-mul k ∙ sym (sr.mul-zero k)

  pub zeros_commute : (k : K) → right_scale {A = A} zeros k ≡ left_scale k zeros
  zeros_commute k = fun_ext λ w. sr.zero-mul k ∙ sym (sr.mul-zero k)

  -- <k>1 & <h>1 is <kh>1.
  pub hadamard-unit :
      (k h : K) → hadamard {A = A} (left_scale k unit) (left_scale h unit) ≡ left_scale (k ⊗ h) unit
  hadamard-unit k h = fun_ext at
    where
      at : (w : List A) → (k ⊗ unit w) ⊗ (h ⊗ unit w) ≡ (k ⊗ h) ⊗ unit w
      at [] = unfold unit in simp (sr.mul-one)
      at (a ∷ w) = unfold unit in simp sr.mul-zero

module _ {A K : Type 0} ⦃e : Eq A⦄ ⦃ws : Weightset K⦄ (sr : IsSemiring ws) where
  pub single_nil : (w : List A) → single {K = K} [] w ≡ unit w
  single_nil [] = unfold single unit in refl
  single_nil (a ∷ w) = unfold single unit in refl

  single_commute_at : (u : List A) (k : K) (w : List A) → single u w ⊗ k ≡ k ⊗ single u w
  unfolding single
  single_commute_at [] k [] = sr.one-mul k ∙ sym (sr.mul-one k)
  single_commute_at [] k (b ∷ w) = sr.zero-mul k ∙ sym (sr.mul-zero k)
  single_commute_at (a ∷ u) k [] = sr.zero-mul k ∙ sym (sr.mul-zero k)
  single_commute_at (a ∷ u) k (b ∷ w) = elim (Bool-cases (e.beq a b)) [
    | inl h ↦ rw h (single_commute_at u k w)
    | inr h ↦ rw h (sr.zero-mul k ∙ sym (sr.mul-zero k))
  ]

  pub single_commute : (u : List A) (k : K) → right_scale (single u) k ≡ left_scale k (single u)
  single_commute u k = fun_ext (single_commute_at u k)

  hadamard-single_at :
      (k h : K) (u w : List A) → (k ⊗ single u w) ⊗ (h ⊗ single u w) ≡ (k ⊗ single u w) ⊗ h
  unfolding single
  hadamard-single_at k h [] [] = rw (sr.mul-one, sr.mul-one)
  hadamard-single_at k h [] (b ∷ w) = simp (sr.mul-zero, sr.zero-mul)
  hadamard-single_at k h (a ∷ u) [] = simp (sr.mul-zero, sr.zero-mul)
  hadamard-single_at k h (a ∷ u) (b ∷ w) = elim (Bool-cases (e.beq a b)) [
    | inl p ↦ rw p (hadamard-single_at k h u w)
    | inr p ↦ rw p (simp (sr.mul-zero, sr.zero-mul))
  ]

  -- <k>u & <h>u is (<k>u)<h>.
  pub hadamard-single :
      (k h : K) (u : List A)
      → hadamard (left_scale k (single u)) (left_scale h (single u))
        ≡ right_scale (left_scale k (single u)) h
  hadamard-single k h u = fun_ext (hadamard-single_at k h u)

  hadamard-single_ne_at :
      (k h : K) (u v : List A)
      → u ≢ v
      → (w : List A) → (k ⊗ single u w) ⊗ (h ⊗ single v w) ≡ ws.zero
  unfolding single
  hadamard-single_ne_at k h [] [] n w = absurd (n refl)
  hadamard-single_ne_at k h [] (b ∷ v) n [] = simp (sr.mul-zero, sr.zero-mul)
  hadamard-single_ne_at k h [] (b ∷ v) n (c ∷ w) = simp (sr.mul-zero, sr.zero-mul)
  hadamard-single_ne_at k h (a ∷ u) [] n [] = simp (sr.mul-zero, sr.zero-mul)
  hadamard-single_ne_at k h (a ∷ u) [] n (c ∷ w) = simp (sr.mul-zero, sr.zero-mul)
  hadamard-single_ne_at k h (a ∷ u) (b ∷ v) n [] = simp (sr.mul-zero, sr.zero-mul)
  hadamard-single_ne_at k h (a ∷ u) (b ∷ v) n (c ∷ w) = elim (Bool-cases (e.beq a c)) [
    | inr p ↦ rw p (simp (sr.mul-zero, sr.zero-mul))
    | inl p ↦ elim (Bool-cases (e.beq b c)) [
      | inr q ↦ rw q (simp (sr.mul-zero, sr.zero-mul))
      | inl q ↦
          rw (p, q)
            (hadamard-single_ne_at k h u v
              (λ same. n (ap₂ ◌∷◌ ((e.beq_iff a c).0 p ∙ sym ((e.beq_iff b c).0 q)) same)) w)
    ]
  ]

  -- <k>u & <h>v is 0 where the words differ.
  pub hadamard-single_ne :
      (k h : K) (u v : List A)
      → u ≢ v
      → hadamard (left_scale k (single u)) (left_scale h (single v)) ≡ zeros
  hadamard-single_ne k h u v n = fun_ext (hadamard-single_ne_at k h u v n)

  unit-single_ne_at :
      (u : List A) → u ≢ [] → (w : List A) → (x y : K) → (x ⊗ unit w) ⊗ (y ⊗ single u w) ≡ ws.zero
  unit-single_ne_at u n w x y =
      ap (λ z. (x ⊗ z) ⊗ (y ⊗ single u w)) (sym (single_nil w))
      ∙ hadamard-single_ne_at x y [] u (λ p. n (sym p)) w

  single-unit_ne_at :
      (u : List A) → u ≢ [] → (w : List A) → (x y : K) → (x ⊗ single u w) ⊗ (y ⊗ unit w) ≡ ws.zero
  single-unit_ne_at u n w x y =
      ap (λ z. (x ⊗ single u w) ⊗ (y ⊗ z)) (sym (single_nil w)) ∙ hadamard-single_ne_at x y u [] n w

  -- <k>1 & <h>u and <h>u & <k>1 are 0 where the word is not empty.
  pub hadamard-unit-single :
      (k h : K) (u : List A)
      → u ≢ []
      → hadamard (left_scale k unit) (left_scale h (single u)) ≡ zeros
  hadamard-unit-single k h u n = fun_ext λ w. unit-single_ne_at u n w k h

  pub hadamard-single-unit :
      (k h : K) (u : List A)
      → u ≢ []
      → hadamard (left_scale k (single u)) (left_scale h unit) ≡ zeros
  hadamard-single-unit k h u n = fun_ext λ w. single-unit_ne_at u n w k h
