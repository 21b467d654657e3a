-- ===== src/Algos/Evaluate/Sums.antt =====
-- Sums of weights over ranges of states and over handles.
use vcsn.Base.{
  ℕ, zero, suc, ◌+◌, ◌≤◌, ◌<◌, ◌==◌, ◌≡◌, List, [], ◌∷◌, false, if◌then◌else◌, arith, refl,
  Bool-cases, inl, inr, sym, ap, ap₂, ◌∙◌, ==_iff,
}
use vcsn.Weight.{Weightset, IsSemiring, ◌⊕◌, ◌⊗◌, add_interchange}

other : {K : Type 0} → (d s : ℕ) (x y : K) → (d == s) ≡ false → (if d == s then x else y) ≡ y
other d s x y e = rw e refl

after : (i d s : ℕ) → s + 1 ≤ i → s ≡ d → (i == d) ≡ false
after i d s le same = ground arith

module _ {K : Type 0} ⦃ws : Weightset K⦄ where
  -- f s + ... + f (s + n - 1)
  abbrev pub sum_from : (ℕ → K) → ℕ → ℕ → K
  sum_from f s zero = ws.zero
  sum_from f s (suc n) = f s ⊕ sum_from f (s + 1) n

  abbrev pub sum_of : (ℕ → K) → List ℕ → K
  sum_of f [] = ws.zero
  sum_of f (t ∷ ts) = f t ⊕ sum_of f ts

  module _ (sr : IsSemiring ws) where
    pub sum_from-zero :
        (f : ℕ → K) (s n : ℕ) → ((i : ℕ) → s ≤ i → f i ≡ ws.zero) → sum_from f s n ≡ ws.zero
    sum_from-zero f s zero h = refl
    sum_from-zero f s (suc n) h =
        rw (h s (omega arith)) (sr.zero-add _)
        ∙ sum_from-zero f (s + 1) n (λ i lt. h i (omega arith))

    add_to_head : (p x q r : K) → (p ⊕ x) ⊗ q ⊕ r ≡ (p ⊗ q ⊕ r) ⊕ x ⊗ q
    add_to_head p x q r =
        ap (λ z. z ⊕ r) (sr.add-mul p x q)
        ∙ sr.add_assoc (p ⊗ q) (x ⊗ q) r
        ∙ ap (λ z. p ⊗ q ⊕ z) (sr.add_comm (x ⊗ q) r)
        ∙ sym (sr.add_assoc (p ⊗ q) r (x ⊗ q))

    -- Adding `x` to the weight of `d`, below the range and in it.
    sum_from-write_below :
        (f g : ℕ → K) (d : ℕ) (y : K) (s n : ℕ)
        → d < s
        → sum_from (λ i. (if d == i then y else f i) ⊗ g i) s n ≡ sum_from (λ i. f i ⊗ g i) s n
    sum_from-write_below f g d y s zero lt = refl
    sum_from-write_below f g d y s (suc n) lt =
        ap₂ (λ p r. p ⊕ r) (ap (λ z. z ⊗ g s) (other d s y (f s) (ground arith)))
          (sum_from-write_below f g d y (s + 1) n (omega arith))

    pub sum_from-write :
        (f g : ℕ → K) (d : ℕ) (x : K) (s n : ℕ)
        → s ≤ d
        → d < s + n
        → sum_from (λ i. (if d == i then f d ⊕ x else f i) ⊗ g i) s n
          ≡ sum_from (λ i. f i ⊗ g i) s n ⊕ x ⊗ g d
    sum_from-write f g d x s zero le lt = ground arith
    sum_from-write f g d x s (suc n) le lt = elim (Bool-cases (d == s)) [
      | inl e ↦
          let same = (==_iff d s).0 e in
          ap₂ (λ p r. p ⊗ g s ⊕ r) (rw e (ap (λ z. f z ⊕ x) same))
            (sum_from-write_below f g d (f d ⊕ x) (s + 1) n (omega (arith, same)))
          ∙ add_to_head (f s) x (g s) (sum_from (λ i. f i ⊗ g i) (s + 1) n)
          ∙ ap (λ z. (f s ⊗ g s ⊕ sum_from (λ i. f i ⊗ g i) (s + 1) n) ⊕ x ⊗ g z) (sym same)
      | inr e ↦
          ap₂ (λ p r. p ⊗ g s ⊕ r) (other d s (f d ⊕ x) (f s) e)
            (sum_from-write f g d x (s + 1) n (ground arith) (omega arith))
          ∙ sym (sr.add_assoc _ _ _)
    ]

    pub sum_of-add :
        (f g : ℕ → K) (ts : List ℕ) → sum_of (λ t. f t ⊕ g t) ts ≡ sum_of f ts ⊕ sum_of g ts
    sum_of-add f g [] = sym (sr.zero-add ws.zero)
    sum_of-add f g (t ∷ ts) =
        ap (λ r. (f t ⊕ g t) ⊕ r) (sum_of-add f g ts) ∙ add_interchange sr (f t) (g t) _ _

    pub sum_of-mul : (x : K) (f : ℕ → K) (ts : List ℕ) → sum_of (λ t. x ⊗ f t) ts ≡ x ⊗ sum_of f ts
    sum_of-mul x f [] = sym (sr.mul-zero x)
    sum_of-mul x f (t ∷ ts) =
        ap (λ r. x ⊗ f t ⊕ r) (sum_of-mul x f ts) ∙ sym (sr.mul-add x (f t) (sum_of f ts))

    pub sum_from-cong :
        (f g : ℕ → K) (s n : ℕ) → ((i : ℕ) → f i ≡ g i) → sum_from f s n ≡ sum_from g s n
    sum_from-cong f g s zero h = refl
    sum_from-cong f g s (suc n) h = ap₂ (λ p r. p ⊕ r) (h s) (sum_from-cong f g (s + 1) n h)

    -- The weight of one state.
    pub sum_from-pick :
        (f : ℕ → K) (d s n : ℕ)
        → s ≤ d
        → d < s + n
        → sum_from (λ i. f i ⊗ (if i == d then ws.one else ws.zero)) s n ≡ f d
    sum_from-pick f d s zero le lt = ground arith
    sum_from-pick f d s (suc n) le lt = elim (Bool-cases (s == d)) [
      | inl e ↦
          let same = (==_iff s d).0 e in
          ap₂ (λ p r. p ⊕ r) (rw e (sr.mul-one (f s)))
            (sum_from-zero _ (s + 1) n
              (λ i h. rw (other i d ws.one ws.zero (after i d s h same)) (sr.mul-zero (f i))))
          ∙ sr.add-zero (f s)
          ∙ ap f same
      | inr e ↦
          ap₂ (λ p r. p ⊕ r) (rw e (sr.mul-zero (f s)))
            (sum_from-pick f d (s + 1) n (ground arith) (omega arith))
          ∙ sr.zero-add (f d)
    ]
