-- ===== src/Rat/Expansion/Scale.antt =====
-- The products of expansions by a weight on the right and by an expression on the right, and the
-- loops that add the images of all the monomials.
use vcsn.Base.{
  ◌≡◌, refl, sym, ◌∙◌, ap, [], ◌∷◌, false, Eq, Result, Ordering, fun_ext, Bool-cases, inl, inr,
}
use vcsn.Weight.{Weightset, IsSemiring, ◌⊗◌}
use vcsn.Label.{IsLabelset}
use vcsn.Series.{Series, derive, zeros, plus, product, left_scale, right_scale}
use vcsn.Series.Linear.{zeros-plus, right_scale-zero, right_scale-left_scale}
use vcsn.Series.Product.{zeros-product}
use vcsn.Poly.{Monomial, Polynomial, by_order, find, set, add_images}
use vcsn.Poly.{add_here as add_monomial}
use vcsn.Poly.Laws.{value, value-add_images, value-rmul_label}
use vcsn.Rat.{Expr}
use vcsn.Rat.Denote.{Meaning, denote}
use vcsn.Rat.Make.{ExpressionSet}
use vcsn.Rat.Make.{rweight as right_weighted}
use vcsn.Rat.Make.Weights.{denote-rweight}
use vcsn.Rat.Make.Mul.{mul}
use vcsn.Rat.Make.Mul.Laws.{denote-mul}
use vcsn.Rat.Derivation.{expression_labels}
use vcsn.Rat.Derivation.Steps.{zero_label}
use vcsn.Rat.Expansion.{
  Polys, Expansion, polynomial_at, add_images_at, rweight, rmul_label_here, for_each,
}
use vcsn.Rat.Expansion.Maps.{IsTransitive, IsSorted, set-IsSorted}
use vcsn.Rat.Expansion.Loops.{IsUpdate, for_each-IsSorted, at-set}
use vcsn.Rat.Expansion.Laws.{Denotes, den_at, den_at-map_values, den_at-for_each}

module _ {A K : Type 0} ⦃ws : Weightset K⦄ (rs : ExpressionSet A K)
    (trans : IsTransitive rs.keys.labels) (f : Expr A K → Expr A K) where
  abbrev images : Polynomial (Expr A K) K → Polynomial (Expr A K) K → Polynomial (Expr A K) K
  images x p = add_images (expression_labels rs) f (λ k. k) x p

  abbrev first_image : Polynomial (Expr A K) K → Monomial (Expr A K) K → Polynomial (Expr A K) K
  first_image x q = add_monomial (expression_labels rs) x (f q.label) q.weight

  round_by :
      (c : Ordering) (res : Polys A K) (l a : A) (q : Monomial (Expr A K) K)
      (p : Polynomial (Expr A K) K)
      → rs.keys.labels.cmp a l ≡ c
      → by_order c
          (polynomial_at rs.keys.labels
            (set rs.keys.labels.cmp res l (first_image (polynomial_at rs.keys.labels res l) q))
            a)
          (images
            (polynomial_at rs.keys.labels
              (set rs.keys.labels.cmp res l (first_image (polynomial_at rs.keys.labels res l) q))
              l)
            p)
          (polynomial_at rs.keys.labels
            (set rs.keys.labels.cmp res l (first_image (polynomial_at rs.keys.labels res l) q))
            a)
        ≡ by_order c
            (polynomial_at rs.keys.labels res a)
            (images (first_image (polynomial_at rs.keys.labels res l) q) p)
            (polynomial_at rs.keys.labels res a)
  round_by Ordering.lt res l a q p h = at-set rs.keys.labels trans res l _ a ∙ rw h
  round_by Ordering.eq res l a q p h =
      ap (λ x. images x p)
        (at-set rs.keys.labels trans res l _ l
          ∙ rw (ap (λ x. rs.keys.labels.cmp x l) (sym (rs.keys.labels.eq_of_cmp a l h)) ∙ h))
  round_by Ordering.gt res l a q p h = at-set rs.keys.labels trans res l _ a ∙ rw h

  unchanged :
      (c : Ordering) (res : Polys A K) (l a : A)
      → rs.keys.labels.cmp a l ≡ c
      → polynomial_at rs.keys.labels res a
        ≡ by_order c
            (polynomial_at rs.keys.labels res a)
            (polynomial_at rs.keys.labels res l)
            (polynomial_at rs.keys.labels res a)
  unchanged Ordering.lt res l a h = refl
  unchanged Ordering.eq res l a h =
      ap (polynomial_at rs.keys.labels res) (rs.keys.labels.eq_of_cmp a l h)
  unchanged Ordering.gt res l a h = refl

  -- The loop over the monomials of one polynomial changes one key.
  pub add_images_at-IsUpdate : IsUpdate rs.keys.labels (add_images_at rs f) images
  unfolding add_images_at add_images
  add_images_at-IsUpdate res l [] a = unchanged _ res l a refl
  add_images_at-IsUpdate res l (q ∷ p) a =
      add_images_at-IsUpdate
        (set rs.keys.labels.cmp res l (first_image (polynomial_at rs.keys.labels res l) q)) l p a
      ∙ round_by _ res l a q p refl

  pub add_images_at-IsSorted :
      (res : Polys A K) (l : A) (p : Polynomial (Expr A K) K)
      → IsSorted rs.keys.labels res
      → IsSorted rs.keys.labels (add_images_at rs f res l p)
  unfolding add_images_at
  add_images_at-IsSorted res l [] s = s
  add_images_at-IsSorted res l (q ∷ p) s =
      add_images_at-IsSorted
        (set rs.keys.labels.cmp res l (first_image (polynomial_at rs.keys.labels res l) q)) l p
        (set-IsSorted rs.keys.labels trans res l _ s)

  pub spread-IsSorted :
      (res v : Polys A K)
      → IsSorted rs.keys.labels res
      → IsSorted rs.keys.labels (for_each (add_images_at rs f) res v)
  spread-IsSorted res v s =
      for_each-IsSorted rs.keys.labels trans (add_images_at rs f) images add_images_at-IsSorted res
        v s

module _ {A K : Type 0} ⦃e : Eq A⦄ ⦃ws : Weightset K⦄ (m : Meaning A A K) (sr : IsSemiring ws)
    (rs : ExpressionSet A K) (trans : IsTransitive rs.keys.labels) (ldivide : K → K → Result K)
    (free : (l : A) → rs.labels.is_one l ≡ false) (letter : (l : A) → m.letters l ≡ l ∷ [])
    (sound : IsLabelset rs.labels m.letters) where
  -- The loops that add the image of each monomial apply a linear operation at each letter.
  pub den_at-spread :
      (f : Expr A K → Expr A K) (op : Series A K → Series A K)
      → op zeros ≡ zeros
      → ((s t : Series A K) → op (plus s t) ≡ plus (op s) (op t))
      → ((k : K) (x : Expr A K) → left_scale k (denote m (f x)) ≡ op (left_scale k (denote m x)))
      → (res v : Polys A K) (a : A) → IsSorted rs.keys.labels v
      → den_at m sr rs trans ldivide free letter sound (for_each (add_images_at rs f) res v) a
        ≡ plus
            (den_at m sr rs trans ldivide free letter sound res a)
            (op (den_at m sr rs trans ldivide free letter sound v a))
  den_at-spread f op op_zeros op_plus each res v a s =
      den_at-for_each m sr rs trans ldivide free letter sound (add_images_at rs f)
        (images rs trans f) op op_zeros (add_images_at-IsUpdate rs trans f)
        (value-add_images sr (denote m) (expression_labels rs)
          (zero_label m sr rs ldivide free letter sound) f (λ k. k) op op_zeros op_plus each)
        res v a s

  pub rweight-Denotes :
      (x : Expansion A K) (w : K) (f : Series A K)
      → Denotes m rs.keys.labels x f
      → Denotes m rs.keys.labels (rweight rs x w) (right_scale f w)
  unfolding rweight value find
  rweight-Denotes x w f d = record {
    sorted = elim (Bool-cases (ws.is_zero w)) [
      | inl z ↦ rw z tt
      | inr n ↦ rw n (spread-IsSorted rs trans _ [] x.polynomials tt)
    ];
    constant = ap (λ k. k ⊗ w) d.constant;
    at = λ a. elim (Bool-cases (ws.is_zero w)) [
      | inl z ↦ rw z (
          empty a
          ∙ sym (
              ap (right_scale (derive a f)) (sr.eq_of_is_zero w z)
              ∙ right_scale-zero sr (derive a f)))
      | inr n ↦ rw n (
          den_at-spread (λ y. right_weighted rs y w) (λ g. right_scale g w)
            (fun_ext λ u. sr.zero-mul w) (λ g h. fun_ext λ u. sr.add-mul (g u) (h u) w)
            (λ k y.
              ap (left_scale k) (denote-rweight m sr rs y w)
              ∙ sym (right_scale-left_scale sr k (denote m y) w))
            [] x.polynomials a d.sorted
          ∙ zeros-plus sr _
          ∙ ap (λ g. right_scale g w) (d.at a))
    ];
  }
    where
      empty : (a : A) → den_at m sr rs trans ldivide free letter sound [] a ≡ zeros
      empty a = refl

  -- `rmul_label_here` multiplies the derivative by each letter.
  pub den_at-rmul_label_here :
      (x : Expansion A K) (y : Expr A K) (a : A)
      → den_at m sr rs trans ldivide free letter sound (rmul_label_here rs x y).polynomials a
        ≡ product (den_at m sr rs trans ldivide free letter sound x.polynomials a) (denote m y)
  unfolding rmul_label_here
  den_at-rmul_label_here x y a =
      den_at-map_values m sr rs trans ldivide free letter sound _ (λ g. product g (denote m y))
        (zeros-product sr (denote m y))
        (λ p.
          value-rmul_label sr (denote m) (expression_labels rs)
            (zero_label m sr rs ldivide free letter sound) (mul rs) (denote-mul m sr rs) p y)
        x.polynomials a
