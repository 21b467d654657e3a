-- ===== src/Poly/Laws.antt =====
-- The series of a polynomial, given the series of its labels, and what the operations do to it.
use vcsn.Base.{
  ◌≡◌, refl, sym, ◌∙◌, ap, [], ◌∷◌, true, Comparison, Ordering, fun_ext, arith, Bool-cases, inl,
  inr,
}
use vcsn.Weight.{Weightset, IsSemiring, ◌⊕◌, ◌⊗◌}
use vcsn.Series.{Series, zeros, plus, left_scale, right_scale, product}
use vcsn.Series.Linear.{
  plus_assoc, plus_comm, zeros-plus, plus-zeros, left_scale-plus, left_scale-zeros,
  left_scale-left_scale, plus-left_scale, left_scale-one, left_scale-zero, right_scale-one,
  right_scale-zero, right_scale-left_scale,
}
use vcsn.Series.Product.{zeros-product, plus-product, left_scale-product}
use vcsn.Poly.{
  Monomial, Polynomial, Found, by_order, find, erase, set, Labels, set_weight, added_weight,
  add_here, add_all, add_images, lweight, rweight, rmul_label, add_pairs, pairwise,
}

module _ {A X K : Type 0} ⦃ws : Weightset K⦄ (den : X → Series A K) where
  -- The sum of the series of the labels, each with its weight.
  unfoldable pub value : Polynomial X K → Series A K
  value [] = zeros
  value (m ∷ v) = plus (left_scale m.weight (den m.label)) (value v)

-- The weight that the map holds, 0 where it holds none.
abbrev weight_found : {K : Type 0} → ⦃ws : Weightset K⦄ → Found K → K
weight_found ⦃ws⦄ Found.absent = ws.zero
weight_found (Found.present w) = w

module _ {A K : Type 0} ⦃ws : Weightset K⦄ (sr : IsSemiring ws) where
  pub absorbed : (z f : Series A K) → z ≡ zeros → plus z f ≡ f
  absorbed z f h = ap (λ x. plus x f) h ∙ zeros-plus sr f

module _ {A X K : Type 0} ⦃ws : Weightset K⦄ (sr : IsSemiring ws) (den : X → Series A K)
    (o : Comparison X) where
  abbrev term : K → X → Series A K
  term k l = left_scale k (den l)

  plus_left_comm : (f g h : Series A K) → plus f (plus g h) ≡ plus g (plus f h)
  plus_left_comm f g h =
      sym (plus_assoc sr f g h) ∙ ap (λ x. plus x h) (plus_comm sr f g) ∙ plus_assoc sr g f h

  term_zero : (l : X) → term ws.zero l ≡ zeros
  term_zero l = left_scale-zero sr (den l)

  erase_by :
      (c : Ordering) (m : Monomial X K) (v : Polynomial X K) (l : X)
      → (c ≡ Ordering.eq → l ≡ m.label)
      → plus (term (weight_found (find o.cmp v l)) l) (value den (erase o.cmp v l)) ≡ value den v
      → plus
          (term
            (weight_found (by_order c Found.absent (Found.present m.weight) (find o.cmp v l)))
            l)
          (value den (by_order c (m ∷ v) v (m ∷ erase o.cmp v l)))
        ≡ value den (m ∷ v)
  unfolding value
  erase_by Ordering.lt m v l same p = absorbed sr _ _ (term_zero l)
  erase_by Ordering.eq m v l same p = ap (λ x. plus (term m.weight x) (value den v)) (same refl)
  erase_by Ordering.gt m v l same p =
      plus_left_comm _ (term m.weight m.label) _ ∙ ap (plus (term m.weight m.label)) p

  value-erase :
      (v : Polynomial X K) (l : X)
      → plus (term (weight_found (find o.cmp v l)) l) (value den (erase o.cmp v l)) ≡ value den v
  unfolding value find erase
  value-erase [] l = ap (λ x. plus x zeros) (term_zero l) ∙ zeros-plus sr zeros
  value-erase (m ∷ v) l = erase_by (o.cmp l m.label) m v l (o.eq_of_cmp l m.label) (value-erase v l)

  set_by :
      (c : Ordering) (m : Monomial X K) (v : Polynomial X K) (l : X) (w : K)
      → value den (set o.cmp v l w) ≡ plus (term w l) (value den (erase o.cmp v l))
      → value den (
          by_order c
            (record { label = l; weight = w } ∷ m ∷ v)
            (record { label = l; weight = w } ∷ v)
            (m ∷ set o.cmp v l w))
        ≡ plus (term w l) (value den (by_order c (m ∷ v) v (m ∷ erase o.cmp v l)))
  unfolding value
  set_by Ordering.lt m v l w p = refl
  set_by Ordering.eq m v l w p = refl
  set_by Ordering.gt m v l w p = ap (plus (term m.weight m.label)) p ∙ plus_left_comm _ _ _

  value-set :
      (v : Polynomial X K) (l : X) (w : K)
      → value den (set o.cmp v l w) ≡ plus (term w l) (value den (erase o.cmp v l))
  unfolding value set erase
  value-set [] l w = refl
  value-set (m ∷ v) l w = set_by (o.cmp l m.label) m v l w (value-set v l w)

module _ {A X K : Type 0} ⦃ws : Weightset K⦄ (sr : IsSemiring ws) (den : X → Series A K)
    (ps : Labels X) (zero_label : (l : X) → ps.label_is_zero l ≡ true → den l ≡ zeros) where
  value-set_weight :
      (v : Polynomial X K) (l : X) (w : K)
      → value den (set_weight ps v l w)
        ≡ plus (left_scale w (den l)) (value den (erase ps.order.cmp v l))
  unfolding set_weight
  value-set_weight v l w = elim (Bool-cases (ws.is_zero w)) [
    | inl h ↦ rw h (
        sym (
          absorbed sr (left_scale w (den l)) (value den (erase ps.order.cmp v l))
            (ap (λ x. left_scale x (den l)) (sr.eq_of_is_zero w h) ∙ left_scale-zero sr (den l))))
    | inr h ↦ rw h (value-set sr den ps.order v l w)
  ]

  added : (r : Found K) (k : K) → added_weight ps r k ≡ k ⊕ weight_found r
  added Found.absent k = sym (sr.add-zero k)
  added (Found.present w) k = sr.add_comm w k

  -- Over any semiring of weights, where null labels denote the null series, `add_here(v, l, k)`
  -- denotes the sum of `v` and of the monomial `<k>l`, whether `l` is new, known, or cancelled.
  pub value-add_here :
      (v : Polynomial X K) (l : X) (k : K)
      → value den (add_here ps v l k) ≡ plus (left_scale k (den l)) (value den v)
  unfolding add_here
  value-add_here v l k = elim (Bool-cases (ps.label_is_zero l)) [
    | inl h ↦ rw h (
        sym (
          absorbed sr (left_scale k (den l)) (value den v)
            (ap (left_scale k) (zero_label l h) ∙ left_scale-zeros sr k)))
    | inr h ↦ rw h (
        value-set_weight v l _
        ∙ ap (λ x. plus (left_scale x (den l)) (value den (erase ps.order.cmp v l)))
            (added (find ps.order.cmp v l) k)
        ∙ ap (λ x. plus x (value den (erase ps.order.cmp v l)))
            (sym (plus-left_scale sr k _ (den l)))
        ∙ plus_assoc sr _ _ _
        ∙ ap (plus (left_scale k (den l))) (value-erase sr den ps.order v l))
  ]

  -- Over any semiring of weights, where null labels denote the null series, `add(l, r)` denotes
  -- the sum of the series of `l` and `r`.
  pub value-add_all :
      (l r : Polynomial X K) → value den (add_all ps l r) ≡ plus (value den l) (value den r)
  unfolding add_all value
  value-add_all l [] = sym (plus-zeros sr _)
  value-add_all l (m ∷ r) =
      value-add_all (add_here ps l m.label m.weight) r
      ∙ ap (λ x. plus x (value den r)) (value-add_here l m.label m.weight ∙ plus_comm sr _ _)
      ∙ plus_assoc sr _ _ _

  -- A loop that adds the image of each monomial adds the image `op` of the polynomial, where `op` is
  -- additive and its value at a monomial is that of the image.
  pub value-add_images :
      (f : X → X) (g : K → K) (op : Series A K → Series A K)
      → op zeros ≡ zeros
      → ((s t : Series A K) → op (plus s t) ≡ plus (op s) (op t))
      → ((k : K) (l : X) → left_scale (g k) (den (f l)) ≡ op (left_scale k (den l)))
      → (res v : Polynomial X K)
      → value den (add_images ps f g res v) ≡ plus (value den res) (op (value den v))
  unfolding add_images value
  value-add_images f g op op_zeros op_plus at res [] =
      sym (ap (plus (value den res)) op_zeros ∙ plus-zeros sr _)
  value-add_images f g op op_zeros op_plus at res (m ∷ v) =
      value-add_images f g op op_zeros op_plus at (add_here ps res (f m.label) (g m.weight)) v
      ∙ ap (λ x. plus x (op (value den v)))
          (value-add_here res (f m.label) (g m.weight)
            ∙ plus_comm sr _ _
            ∙ ap (plus (value den res)) (at m.weight m.label))
      ∙ plus_assoc sr _ _ _
      ∙ ap (plus (value den res)) (sym (op_plus _ _))

  from_empty :
      (f : X → X) (g : K → K) (op : Series A K → Series A K)
      → op zeros ≡ zeros
      → ((s t : Series A K) → op (plus s t) ≡ plus (op s) (op t))
      → ((k : K) (l : X) → left_scale (g k) (den (f l)) ≡ op (left_scale k (den l)))
      → (v : Polynomial X K) → value den (add_images ps f g [] v) ≡ op (value den v)
  unfolding value
  from_empty f g op op_zeros op_plus at v =
      value-add_images f g op op_zeros op_plus at [] v ∙ zeros-plus sr (op (value den v))

  -- Over any semiring of weights, where null labels denote the null series, `lweight(w, v)`
  -- denotes the series of `v` multiplied by `w` on the left, also where `w` is 0 or 1.
  pub value-lweight :
      (w : K) (v : Polynomial X K) → value den (lweight ps w v) ≡ left_scale w (value den v)
  unfolding lweight value
  value-lweight w v = ground (
    arith,
    sr.eq_of_is_one w,
    sr.eq_of_is_zero w,
    left_scale-one sr (value den v),
    left_scale-zero sr (value den v),
    from_empty (λ l. l) (λ k. w ⊗ k) (left_scale w) (left_scale-zeros sr w) (left_scale-plus sr w)
        (λ k l. sym (left_scale-left_scale sr w k (den l))) v,
  )

  -- Over any semiring of weights, where null labels denote the null series and the `rweight` of
  -- the labelset multiplies theirs on the right, `rweight(v, w)` denotes the series of `v`
  -- multiplied by `w` on the right.
  pub value-rweight :
      (label_rweight : X → K → X)
      → ((l : X) (k : K) → den (label_rweight l k) ≡ right_scale (den l) k)
      → (v : Polynomial X K) (w : K)
      → value den (rweight ps label_rweight v w) ≡ right_scale (value den v) w
  unfolding rweight value
  value-rweight label_rweight sound v w = ground (
    arith,
    sr.eq_of_is_one w,
    sr.eq_of_is_zero w,
    right_scale-one sr (value den v),
    right_scale-zero sr (value den v),
    from_empty (λ l. label_rweight l w) (λ k. k) (λ f. right_scale f w) (fun_ext λ u. sr.zero-mul w)
        (λ f g. fun_ext λ u. sr.add-mul (f u) (g u) w)
        (λ k l. ap (left_scale k) (sound l w) ∙ sym (right_scale-left_scale sr k (den l) w)) v,
  )

  -- Over any semiring of weights, where null labels denote the null series and the product of
  -- labels that of their series, `rmul_label(v, rhs)` denotes the product of the series of `v` and
  -- `rhs`.
  pub value-rmul_label :
      (label_mul : X → X → X)
      → ((l r : X) → den (label_mul l r) ≡ product (den l) (den r))
      → (v : Polynomial X K) (rhs : X)
      → value den (rmul_label ps label_mul v rhs) ≡ product (value den v) (den rhs)
  unfolding rmul_label
  value-rmul_label label_mul sound v rhs =
      from_empty (λ l. label_mul l rhs) (λ k. k) (λ f. product f (den rhs))
        (zeros-product sr (den rhs)) (λ f g. plus-product sr f g (den rhs))
        (λ k l. ap (left_scale k) (sound l rhs) ∙ sym (left_scale-product sr k (den l) (den rhs))) v

  module _ (label_op : X → X → X) (op : Series A K → Series A K → Series A K)
      (zeros-op : (g : Series A K) → op zeros g ≡ zeros)
      (op-zeros : (f : Series A K) → op f zeros ≡ zeros)
      (plus-op : (f g h : Series A K) → op (plus f g) h ≡ plus (op f h) (op g h))
      (op-plus : (f g h : Series A K) → op f (plus g h) ≡ plus (op f g) (op f h))
      (sound : (k h : K) (l r : X)
        → left_scale (k ⊗ h) (den (label_op l r))
          ≡ op (left_scale k (den l)) (left_scale h (den r))) where
    value-add_pairs :
        (res l r : Polynomial X K)
        → value den (add_pairs ps label_op res l r)
          ≡ plus (value den res) (op (value den l) (value den r))
    unfolding add_pairs value
    value-add_pairs res [] r =
        sym (ap (plus (value den res)) (zeros-op (value den r)) ∙ plus-zeros sr _)
    value-add_pairs res (m ∷ v) r =
        value-add_pairs (add_images ps (label_op m.label) (λ k. m.weight ⊗ k) res r) v r
        ∙ ap (λ x. plus x (op (value den v) (value den r)))
            (value-add_images (label_op m.label) (λ k. m.weight ⊗ k)
              (op (left_scale m.weight (den m.label))) (op-zeros _) (op-plus _)
              (λ k l. sound m.weight k m.label l) res r)
        ∙ plus_assoc sr _ _ _
        ∙ ap (plus (value den res)) (sym (plus-op _ _ _))

    -- The double loop over the monomials of two polynomials applies a bilinear operation to them.
    pub value-pairwise :
        (l r : Polynomial X K)
        → value den (pairwise ps label_op l r) ≡ op (value den l) (value den r)
    unfolding pairwise value
    value-pairwise l r = value-add_pairs [] l r ∙ zeros-plus sr _
