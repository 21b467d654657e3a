-- ===== src/Rat/Derivation/Steps.antt =====
-- The steps of the derivation, one for each kind of node, on the series of the polynomials.
use vcsn.Base.{
  ◌≡◌, refl, sym, ◌∙◌, ap, ap₂, [], ◌∷◌, true, false, Eq, ok, if◌then◌else◌, Result, fun_ext,
  Bool-cases, inl, inr,
}
use vcsn.Weight.{Weightset, IsSemiring, ◌⊗◌}
use vcsn.Label.{IsLabelset}
use vcsn.Series.{Series, derive, zeros, unit, plus, product, hadamard, shuffled, left_scale, single}
use vcsn.Series.Linear.{
  plus_assoc, plus_comm, plus-zeros, left_scale-one, left_scale-zero, left_scale-plus,
  left_scale-left_scale,
}
use vcsn.Series.Product.{starred_cons}
use vcsn.Series.Hadamard.{zeros-hadamard, hadamard-zeros}
use vcsn.Series.Interleave.{
  zeros-shuffled, shuffled-zeros, plus-shuffled, shuffled-plus, shuffled_assoc,
}
use vcsn.Series.Scale.{left_scale-shuffled, shuffled-left_scale, hadamard-left_scale}
use vcsn.Poly.{Polynomial, add_images, lweight, rmul_label, pairwise}
use vcsn.Poly.Laws.{
  value, value-add_all, value-add_images, value-lweight, value-rmul_label, value-pairwise,
}
use vcsn.Rat.{VariadicType, UnaryType, Expr, Exprs, ◌+++◌}
use vcsn.Rat.Denote.{Meaning, denote, denotes, star_or}
use vcsn.Rat.Denote.Variadic.{denotes-cons, denotes-append}
use vcsn.Rat.Constant.{constant_term}
use vcsn.Rat.Constant.Laws.{constant_term-denote, ok_eq}
use vcsn.Rat.Make.{ExpressionSet}
use vcsn.Rat.Make.Weights.{denote-is_zero}
use vcsn.Rat.Make.Mul.{mul}
use vcsn.Rat.Make.Mul.Laws.{denote-mul}
use vcsn.Rat.Make.Product.{conjunction}
use vcsn.Rat.Make.Product.Laws.{IsProperAtom, denote-conjunction}
use vcsn.Rat.Derivation.Derivable.{proper, cons_injective, single_letter}
use vcsn.Rat.Derivation.{expression_labels, prod, add_factor, derivation_mul}

module _ {A K : Type 0} ⦃e : Eq A⦄ ⦃ws : Weightset K⦄ (m : Meaning A A K) (sr : IsSemiring ws)
    (rs : ExpressionSet A K) (ldivide : K → K → Result K)
    (free : (l : A) → rs.labels.is_one l ≡ false) (letter : (l : A) → m.letters l ≡ l ∷ [])
    (sound : IsLabelset rs.labels m.letters) where
  abbrev pub den : Polynomial (Expr A K) K → Series A K
  den v = value (denote m) v

  pub proper_atom : (x : Expr A K) → IsProperAtom rs x
  proper_atom (Expr.atom a) = free a
  proper_atom Expr.zero = tt
  proper_atom Expr.one = tt
  proper_atom (Expr.name x s) = tt
  proper_atom (Expr.variadic t xs) = tt
  proper_atom (Expr.unary t x) = tt
  proper_atom (Expr.weight_node t k x) = tt

  pub zero_label :
      (x : Expr A K) → (expression_labels rs).label_is_zero x ≡ true → denote m x ≡ zeros
  zero_label x h = denote-is_zero m x h

  pub denote-prod : (xs : Exprs A K) → denote m (prod xs) ≡ denotes m VariadicType.mul xs
  unfolding denote denotes
  denote-prod Exprs.nil = refl
  denote-prod (Exprs.cons x Exprs.nil) = refl
  denote-prod (Exprs.cons x (Exprs.cons y ys)) = refl

  den-rmul_label :
      (v : Polynomial (Expr A K) K) (x : Expr A K)
      → den (rmul_label (expression_labels rs) (mul rs) v x) ≡ product (den v) (denote m x)
  den-rmul_label v x =
      value-rmul_label sr (denote m) (expression_labels rs) zero_label (mul rs) (denote-mul m sr rs)
        v x

  den-add_factor :
      (res : Polynomial (Expr A K) K) (c : K) (v : Polynomial (Expr A K) K) (xs : Exprs A K)
      → den (add_factor rs res c v xs)
        ≡ plus (den res) (left_scale c (product (den v) (denotes m VariadicType.mul xs)))
  den-add_factor res c v xs =
      value-add_all sr (denote m) (expression_labels rs) zero_label res _
      ∙ ap (plus (den res)) (
          value-lweight sr (denote m) (expression_labels rs) zero_label c _
          ∙ ap (left_scale c) (den-rmul_label v (prod xs) ∙ ap (product (den v)) (denote-prod xs)))

  pub den-pairwise :
      ws.is_commutative ≡ true
      → (l r : Polynomial (Expr A K) K)
      → den (pairwise (expression_labels rs) (conjunction rs) l r) ≡ hadamard (den l) (den r)
  den-pairwise comm l r =
      value-pairwise sr (denote m) (expression_labels rs) zero_label (conjunction rs) hadamard
        (zeros-hadamard sr) (hadamard-zeros sr) (λ f g h. fun_ext λ w. sr.add-mul (f w) (g w) (h w))
        (λ f g h. fun_ext λ w. sr.mul-add (f w) (g w) (h w))
        (λ k h x y.
          ap (left_scale (k ⊗ h))
            (denote-conjunction m sr rs sound x y (proper_atom _) (proper_atom _))
          ∙ sym (hadamard-left_scale sr comm k h (denote m x) (denote m y)))
        l r

  -- A shuffle in which one operand is replaced.
  abbrev replaced : Exprs A K → Exprs A K → Series A K → Series A K
  replaced before after f =
      shuffled (denotes m VariadicType.shuffle before)
        (shuffled f (denotes m VariadicType.shuffle after))

  denote-replaced :
      (l : Expr A K) (before after : Exprs A K)
      → denote m (Expr.variadic VariadicType.shuffle (before +++ Exprs.cons l after))
        ≡ replaced before after (denote m l)
  unfolding denote
  denote-replaced l before after =
      denotes-append m sr VariadicType.shuffle refl before (Exprs.cons l after)
      ∙ ap (shuffled (denotes m VariadicType.shuffle before))
          (denotes-cons m sr VariadicType.shuffle refl l after)

  den-replaced :
      ws.is_commutative ≡ true
      → (res : Polynomial (Expr A K) K) (before after : Exprs A K) → (v : Polynomial (Expr A K) K)
      → den (
          add_images
            (expression_labels rs)
            (λ l. Expr.variadic VariadicType.shuffle (before +++ Exprs.cons l after))
            (λ k. k)
            res
            v)
        ≡ plus (den res) (replaced before after (den v))
  den-replaced comm res before after v =
      value-add_images sr (denote m) (expression_labels rs) zero_label
        (λ l. Expr.variadic VariadicType.shuffle (before +++ Exprs.cons l after)) (λ k. k)
        (replaced before after) (ap (shuffled B) (zeros-shuffled sr S) ∙ shuffled-zeros sr B)
        (λ f g. ap (shuffled B) (plus-shuffled sr f g S) ∙ shuffled-plus sr B _ _)
        (λ k l.
          ap (left_scale k) (denote-replaced l before after)
          ∙ sym (
              ap (shuffled B) (left_scale-shuffled sr k (denote m l) S)
              ∙ shuffled-left_scale sr comm k B (shuffled (denote m l) S)))
        res v
    where
      B : Series A K
      B = denotes m VariadicType.shuffle before

      S : Series A K
      S = denotes m VariadicType.shuffle after

  equal_letters : (l a : A) → rs.labels.equal l a ≡ true → l ≡ a
  equal_letters l a h = cons_injective l a (sym (letter l) ∙ sound.equal_words l a h ∙ letter a)

  module _ (a : A) where
    derive-single :
        (l : A) → derive a (single (m.letters l)) ≡ (λ w. if e.beq l a then unit w else ws.zero)
    derive-single l = fun_ext λ w. ap (λ u. single u (a ∷ w)) (letter l) ∙ single_letter sr l a w

    derive_equal :
        (l : A)
        → rs.labels.equal l a ≡ true
        → left_scale ws.one (unit {A = A}) ≡ derive a (single (m.letters l))
    derive_equal l h =
        left_scale-one sr unit
        ∙ sym (
            derive-single l
            ∙ ap (λ b w. if b then unit w else ws.zero) ((e.beq_iff l a).1 (equal_letters l a h)))

    derive_unequal :
        (l : A)
        → rs.labels.equal l a ≡ false
        → zeros {A = A} {K = K} ≡ derive a (single (m.letters l))
    derive_unequal l h = elim (Bool-cases (e.beq l a)) [
      | inl eq ↦ absurd (sound.unequal_words l a h (ap m.letters ((e.beq_iff l a).0 eq)))
      | inr ne ↦ sym (derive-single l ∙ ap (λ b w. if b then unit w else ws.zero) ne)
    ]

    pub derivation-atom :
        (l : A) (v : Polynomial (Expr A K) K)
        → ok (if rs.labels.equal l a then record { label = Expr.one; weight = ws.one } ∷ [] else [])
          ≡ ok v
        → den v ≡ derive a (single (m.letters l))
    unfolding value denote
    derivation-atom l v h = elim (Bool-cases (rs.labels.equal l a)) [
      | inl eq ↦ ap den (sym (ok_eq _ _ h)) ∙ rw eq (plus-zeros sr _ ∙ derive_equal l eq)
      | inr ne ↦ ap den (sym (ok_eq _ _ h)) ∙ rw ne (derive_unequal l ne)
    ]

    -- The constant term of the expression, as the weight of the empty word.
    pub constant : (x : Expr A K) (c : K) → constant_term x ≡ ok c → denote m x [] ≡ c
    constant x c h = constant_term-denote m sr rs.labels sound x c (proper rs.labels free x) h

    pub derivation-star :
        (x : Expr A K) (v : Polynomial (Expr A K) K) (c s : K)
        → den v ≡ derive a (denote m x)
        → denote m x [] ≡ c
        → ws.star c ≡ ok s
        → den (
            lweight
              (expression_labels rs)
              s
              (rmul_label (expression_labels rs) (mul rs) v (Expr.unary UnaryType.star x)))
          ≡ derive a (denote m (Expr.unary UnaryType.star x))
    unfolding denote
    derivation-star x v c s hv hc hs =
        value-lweight sr (denote m) (expression_labels rs) zero_label s _
        ∙ ap (left_scale s) (den-rmul_label v (Expr.unary UnaryType.star x))
        ∙ ap (λ f. left_scale s (product f (denote m (Expr.unary UnaryType.star x)))) hv
        ∙ ap
            (λ k.
              left_scale k
                (product (derive a (denote m x)) (denote m (Expr.unary UnaryType.star x))))
            (sym (ap (star_or ws) (ap ws.star hc ∙ hs)))
        ∙ sym (fun_ext λ w. starred_cons sr (denote m x) _ a w)

    pub shuffle_step :
        (x : Expr A K) (xs before : Exprs A K) (res p : Polynomial (Expr A K) K)
        → ws.is_commutative ≡ true
        → den p ≡ derive a (denote m x)
        → plus
            (den (
              add_images
                (expression_labels rs)
                (λ l. Expr.variadic VariadicType.shuffle (before +++ Exprs.cons l xs))
                (λ k. k)
                res
                p))
            (shuffled
              (denotes m VariadicType.shuffle (before +++ Exprs.cons x Exprs.nil))
              (derive a (denotes m VariadicType.shuffle xs)))
          ≡ plus (den res) (
              shuffled
                (denotes m VariadicType.shuffle before)
                (derive a (denotes m VariadicType.shuffle (Exprs.cons x xs))))
    unfolding shuffled denotes denote
    shuffle_step x xs before res p comm hp =
        ap₂ plus
          (den-replaced comm res before xs p ∙ ap (λ f. plus (den res) (replaced before xs f)) hp)
          (ap (λ f. shuffled f (derive a X))
              (denotes-append m sr VariadicType.shuffle refl before (Exprs.cons x Exprs.nil))
            ∙ shuffled_assoc sr B (denote m x) (derive a X))
        ∙ plus_assoc sr _ _ _
        ∙ ap (plus (den res)) (sym (shuffled-plus sr B _ _))
        ∙ ap (λ f. plus (den res) (shuffled B (derive a f)))
            (sym (denotes-cons m sr VariadicType.shuffle refl x xs))
      where
        B : Series A K
        B = denotes m VariadicType.shuffle before

        X : Series A K
        X = denotes m VariadicType.shuffle xs

    -- One round of the loop over the factors, where `next` is what the rest of the loop does.
    pub mul_step :
        (x : Expr A K) (xs : Exprs A K) (res : Polynomial (Expr A K) K) (c : K)
        (p v : Polynomial (Expr A K) K) (k : K)
        → den p ≡ derive a (denote m x)
        → denote m x [] ≡ k
        → (if ws.is_zero (c ⊗ k)
            then ok (add_factor rs res c p xs)
            else derivation_mul rs ldivide a (add_factor rs res c p xs) (c ⊗ k) xs)
          ≡ ok v
        → (derivation_mul rs ldivide a (add_factor rs res c p xs) (c ⊗ k) xs ≡ ok v
            → den v
              ≡ plus
                  (den (add_factor rs res c p xs))
                  (left_scale (c ⊗ k) (derive a (denotes m VariadicType.mul xs))))
        → den v
          ≡ plus (den res) (left_scale c (derive a (denotes m VariadicType.mul (Exprs.cons x xs))))
    unfolding product
    mul_step x xs res c p v k hp hk h next =
        done
        ∙ ap (λ f. plus f (left_scale (c ⊗ k) (derive a X)))
            (den-add_factor res c p xs ∙ ap (λ f. plus (den res) (left_scale c (product f X))) hp)
        ∙ plus_assoc sr _ _ _
        ∙ ap (plus (den res)) factor
      where
        X : Series A K
        X = denotes m VariadicType.mul xs

        done : den v ≡ plus (den (add_factor rs res c p xs)) (left_scale (c ⊗ k) (derive a X))
        done = elim (Bool-cases (ws.is_zero (c ⊗ k))) [
          | inl z ↦
              ap den (
                sym (
                  ok_eq _ _ (
                    ap
                      (λ b.
                        if b
                        then ok (add_factor rs res c p xs)
                        else derivation_mul rs ldivide a (add_factor rs res c p xs) (c ⊗ k) xs)
                      (sym z)
                    ∙ h)))
              ∙ sym (
                  ap (plus (den (add_factor rs res c p xs))) (
                    ap (λ y. left_scale y (derive a X)) (sr.eq_of_is_zero _ z)
                    ∙ left_scale-zero sr (derive a X))
                  ∙ plus-zeros sr _)
          | inr n ↦ next (
              ap
                (λ b.
                  if b
                  then ok (add_factor rs res c p xs)
                  else derivation_mul rs ldivide a (add_factor rs res c p xs) (c ⊗ k) xs)
                (sym n)
              ∙ h)
        ]

        factor :
            plus
              (left_scale c (product (derive a (denote m x)) X))
              (left_scale (c ⊗ k) (derive a X))
            ≡ left_scale c (derive a (denotes m VariadicType.mul (Exprs.cons x xs)))
        factor =
            plus_comm sr _ _
            ∙ ap (λ f. plus f (left_scale c (product (derive a (denote m x)) X)))
                (sym (left_scale-left_scale sr c k (derive a X)))
            ∙ sym (left_scale-plus sr c _ _)
            ∙ ap
                (λ y.
                  left_scale c
                    (plus (left_scale y (derive a X)) (product (derive a (denote m x)) X)))
                (sym hk)
            ∙ sym
                (ap (λ f. left_scale c (derive a f)) (denotes-cons m sr VariadicType.mul refl x xs))
