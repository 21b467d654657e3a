-- ===== src/Rat/ToExpansion/Factors.antt =====
-- The steps of the visits of a product and of a star, on the series of the expansions.
use vcsn.Base.{◌≡◌, refl, sym, ◌∙◌, ap, ap₂, subst, [], ◌∷◌, false, Eq, Result, fun_ext}
use vcsn.Weight.{Weightset, IsSemiring, ◌⊗◌}
use vcsn.Label.{IsLabelset}
use vcsn.Series.{Series, derive, zeros, unit, plus, product, left_scale, starred}
use vcsn.Series.Linear.{left_scale-zeros}
use vcsn.Series.Product.{zeros-product, product-unit, starred_cons}
use vcsn.Poly.{Polynomial, Found, add_all, rmul_label, find}
use vcsn.Poly.{lweight as weighted_polynomial}
use vcsn.Poly.Laws.{value, value-lweight, value-rmul_label}
use vcsn.Rat.{VariadicType, Expr, Exprs}
use vcsn.Rat.Denote.{Meaning, denote, denotes}
use vcsn.Rat.Make.{ExpressionSet}
use vcsn.Rat.Make.Mul.{mul}
use vcsn.Rat.Make.Mul.Laws.{denote-mul}
use vcsn.Rat.Derivation.{expression_labels, prod}
use vcsn.Rat.Derivation.Steps.{zero_label, denote-prod}
use vcsn.Rat.Expansion.{Polys, Expansion, polynomial_at, found_or_empty, rmul_label_here}
use vcsn.Rat.Expansion.Maps.{IsTransitive, IsSorted, set-IsSorted, map_values-IsSorted}
use vcsn.Rat.Expansion.Loops.{updated, for_each-IsSorted, at-for_each, at-set}
use vcsn.Rat.Expansion.Laws.{Denotes, den_at-for_each, den-add_all}
use vcsn.Rat.Expansion.Scale.{den_at-rmul_label_here}
use vcsn.Rat.ToExpansion.{with_rest, add_factor, factor_before, star_expansion}

module _ {A K : Type 0} ⦃e : Eq A⦄ ⦃ws : Weightset K⦄ (m : Meaning A A K) where
  abbrev pub series_at : ExpressionSet A K → Polys A K → A → Series A K
  series_at rs v a = value (denote m) (polynomial_at rs.keys.labels v a)

  -- What a factor of the series `f` before the series `g` adds to the expansion `res`.
  pub record IsStep (rs : ExpressionSet A K) (res v : Expansion A K) (f g : Series A K)
      : Type 0 where
    pub sorted : IsSorted rs.keys.labels v.polynomials
    pub constant : v.constant ≡ res.constant ⊗ f []
    pub at :
        (a : A)
        → series_at rs v.polynomials a
          ≡ plus (series_at rs res.polynomials a) (left_scale res.constant (product (derive a f) g))

module _ {A K : Type 0} ⦃e : Eq A⦄ ⦃ws : Weightset K⦄ (m : Meaning A A K) (sr : IsSemiring ws)
    (rs : ExpressionSet A K) (trans : IsTransitive rs.keys.labels) (ldivide : K → K → Result K)
    (free : (l : A) → rs.labels.is_one l ≡ false) (letter : (l : A) → m.letters l ≡ l ∷ [])
    (sound : IsLabelset rs.labels m.letters) where
  weighted :
      (k : K) (p : Polynomial (Expr A K) K)
      → value (denote m) (weighted_polynomial (expression_labels rs) k p)
        ≡ left_scale k (value (denote m) p)
  weighted k p =
      value-lweight sr (denote m) (expression_labels rs)
        (zero_label m sr rs ldivide free letter sound) k p

  series_at-add_factor :
      (res rhs : Expansion A K) (a : A)
      → IsSorted rs.keys.labels rhs.polynomials
      → series_at m rs (add_factor rs res rhs).polynomials a
        ≡ plus
            (series_at m rs res.polynomials a)
            (left_scale res.constant (series_at m rs rhs.polynomials a))
  unfolding add_factor
  series_at-add_factor res rhs a s =
      den_at-for_each m sr rs trans ldivide free letter sound _
        (λ x p.
          add_all (expression_labels rs) x
            (weighted_polynomial (expression_labels rs) res.constant p))
        (left_scale res.constant) (left_scale-zeros sr res.constant)
        (λ v l p b. at-set rs.keys.labels trans v l _ b)
        (λ x p.
          den-add_all m sr rs trans ldivide free letter sound x _
          ∙ ap (plus (value (denote m) x)) (weighted res.constant p))
        res.polynomials rhs.polynomials a s

  add_factor-IsSorted :
      (res rhs : Expansion A K)
      → IsSorted rs.keys.labels res.polynomials
      → IsSorted rs.keys.labels (add_factor rs res rhs).polynomials
  unfolding add_factor
  add_factor-IsSorted res rhs s =
      for_each-IsSorted rs.keys.labels trans _
        (λ x p.
          add_all (expression_labels rs) x
            (weighted_polynomial (expression_labels rs) res.constant p))
        (λ v l p s. set-IsSorted rs.keys.labels trans v l _ s) res.polynomials rhs.polynomials s

  -- A last factor.
  pub add_factor-IsStep :
      (res rhs : Expansion A K) (f : Series A K)
      → IsSorted rs.keys.labels res.polynomials
      → Denotes m rs.keys.labels rhs f
      → IsStep m rs res (add_factor rs res rhs) f unit
  add_factor-IsStep res rhs f s d = record {
    sorted = add_factor-IsSorted res rhs s;
    constant = unfold add_factor in ap (λ k. res.constant ⊗ k) d.constant;
    at = λ a.
        series_at-add_factor res rhs a d.sorted
        ∙ ap (λ g. plus (series_at m rs res.polynomials a) (left_scale res.constant g))
            (d.at a ∙ sym (product-unit sr (derive a f)));
  }

  -- A factor before the expression `y`.
  pub with_rest-IsStep :
      (res rhs : Expansion A K) (f : Series A K) (y : Expr A K)
      → IsSorted rs.keys.labels res.polynomials
      → Denotes m rs.keys.labels rhs f
      → IsStep m rs res (add_factor rs res (with_rest rs rhs y)) f (denote m y)
  with_rest-IsStep res rhs f y s d = record {
    sorted = add_factor-IsSorted res (with_rest rs rhs y) s;
    constant = unfold add_factor with_rest in ap (λ k. res.constant ⊗ k) d.constant;
    at = λ a.
        series_at-add_factor res (with_rest rs rhs y) a rest_sorted
        ∙ ap (λ g. plus (series_at m rs res.polynomials a) (left_scale res.constant g))
            (rest_at a ∙ ap (λ g. product g (denote m y)) (d.at a));
  }
    where
      rest_sorted : IsSorted rs.keys.labels (with_rest rs rhs y).polynomials
      rest_sorted =
          unfold with_rest rmul_label_here in
          map_values-IsSorted rs.keys.labels trans _ rhs.polynomials d.sorted

      rest_at :
          (a : A)
          → series_at m rs (with_rest rs rhs y).polynomials a
            ≡ product (series_at m rs rhs.polynomials a) (denote m y)
      rest_at a =
          unfold with_rest in
          den_at-rmul_label_here m sr rs trans ldivide free letter sound
            (record rhs { constant = ws.zero }) y a

  pub factor_before-IsStep :
      (res rhs : Expansion A K) (f : Series A K) (rest : Exprs A K)
      → IsSorted rs.keys.labels res.polynomials
      → Denotes m rs.keys.labels rhs f
      → IsStep m rs res (factor_before rs res rhs rest) f (denotes m VariadicType.mul rest)
  unfolding denotes
  factor_before-IsStep res rhs f Exprs.nil s d = add_factor-IsStep res rhs f s d
  factor_before-IsStep res rhs f (Exprs.cons y ys) s d =
      subst (IsStep m rs res (add_factor rs res (with_rest rs rhs (prod (Exprs.cons y ys)))) f)
        (denote-prod m sr rs ldivide free letter sound (Exprs.cons y ys))
        (with_rest-IsStep res rhs f (prod (Exprs.cons y ys)) s d)

  assigned :
      (g : Polynomial (Expr A K) K → Polynomial (Expr A K) K) (op : Series A K → Series A K)
      → op zeros ≡ zeros
      → ((p : Polynomial (Expr A K) K) → value (denote m) (g p) ≡ op (value (denote m) p))
      → (r : Found (Polynomial (Expr A K) K))
      → value (denote m) (updated (λ x p. g p) [] r) ≡ op (value (denote m) (found_or_empty r))
  unfolding value
  assigned g op op_zeros each Found.absent = sym op_zeros
  assigned g op op_zeros each (Found.present p) = each p

  -- The star, where `s` is the star of the constant and `y` an expression of the star.
  pub star_expansion-Denotes :
      (x : Expansion A K) (f : Series A K) (s : K) (y : Expr A K)
      → Denotes m rs.keys.labels x f
      → denote m y ≡ starred f s
      → Denotes m rs.keys.labels (star_expansion rs s x y) (starred f s)
  unfolding star_expansion value find
  star_expansion-Denotes x f s y d star = record {
    sorted =
        for_each-IsSorted rs.keys.labels trans _ (λ z p. factor p)
          (λ v l p s. set-IsSorted rs.keys.labels trans v l _ s) [] x.polynomials tt;
    constant = unfold starred in refl;
    at = λ a.
        ap (value (denote m)) (
          at-for_each rs.keys.labels trans _ (λ z p. factor p)
            (λ v l p b. at-set rs.keys.labels trans v l _ b) [] x.polynomials a d.sorted)
        ∙ assigned factor (λ g. left_scale s (product g (denote m y)))
            (ap (left_scale s) (zeros-product sr (denote m y)) ∙ left_scale-zeros sr s)
            (λ p.
              weighted s _
              ∙ ap (left_scale s) (
                  value-rmul_label sr (denote m) (expression_labels rs)
                    (zero_label m sr rs ldivide free letter sound) (mul rs) (denote-mul m sr rs) p
                    y))
            (find rs.keys.labels.cmp x.polynomials a)
        ∙ ap₂ (λ g h. left_scale s (product g h)) (d.at a) star
        ∙ sym (fun_ext λ w. starred_cons sr f s a w);
  }
    where
      factor : Polynomial (Expr A K) K → Polynomial (Expr A K) K
      factor p =
          weighted_polynomial (expression_labels rs) s
            (rmul_label (expression_labels rs) (mul rs) p y)
