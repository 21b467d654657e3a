-- ===== src/Rat/Expansion/Products.antt =====
-- The conjunction, the shuffle and the infiltration of expansions.
use vcsn.Base.{◌≡◌, refl, sym, ◌∙◌, ap, ap₂, [], ◌∷◌, true, false, Eq, Result}
use vcsn.Weight.{Weightset, IsSemiring, ◌⊗◌}
use vcsn.Label.{IsLabelset}
use vcsn.Series.{Series, derive, zeros, plus, hadamard, shuffled, infiltrated, left_scale}
use vcsn.Series.Linear.{zeros-plus, plus_assoc, plus_comm}
use vcsn.Series.Hadamard.{zeros-hadamard, hadamard-zeros}
use vcsn.Series.Interleave.{
  zeros-shuffled, shuffled-zeros, plus-shuffled, shuffled-plus, zeros-infiltrated,
  infiltrated-zeros, plus-infiltrated, infiltrated-plus,
}
use vcsn.Series.Scale.{
  left_scale-shuffled, shuffled-left_scale, left_scale-infiltrated, infiltrated-left_scale,
  infiltrated-left_scales,
}
use vcsn.Poly.{Polynomial, Found, find, set}
use vcsn.Poly.Laws.{value, value-pairwise}
use vcsn.Rat.{Expr}
use vcsn.Rat.Denote.{Meaning, denote}
use vcsn.Rat.Make.{ExpressionSet}
use vcsn.Rat.Make.Product.{shuffle as make_shuffle}
use vcsn.Rat.Make.Product.{infiltrate as make_infiltrate}
use vcsn.Rat.Make.Product.Laws.{denote-shuffle-infiltrate}
use vcsn.Rat.Derivation.{expression_labels}
use vcsn.Rat.Derivation.Steps.{zero_label, den-pairwise}
use vcsn.Rat.Expansion.{
  Polys, Expansion, polynomial_at, found_or_empty, add_images_at, for_each, conjunction_polynomials,
  infiltrate_polynomials, conjunction_with, conjunction, shuffle_with, shuffle, infiltrate,
}
use vcsn.Rat.Expansion.Maps.{IsTransitive, IsSorted, set-IsSorted}
use vcsn.Rat.Expansion.Zip.{both_found, zip_maps-IsSorted, find-zip_maps}
use vcsn.Poly.Zip.Total.{zip_maps}
use vcsn.Rat.Expansion.Loops.{updated, for_each-IsSorted, at-for_each, at-set}
use vcsn.Rat.Expansion.Laws.{Denotes, normalize-Denotes}
use vcsn.Rat.Expansion.Scale.{den_at-spread, spread-IsSorted}

module _ {A K : Type 0} ⦃e : Eq A⦄ ⦃ws : Weightset K⦄ (m : Meaning A A K) (sr : IsSemiring ws)
    (rs : ExpressionSet A K) (trans : IsTransitive rs.keys.labels) (ldivide : K → K → Result K)
    (free : (l : A) → rs.labels.is_one l ≡ false) (letter : (l : A) → m.letters l ≡ l ∷ [])
    (sound : IsLabelset rs.labels m.letters) where
  abbrev series : Polynomial (Expr A K) K → Series A K
  series v = value (denote m) v

  abbrev series_at : Polys A K → A → Series A K
  series_at v a = series (polynomial_at rs.keys.labels v a)

  module _ (op : Polynomial (Expr A K) K × Polynomial (Expr A K) K → Polynomial (Expr A K) K)
      (F : Series A K → Series A K → Series A K) (zeros-F : (g : Series A K) → F zeros g ≡ zeros)
      (F-zeros : (f : Series A K) → F f zeros ≡ zeros)
      (pairs : (p q : Polynomial (Expr A K) K) → series (op (p, q)) ≡ F (series p) (series q)) where
    zipped :
        (p q : Found (Polynomial (Expr A K) K))
        → series (updated (λ x y. op y) [] (both_found p q))
          ≡ F (series (found_or_empty p)) (series (found_or_empty q))
    unfolding value
    zipped (Found.present p) (Found.present q) = pairs p q
    zipped (Found.present p) Found.absent = sym (F-zeros (series p))
    zipped Found.absent q = sym (zeros-F (series (found_or_empty q)))

    series_at-zip_maps :
        (l r : Polys A K) (a : A)
        → IsSorted rs.keys.labels l
        → series_at
            (for_each
              (λ res k p. set rs.keys.labels.cmp res k (op p))
              []
              (zip_maps rs.keys.labels l r))
            a
          ≡ F (series_at l a) (series_at r a)
    unfolding value find
    series_at-zip_maps l r a s =
        ap series (
          at-for_each rs.keys.labels trans (λ res k p. set rs.keys.labels.cmp res k (op p))
            (λ x y. op y) (λ res k p b. at-set rs.keys.labels trans res k (op p) b) [] _ a
            (zip_maps-IsSorted rs.keys.labels trans l r s))
        ∙ ap (λ x. series (updated (λ x y. op y) [] x))
            (find-zip_maps rs.keys.labels trans l r a s).1
        ∙ zipped (find rs.keys.labels.cmp l a) (find rs.keys.labels.cmp r a)

    -- The common firsts of two expansions.
    conjunction_with-Denotes :
        (x y : Expansion A K) (f g h : Series A K)
        → f [] ⊗ g [] ≡ h []
        → ((a : A) → F (derive a f) (derive a g) ≡ derive a h)
        → Denotes m rs.keys.labels x f
        → Denotes m rs.keys.labels y g
        → Denotes m rs.keys.labels (conjunction_with rs op x y) h
    unfolding conjunction_with
    conjunction_with-Denotes x y f g h start next d c =
        normalize-Denotes m sr rs trans ldivide free letter sound _ h (record {
          sorted =
              for_each-IsSorted rs.keys.labels trans
                (λ res k p. set rs.keys.labels.cmp res k (op p)) (λ x y. op y)
                (λ res k p s. set-IsSorted rs.keys.labels trans res k (op p) s) [] _ tt;
          constant = ap₂ ◌⊗◌ d.constant c.constant ∙ start;
          at = λ a.
              series_at-zip_maps x.polynomials y.polynomials a d.sorted
              ∙ ap₂ F (d.at a) (c.at a)
              ∙ next a;
        })

  pub conjunction-Denotes :
      (x y : Expansion A K) (f g : Series A K)
      → ws.is_commutative ≡ true
      → Denotes m rs.keys.labels x f
      → Denotes m rs.keys.labels y g
      → Denotes m rs.keys.labels (conjunction rs x y) (hadamard f g)
  conjunction-Denotes x y f g comm d c =
      conjunction_with-Denotes (conjunction_polynomials rs) hadamard (zeros-hadamard sr)
        (hadamard-zeros sr) (den-pairwise m sr rs ldivide free letter sound comm) x y f g
        (hadamard f g) refl (λ a. refl) d c

  -- The part of the infiltration that begins with a letter of both.
  common : Series A K → Series A K → Series A K
  common f g [] = f [] ⊗ g []
  common f g (a ∷ w) = infiltrated (derive a f) (derive a g) w

  -- Two loops, for the two operands of a product whose derivatives derive one of them.
  module _ (comm : ws.is_commutative ≡ true) where
    pub den-infiltrate :
        (p q : Polynomial (Expr A K) K)
        → series (infiltrate_polynomials rs (p, q)) ≡ infiltrated (series p) (series q)
    den-infiltrate p q =
        value-pairwise sr (denote m) (expression_labels rs)
          (zero_label m sr rs ldivide free letter sound) (make_infiltrate rs) infiltrated
          (zeros-infiltrated sr) (infiltrated-zeros sr) (plus-infiltrated sr) (infiltrated-plus sr)
          (λ k h x y.
            ap (left_scale (k ⊗ h)) (denote-shuffle-infiltrate m sr rs x y).1
            ∙ sym (infiltrated-left_scales sr comm k h (denote m x) (denote m y)))
          p q

    shuffle_at :
        (res v w : Polys A K) (x y : Expr A K) (a : A)
        → IsSorted rs.keys.labels v
        → IsSorted rs.keys.labels w
        → series_at
            (for_each
              (add_images_at rs (λ z. make_shuffle rs x z))
              (for_each (add_images_at rs (λ z. make_shuffle rs z y)) res v)
              w)
            a
          ≡ plus
              (plus (series_at res a) (shuffled (series_at v a) (denote m y)))
              (shuffled (denote m x) (series_at w a))
    shuffle_at res v w x y a s t =
        den_at-spread m sr rs trans ldivide free letter sound (λ z. make_shuffle rs x z)
          (shuffled (denote m x)) (shuffled-zeros sr (denote m x)) (shuffled-plus sr (denote m x))
          (λ k z.
            ap (left_scale k) (denote-shuffle-infiltrate m sr rs x z).0
            ∙ sym (shuffled-left_scale sr comm k (denote m x) (denote m z)))
          _ w a t
        ∙ ap (λ f. plus f (shuffled (denote m x) (series_at w a)))
            (den_at-spread m sr rs trans ldivide free letter sound (λ z. make_shuffle rs z y)
              (λ f. shuffled f (denote m y)) (zeros-shuffled sr (denote m y))
              (λ f g. plus-shuffled sr f g (denote m y))
              (λ k z.
                ap (left_scale k) (denote-shuffle-infiltrate m sr rs z y).0
                ∙ sym (left_scale-shuffled sr k (denote m z) (denote m y)))
              res v a s)

    infiltrate_at :
        (res v w : Polys A K) (x y : Expr A K) (a : A)
        → IsSorted rs.keys.labels v
        → IsSorted rs.keys.labels w
        → series_at
            (for_each
              (add_images_at rs (λ z. make_infiltrate rs x z))
              (for_each (add_images_at rs (λ z. make_infiltrate rs z y)) res v)
              w)
            a
          ≡ plus
              (plus (series_at res a) (infiltrated (series_at v a) (denote m y)))
              (infiltrated (denote m x) (series_at w a))
    infiltrate_at res v w x y a s t =
        den_at-spread m sr rs trans ldivide free letter sound (λ z. make_infiltrate rs x z)
          (infiltrated (denote m x)) (infiltrated-zeros sr (denote m x))
          (infiltrated-plus sr (denote m x))
          (λ k z.
            ap (left_scale k) (denote-shuffle-infiltrate m sr rs x z).1
            ∙ sym (infiltrated-left_scale sr comm k (denote m x) (denote m z)))
          _ w a t
        ∙ ap (λ f. plus f (infiltrated (denote m x) (series_at w a)))
            (den_at-spread m sr rs trans ldivide free letter sound (λ z. make_infiltrate rs z y)
              (λ f. infiltrated f (denote m y)) (zeros-infiltrated sr (denote m y))
              (λ f g. plus-infiltrated sr f g (denote m y))
              (λ k z.
                ap (left_scale k) (denote-shuffle-infiltrate m sr rs z y).1
                ∙ sym (left_scale-infiltrated sr k (denote m z) (denote m y)))
              res v a s)

    pub shuffle-Denotes :
        (x y : Expansion A K) (u v : Expr A K)
        → Denotes m rs.keys.labels x (denote m u)
        → Denotes m rs.keys.labels y (denote m v)
        → Denotes m rs.keys.labels (shuffle rs x u y v) (shuffled (denote m u) (denote m v))
    unfolding shuffle shuffle_with shuffled value find
    shuffle-Denotes x y u v d c = record {
      sorted =
          spread-IsSorted rs trans _ _ y.polynomials
            (spread-IsSorted rs trans _ [] x.polynomials tt);
      constant = ap₂ ◌⊗◌ d.constant c.constant;
      at = λ a.
          shuffle_at [] x.polynomials y.polynomials u v a d.sorted c.sorted
          ∙ ap (λ f. plus f (shuffled (denote m u) (series_at y.polynomials a))) (zeros-plus sr _)
          ∙ ap₂ (λ f g. plus (shuffled f (denote m v)) (shuffled (denote m u) g)) (d.at a) (c.at a);
    }

    -- Over any commutative semiring of weights, with letters as labels in a transitive order,
    -- `infiltrate` of expansions of two expressions is an expansion of the infiltration of their
    -- series: sorted, with the constant and the derivative by each letter of that series.
    pub infiltrate-Denotes :
        (x y : Expansion A K) (u v : Expr A K)
        → Denotes m rs.keys.labels x (denote m u)
        → Denotes m rs.keys.labels y (denote m v)
        → Denotes m rs.keys.labels (infiltrate rs x u y v) (infiltrated (denote m u) (denote m v))
    unfolding infiltrate shuffle_with infiltrated common
    infiltrate-Denotes x y u v d c =
        let both =
          conjunction_with-Denotes (infiltrate_polynomials rs) infiltrated (zeros-infiltrated sr)
            (infiltrated-zeros sr) den-infiltrate x y (denote m u) (denote m v)
            (common (denote m u) (denote m v)) refl (λ a. refl) d c in
        record {
          sorted =
              spread-IsSorted rs trans _ _ y.polynomials
                (spread-IsSorted rs trans _ _ x.polynomials both.sorted);
          constant = both.constant;
          at = λ a.
              infiltrate_at _ x.polynomials y.polynomials u v a d.sorted c.sorted
              ∙ plus_assoc sr _ _ _
              ∙ plus_comm sr _ _
              ∙ ap₂ plus
                  (ap₂ (λ f g. plus (infiltrated f (denote m v)) (infiltrated (denote m u) g))
                    (d.at a) (c.at a))
                  (both.at a);
        }
