-- ===== src/Rat/ToExpansion/Steps.antt =====
-- How the steps of the visit of a product compose.
use vcsn.Base.{◌≡◌, sym, ◌∙◌, ap, ap₂, [], Eq}
use vcsn.Weight.{Weightset, IsSemiring, ◌⊗◌}
use vcsn.Series.{Series, derive, unit, plus, product, left_scale}
use vcsn.Series.Linear.{
  plus_assoc, plus_comm, zeros-plus, plus-zeros, left_scale-one, left_scale-zero, left_scale-zeros,
  left_scale-plus, left_scale-left_scale,
}
use vcsn.Series.Product.{
  product_assoc, product-unit, zeros-product, plus-product, left_scale-product,
}
use vcsn.Poly.{find}
use vcsn.Poly.Laws.{value}
use vcsn.Rat.Denote.{Meaning}
use vcsn.Rat.Make.{ExpressionSet}
use vcsn.Rat.Expansion.{Expansion, one}
use vcsn.Rat.Expansion.Maps.{IsSorted}
use vcsn.Rat.Expansion.Laws.{Denotes}
use vcsn.Rat.ToExpansion.Factors.{IsStep, series_at}

module _ {A K : Type 0} ⦃e : Eq A⦄ ⦃ws : Weightset K⦄ (m : Meaning A A K) (sr : IsSemiring ws)
    (rs : ExpressionSet A K) where
  -- No factor.
  pub empty-IsStep :
      (r : Expansion A K) (g : Series A K)
      → IsSorted rs.keys.labels r.polynomials
      → IsStep m rs r r unit g
  unfolding unit
  empty-IsStep r g s = record {
    sorted = s;
    constant = sym (sr.mul-one r.constant);
    at = λ a. sym (
        ap (plus (series_at m rs r.polynomials a))
          (ap (left_scale r.constant) (zeros-product sr g) ∙ left_scale-zeros sr r.constant)
        ∙ plus-zeros sr _);
  }

  -- Nothing is added after a null constant.
  pub null-IsStep :
      (r : Expansion A K) (f g : Series A K)
      → IsSorted rs.keys.labels r.polynomials
      → r.constant ≡ ws.zero
      → IsStep m rs r r f g
  null-IsStep r f g s z = record {
    sorted = s;
    constant = z ∙ sym (ap (λ k. k ⊗ f []) z ∙ sr.zero-mul (f []));
    at = λ a. sym (
        ap (plus (series_at m rs r.polynomials a))
          (ap (λ k. left_scale k (product (derive a f) g)) z ∙ left_scale-zero sr _)
        ∙ plus-zeros sr _);
  }

  -- The derivative of a product of two, before a third.
  two_factors :
      (c : K) (f g h : Series A K) (a : A)
      → plus
          (left_scale c (product (derive a f) (product g h)))
          (left_scale (c ⊗ f []) (product (derive a g) h))
        ≡ left_scale c (product (derive a (product f g)) h)
  unfolding product
  two_factors c f g h a =
      plus_comm sr _ _
      ∙ ap₂ plus
          (sym (left_scale-left_scale sr c (f []) _)
            ∙ ap (left_scale c) (sym (left_scale-product sr (f []) (derive a g) h)))
          (ap (left_scale c) (sym (product_assoc sr (derive a f) g h)))
      ∙ sym (left_scale-plus sr c _ _)
      ∙ ap (left_scale c) (sym (plus-product sr _ _ h))

  pub IsStep-trans :
      (r s v : Expansion A K) (f g h : Series A K)
      → IsStep m rs r s f (product g h)
      → IsStep m rs s v g h
      → IsStep m rs r v (product f g) h
  IsStep-trans r s v f g h x y = record {
    sorted = y.sorted;
    constant =
        unfold product in
        (y.constant ∙ ap (λ k. k ⊗ g []) x.constant ∙ sr.mul_assoc r.constant (f []) (g []));
    at = λ a.
        y.at a
        ∙ ap₂ (λ t k. plus t (left_scale k (product (derive a g) h))) (x.at a) x.constant
        ∙ plus_assoc sr _ _ _
        ∙ ap (plus (series_at m rs r.polynomials a)) (two_factors r.constant f g h a);
  }

  -- The steps from the expansion 1.
  pub Denotes-of_IsStep :
      (v : Expansion A K) (f : Series A K)
      → IsStep m rs (one rs) v f unit
      → Denotes m rs.keys.labels v f
  unfolding value find
  Denotes-of_IsStep v f s = record {
    sorted = s.sorted;
    constant = s.constant ∙ sr.one-mul (f []);
    at = λ a. s.at a ∙ zeros-plus sr _ ∙ left_scale-one sr _ ∙ product-unit sr (derive a f);
  }
