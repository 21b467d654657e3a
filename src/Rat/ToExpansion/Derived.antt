-- ===== src/Rat/ToExpansion/Derived.antt =====
-- The expansion against the constant term and the derivations, which the program also computes.
use vcsn.Base.{◌≡◌, sym, ◌∙◌, List, [], ◌∷◌, true, false, Eq, ok, Result}
use vcsn.Weight.{Weightset, IsSemiring}
use vcsn.Label.{IsLabelset}
use vcsn.Poly.{Polynomial}
use vcsn.Poly.Laws.{value}
use vcsn.Rat.{Expr}
use vcsn.Rat.Denote.{Meaning, denote}
use vcsn.Rat.Constant.{constant_term}
use vcsn.Rat.Constant.Laws.{constant_term-denote}
use vcsn.Rat.Make.{ExpressionSet}
use vcsn.Rat.Derivation.{derivation}
use vcsn.Rat.Derivation.Derivable.{is_derivable, proper}
use vcsn.Rat.Derivation.Laws.{derivation-derive}
use vcsn.Rat.Expansion.{Expansion, polynomial_at}
use vcsn.Rat.Expansion.Maps.{IsTransitive}
use vcsn.Rat.ToExpansion.Turned.{IsReversing, IsPlain}
use vcsn.Rat.ToExpansion.Expandable.{is_expandable}
use vcsn.Rat.ToExpansion.Laws.{to_expansion-denote}
use vcsn.Rat.ToExpansion.{to_expansion}

module _ {A K : Type 0} ⦃e : Eq A⦄ ⦃ws : Weightset K⦄ (m : Meaning A A K) (sr : IsSemiring ws)
    (rs : ExpressionSet A K) (trans : IsTransitive rs.keys.labels) (ldivide : K → K → Result K)
    (free : (l : A) → rs.labels.is_one l ≡ false) (letter : (l : A) → m.letters l ≡ l ∷ [])
    (sound : IsLabelset rs.labels m.letters) (plain : IsPlain ws) (generators : List A)
    (transpose : Expr A K → Result (Expr A K)) (turns : IsReversing m rs transpose) where
  -- Under the conditions on weights, labels and deep transpositions of `to_expansion-denote`,
  -- where the expansion, the constant term and the derivation by `a` of an expression that is both
  -- expandable and derivable are computed, the constant of the expansion is the constant term, and
  -- its polynomial at `a` denotes the same series as the derivation.
  pub to_expansion-derivation :
      (x : Expr A K) (v : Expansion A K) (a : A) (p : Polynomial (Expr A K) K) (c : K)
      → is_expandable x ≡ true
      → is_derivable x ≡ true
      → to_expansion rs ldivide generators transpose x ≡ ok v
      → constant_term x ≡ ok c
      → derivation rs ldivide a x ≡ ok p
      → (v.constant ≡ c)
        × (value (denote m) (polynomial_at rs.keys.labels v.polynomials a) ≡ value (denote m) p)
  to_expansion-derivation x v a p c d k h hc hp =
      let den =
        to_expansion-denote m sr rs trans ldivide free letter sound plain generators transpose turns
          x v d h in
      (
        den.constant ∙ constant_term-denote m sr rs.labels sound x c (proper rs.labels free x) hc,
        den.at a ∙ sym (derivation-derive m sr rs ldivide free letter sound a x p k hp),
      )
