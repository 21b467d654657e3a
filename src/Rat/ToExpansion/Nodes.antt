-- ===== src/Rat/ToExpansion/Nodes.antt =====
-- The visits of one node, where those of its operands have given their series.
use vcsn.Base.{
  ◌≡◌, refl, sym, ◌∙◌, ap, ap₂, subst, [], ◌∷◌, Bool, true, false, Eq, ok, >>=-eq-ok, Result,
}
use vcsn.Weight.{Weightset, IsSemiring}
use vcsn.Label.{IsLabelset}
use vcsn.Series.{Series, shuffled, infiltrated, left_scale, right_scale, starred}
use vcsn.Series.Linear.{right_scale_comm}
use vcsn.Series.Reversed.{reversed, reversed-starred}
use vcsn.Rat.{UnaryType, Expr}
use vcsn.Rat.Denote.{Meaning, denote, star_or}
use vcsn.Rat.Constant.Laws.{ok_eq}
use vcsn.Rat.Make.{ExpressionSet}
use vcsn.Rat.Make.Product.Laws.{denote-shuffle-infiltrate}
use vcsn.Rat.Make.Product.{shuffle as make_shuffle}
use vcsn.Rat.Make.Product.{infiltrate as make_infiltrate}
use vcsn.Rat.Expansion.{Expansion, shuffle, infiltrate}
use vcsn.Rat.Expansion.Maps.{IsTransitive}
use vcsn.Rat.Expansion.Laws.{Denotes, lweight-Denotes}
use vcsn.Rat.Expansion.Scale.{rweight-Denotes}
use vcsn.Rat.Expansion.Products.{shuffle-Denotes, infiltrate-Denotes}
use vcsn.Rat.ToExpansion.Turned.{
  IsReversing, IsPlain, MayTurn, turned, turned-shuffled, turned-infiltrated,
  denote-make_transposition,
}
use vcsn.Rat.ToExpansion.Factors.{star_expansion-Denotes}
use vcsn.Rat.ToExpansion.{
  star_expansion, star_of, lweight_of, rweight_of, transposition, maybe_transposition,
}

module _ {A K : Type 0} ⦃e : Eq A⦄ ⦃ws : Weightset K⦄ (m : Meaning A A K) (sr : IsSemiring ws)
    (rs : ExpressionSet A K) (trans : IsTransitive rs.keys.labels) (ldivide : K → K → Result K)
    (free : (l : A) → rs.labels.is_one l ≡ false) (letter : (l : A) → m.letters l ≡ l ∷ [])
    (sound : IsLabelset rs.labels m.letters) (plain : IsPlain ws)
    (transpose : Expr A K → Result (Expr A K)) (turns : IsReversing m rs transpose) where
  abbrev IsExpansion : Expansion A K → Series A K → Type 0
  IsExpansion v f = Denotes m rs.keys.labels v f

  pub denote-maybe_transposition :
      (t : Bool) (x y : Expr A K)
      → MayTurn ws t
      → maybe_transposition rs transpose t x ≡ ok y
      → denote m y ≡ turned t (denote m x)
  denote-maybe_transposition true x y may h =
      denote-make_transposition m sr rs free letter sound plain (may refl) (transpose x) x y
        (λ a z. turns a x z) h
  denote-maybe_transposition false x y may h = ap (denote m) (sym (ok_eq _ _ h))

  pub lweight_of-Denotes :
      (t : Bool) (k : K) (v : Expansion A K) (f : Series A K)
      → MayTurn ws t
      → IsExpansion v (turned t f)
      → IsExpansion (lweight_of rs t k v) (turned t (left_scale k f))
  lweight_of-Denotes true k v f may d =
      subst (IsExpansion (lweight_of rs true k v))
        (ap (right_scale (reversed f)) (plain (may refl) k)
          ∙ right_scale_comm sr (may refl) (reversed f) k)
        (rweight-Denotes m sr rs trans ldivide free letter sound v (ws.transpose k) (reversed f) d)
  lweight_of-Denotes false k v f may d =
      lweight-Denotes m sr rs trans ldivide free letter sound k v f d

  pub rweight_of-Denotes :
      (t : Bool) (k : K) (v : Expansion A K) (f : Series A K)
      → MayTurn ws t
      → IsExpansion v (turned t f)
      → IsExpansion (rweight_of rs t k v) (turned t (right_scale f k))
  rweight_of-Denotes true k v f may d =
      subst (IsExpansion (rweight_of rs true k v))
        (ap (λ h. left_scale h (reversed f)) (plain (may refl) k)
          ∙ sym (right_scale_comm sr (may refl) (reversed f) k))
        (lweight-Denotes m sr rs trans ldivide free letter sound (ws.transpose k) v (reversed f) d)
  rweight_of-Denotes false k v f may d =
      rweight-Denotes m sr rs trans ldivide free letter sound v k f d

  denote-star :
      (x : Expr A K) (k c : K)
      → k ≡ denote m x []
      → ws.star k ≡ ok c
      → denote m (Expr.unary UnaryType.star x) ≡ starred (denote m x) c
  unfolding denote
  denote-star x k c h s = ap (starred (denote m x)) (ap (star_or ws) (ap ws.star (sym h) ∙ s))

  pub star_of-Denotes :
      (t : Bool) (x : Expr A K) (v w : Expansion A K) (c : K) (y : Expr A K)
      → MayTurn ws t
      → IsExpansion v (turned t (denote m x))
      → ws.star v.constant ≡ ok c
      → denote m y ≡ denote m (Expr.unary UnaryType.star x)
      → star_of rs transpose t v c y ≡ ok w
      → IsExpansion w (turned t (denote m (Expr.unary UnaryType.star x)))
  star_of-Denotes true x v w c y may d s named h =
      let (g, hg, hw) = >>=-eq-ok (transposition rs transpose y) _ h in
      subst (λ u. IsExpansion u (reversed (denote m (Expr.unary UnaryType.star x)))) (ok_eq _ _ hw)
        (subst
          (λ k.
            IsExpansion (star_expansion rs k v g)
              (reversed (denote m (Expr.unary UnaryType.star x))))
          (sym (plain (may refl) c))
          (subst (IsExpansion (star_expansion rs c v g)) (sym (reversed_star d.constant)) (
            star_expansion-Denotes m sr rs trans ldivide free letter sound v (reversed (denote m x))
              c g d
              (denote-maybe_transposition true y g may hg
                ∙ ap reversed named
                ∙ reversed_star d.constant))))
    where
      reversed_star :
          v.constant ≡ denote m x []
          → reversed (denote m (Expr.unary UnaryType.star x)) ≡ starred (reversed (denote m x)) c
      reversed_star k =
          ap reversed (denote-star x v.constant c k s)
          ∙ reversed-starred sr (may refl) (denote m x) c
  star_of-Denotes false x v w c y may d s named h =
      subst (λ u. IsExpansion u (denote m (Expr.unary UnaryType.star x))) (ok_eq _ _ h)
        (subst (IsExpansion (star_expansion rs c v y))
          (sym (denote-star x v.constant c d.constant s))
          (star_expansion-Denotes m sr rs trans ldivide free letter sound v (denote m x) c y d
            (named ∙ denote-star x v.constant c d.constant s)))

  -- One more operand of a shuffle or of an infiltration.
  module _ (comm : ws.is_commutative ≡ true) (t : Bool) (res v : Expansion A K)
      (prev x p q : Expr A K) (dr : IsExpansion res (turned t (denote m prev)))
      (dv : IsExpansion v (turned t (denote m x)))
      (hp : maybe_transposition rs transpose t prev ≡ ok p)
      (hq : maybe_transposition rs transpose t x ≡ ok q) where
    den_p : denote m p ≡ turned t (denote m prev)
    den_p = denote-maybe_transposition t prev p (λ h. comm) hp

    den_q : denote m q ≡ turned t (denote m x)
    den_q = denote-maybe_transposition t x q (λ h. comm) hq

    pub shuffle_more :
        IsExpansion (shuffle rs res p v q) (turned t (denote m (make_shuffle rs prev x)))
    shuffle_more =
        subst (IsExpansion (shuffle rs res p v q))
          (ap₂ shuffled den_p den_q
            ∙ sym (turned-shuffled sr t (denote m prev) (denote m x))
            ∙ ap (turned t) (sym (denote-shuffle-infiltrate m sr rs prev x).0))
          (shuffle-Denotes m sr rs trans ldivide free letter sound comm res v p q
            (subst (IsExpansion res) (sym den_p) dr) (subst (IsExpansion v) (sym den_q) dv))

    pub infiltrate_more :
        IsExpansion (infiltrate rs res p v q) (turned t (denote m (make_infiltrate rs prev x)))
    infiltrate_more =
        subst (IsExpansion (infiltrate rs res p v q))
          (ap₂ infiltrated den_p den_q
            ∙ sym (turned-infiltrated sr t (denote m prev) (denote m x))
            ∙ ap (turned t) (sym (denote-shuffle-infiltrate m sr rs prev x).1))
          (infiltrate-Denotes m sr rs trans ldivide free letter sound comm res v p q
            (subst (IsExpansion res) (sym den_p) dr) (subst (IsExpansion v) (sym den_q) dv))
