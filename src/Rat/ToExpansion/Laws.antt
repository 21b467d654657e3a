-- ===== src/Rat/ToExpansion/Laws.antt =====
-- The expansion of an expression denotes the series of the expression.
use vcsn.Base.{
  ◌≡◌, refl, sym, ◌∙◌, ap, subst, List, [], ◌∷◌, Bool, true, false, not, Eq, ok, >>=-eq-ok, Result,
}
use vcsn.Weight.{Weightset, IsSemiring}
use vcsn.Label.{IsLabelset}
use vcsn.Series.{Series, unit, zeros, plus, hadamard, shuffled, infiltrated}
use vcsn.Series.Linear.{zeros-plus, plus_assoc}
use vcsn.Series.Hadamard.{hadamard_assoc}
use vcsn.Series.Interleave.{shuffled_assoc, shuffled-unit, infiltrated_assoc, infiltrated-unit}
use vcsn.Series.Reversed.{reversed}
use vcsn.Rat.{VariadicType, UnaryType, WeightType, Expr, Exprs, ◌+++◌}
use vcsn.Rat.Denote.{Meaning, denote, denotes}
use vcsn.Rat.Denote.Variadic.{denotes-cons}
use vcsn.Rat.Constant.Laws.{ok_eq}
use vcsn.Rat.Make.{ExpressionSet}
use vcsn.Rat.Make.Product.{shuffle as make_shuffle}
use vcsn.Rat.Make.Product.{infiltrate as make_infiltrate}
use vcsn.Rat.Make.Product.Laws.{denote-shuffle-infiltrate}
use vcsn.Rat.Derivation.Derivable.{both_true}
use vcsn.Rat.Expansion.{Expansion, zero, one, add_here, conjunction, shuffle, infiltrate}
use vcsn.Rat.Expansion.Maps.{IsTransitive, IsSorted}
use vcsn.Rat.Expansion.Laws.{Denotes, zero-Denotes, one-Denotes, atom-Denotes, add_here-Denotes}
use vcsn.Rat.Expansion.Products.{conjunction-Denotes}
use vcsn.Rat.ToExpansion.Turned.{
  IsReversing, IsPlain, MayTurn, turned, turned-transposed, turned-unit, turned-plus,
  turned-hadamard, plus-turned-zeros, hadamard-turned-ones, visited_letter,
}
use vcsn.Rat.ToExpansion.Expandable.{is_expandable, are_expandable}
use vcsn.Rat.ToExpansion.Factors.{IsStep}
use vcsn.Rat.ToExpansion.Steps.{empty-IsStep, Denotes-of_IsStep}
use vcsn.Rat.ToExpansion.Nodes.{
  lweight_of-Denotes, rweight_of-Denotes, star_of-Denotes, shuffle_more, infiltrate_more,
}
use vcsn.Rat.ToExpansion.Rounds.{mul_round, transposed_round, unit_before}
use vcsn.Rat.ToExpansion.{
  factor_before, maybe_transposition, visit, visit_add, visit_mul, visit_transposed_mul,
  visit_conjunction, visit_shuffle, visit_infiltrate, to_expansion,
}

module _ {A K : Type 0} ⦃e : Eq A⦄ ⦃ws : Weightset K⦄ (m : Meaning A A K) (sr : IsSemiring ws)
    (rs : ExpressionSet A K) (trans : IsTransitive rs.keys.labels) (ldivide : K → K → Result K)
    (free : (l : A) → rs.labels.is_one l ≡ false) (letter : (l : A) → m.letters l ≡ l ∷ [])
    (sound : IsLabelset rs.labels m.letters) (plain : IsPlain ws) (generators : List A)
    (transpose : Expr A K → Result (Expr A K)) (turns : IsReversing m rs transpose) where
  abbrev IsExpansion : Expansion A K → Series A K → Type 0
  IsExpansion v f = Denotes m rs.keys.labels v f

  abbrev moved :
      (x v : Expansion A K) (f : Series A K) → ok x ≡ ok v → IsExpansion x f → IsExpansion v f
  moved x v f h d = subst (λ u. IsExpansion u f) (ok_eq x v h) d

  mutual
    unfolding visit visit_add visit_mul visit_transposed_mul visit_conjunction visit_shuffle
        visit_infiltrate denote denotes

    -- `f` is the node, or one that names it.
    pub visit_at :
        (x : Expr A K) (t : Bool) (f : Expr A K) (v : Expansion A K)
        → MayTurn ws t
        → denote m f ≡ denote m x
        → is_expandable x ≡ true
        → visit rs ldivide generators transpose t f x ≡ ok v
        → IsExpansion v (turned t (denote m x))
    visit_at Expr.zero true f v may named d h =
        moved _ v _ h (zero-Denotes m sr rs trans ldivide free letter sound)
    visit_at Expr.zero false f v may named d h =
        moved _ v _ h (zero-Denotes m sr rs trans ldivide free letter sound)
    visit_at Expr.one t f v may named d h = moved _ v _ h (
        subst (IsExpansion _) (sym (turned-unit sr t))
          (one-Denotes m sr rs trans ldivide free letter sound))
    visit_at (Expr.atom l) t f v may named d h = moved _ v _ h (
        subst (IsExpansion _) (visited_letter m sr rs free letter sound t l)
          (atom-Denotes m sr rs trans ldivide free letter sound _))
    visit_at (Expr.name x s) t f v may named d h = visit_at x t f v may named d h
    visit_at (Expr.variadic VariadicType.add xs) t f v may named d h =
        subst (IsExpansion v) (zeros-plus sr _) (
          add_at xs t (zero rs) zeros v may d (zero-Denotes m sr rs trans ldivide free letter sound)
            h)
    visit_at (Expr.variadic VariadicType.mul xs) false f v may named d h =
        Denotes-of_IsStep m sr rs v _ (mul_at xs _ v d tt h)
    visit_at (Expr.variadic VariadicType.mul xs) true f v may named d h =
        Denotes-of_IsStep m sr rs v _ (
          subst (IsStep m rs _ v (reversed (denotes m VariadicType.mul xs)))
            (sym (unit_before m sr rs trans ldivide free letter sound))
            (transposed_at xs Exprs.nil v (may refl) d h))
    visit_at (Expr.variadic VariadicType.conjunction Exprs.nil) t f v may named d h = cc
    visit_at (Expr.variadic VariadicType.conjunction (Exprs.cons x xs)) t f v may named d h =
        let (comm, ds) = both_true ws.is_commutative _ d in
        let (dx, dxs) = both_true (is_expandable x) (are_expandable xs) ds in
        let (p, hp, hv) = >>=-eq-ok (visit rs ldivide generators transpose t x x) _ h in
        subst (IsExpansion v)
          (sym (turned-hadamard sr t (denote m x) (denotes m VariadicType.conjunction xs))
            ∙ ap (turned t) (sym (denotes-cons m sr VariadicType.conjunction refl x xs)))
          (conjunction_at xs t p (turned t (denote m x)) v comm dxs
            (visit_at x t x p may refl dx hp) hv)
    visit_at (Expr.variadic VariadicType.shuffle Exprs.nil) t f v may named d h = cc
    visit_at (Expr.variadic VariadicType.shuffle (Exprs.cons x xs)) t f v may named d h =
        let (comm, ds) = both_true ws.is_commutative _ d in
        let (dx, dxs) = both_true (is_expandable x) (are_expandable xs) ds in
        let (p, hp, hv) = >>=-eq-ok (visit rs ldivide generators transpose t x x) _ h in
        subst (λ g. IsExpansion v (turned t g))
          (sym (denotes-cons m sr VariadicType.shuffle refl x xs))
          (shuffle_at xs t p x v comm dxs (visit_at x t x p may refl dx hp) hv)
    visit_at (Expr.variadic VariadicType.infiltrate Exprs.nil) t f v may named d h = cc
    visit_at (Expr.variadic VariadicType.infiltrate (Exprs.cons x xs)) t f v may named d h =
        let (comm, ds) = both_true ws.is_commutative _ d in
        let (dx, dxs) = both_true (is_expandable x) (are_expandable xs) ds in
        let (p, hp, hv) = >>=-eq-ok (visit rs ldivide generators transpose t x x) _ h in
        subst (λ g. IsExpansion v (turned t g))
          (sym (denotes-cons m sr VariadicType.infiltrate refl x xs))
          (infiltrate_at xs t p x v comm dxs (visit_at x t x p may refl dx hp) hv)
    visit_at (Expr.variadic VariadicType.compose xs) t f v may named d h = cc
    visit_at (Expr.variadic VariadicType.ldivide xs) t f v may named d h = cc
    visit_at (Expr.unary UnaryType.star x) t f v may named d h =
        let (p, hp, h1) = >>=-eq-ok (visit rs ldivide generators transpose t x x) _ h in
        let (c, hc, h2) = >>=-eq-ok (ws.star p.constant) _ h1 in
        star_of-Denotes m sr rs trans ldivide free letter sound plain transpose turns t x p v c f
          may (visit_at x t x p may refl d hp) hc named h2
    visit_at (Expr.unary UnaryType.complement x) t f v may named d h = cc
    visit_at (Expr.unary UnaryType.transposition x) t f v may named d h =
        let (comm, dx) = both_true ws.is_commutative (is_expandable x) d in
        subst (IsExpansion v) (turned-transposed plain comm t (denote m x))
          (visit_at x (not t) x v (λ q. comm) refl dx h)
    visit_at (Expr.weight_node WeightType.lweight k x) t f v may named d h =
        let (p, hp, hv) = >>=-eq-ok (visit rs ldivide generators transpose t x x) _ h in
        moved _ v _ hv (
          lweight_of-Denotes m sr rs trans ldivide free letter sound plain transpose turns t k p
            (denote m x) may (visit_at x t x p may refl d hp))
    visit_at (Expr.weight_node WeightType.rweight k x) t f v may named d h =
        let (p, hp, hv) = >>=-eq-ok (visit rs ldivide generators transpose t x x) _ h in
        moved _ v _ hv (
          rweight_of-Denotes m sr rs trans ldivide free letter sound plain transpose turns t k p
            (denote m x) may (visit_at x t x p may refl d hp))

    mul_at :
        (xs : Exprs A K) (res v : Expansion A K)
        → are_expandable xs ≡ true
        → IsSorted rs.keys.labels res.polynomials
        → visit_mul rs ldivide generators transpose res xs ≡ ok v
        → IsStep m rs res v (denotes m VariadicType.mul xs) unit
    mul_at Exprs.nil res v d s h =
        subst (λ u. IsStep m rs res u unit unit) (ok_eq res v h) (empty-IsStep m sr rs res unit s)
    mul_at (Exprs.cons x xs) res v d s h =
        let (p, hp, hv) = >>=-eq-ok (visit rs ldivide generators transpose false x x) _ h in
        let (dx, dxs) = both_true (is_expandable x) (are_expandable xs) d in
        mul_round m sr rs trans ldivide free letter sound x xs res p v _ s
          (visit_at x false x p (λ q. cc) refl dx hp) hv
          (λ q k. mul_at xs (factor_before rs res p xs) v dxs q k)

    transposed_at :
        (xs before : Exprs A K) (v : Expansion A K)
        → ws.is_commutative ≡ true
        → are_expandable xs ≡ true
        → visit_transposed_mul rs ldivide generators transpose before xs ≡ ok v
        → IsStep m rs
            (one rs)
            v
            (reversed (denotes m VariadicType.mul xs))
            (reversed (denotes m VariadicType.mul before))
    transposed_at Exprs.nil before v comm d h =
        subst
          (λ u.
            IsStep m rs (one rs) u (reversed (denotes m VariadicType.mul Exprs.nil))
              (reversed (denotes m VariadicType.mul before)))
          (ok_eq _ _ h)
          (subst
            (λ g. IsStep m rs (one rs) (one rs) g (reversed (denotes m VariadicType.mul before)))
            (unit_before m sr rs trans ldivide free letter sound)
            (empty-IsStep m sr rs (one rs) _ tt))
    transposed_at (Exprs.cons x xs) before v comm d h =
        let (r, hr, hv) =
          >>=-eq-ok
            (visit_transposed_mul rs ldivide generators transpose
              (before +++ Exprs.cons x Exprs.nil) xs)
            _ h in
        let (dx, dxs) = both_true (is_expandable x) (are_expandable xs) d in
        transposed_round m sr rs trans ldivide free letter sound plain comm transpose turns x before
          xs r v (visit rs ldivide generators transpose true x x)
          (transposed_at xs (before +++ Exprs.cons x Exprs.nil) r comm dxs hr) hv
          (λ p hp. visit_at x true x p (λ q. comm) refl dx hp)

    add_at :
        (xs : Exprs A K) (t : Bool) (res : Expansion A K) (g : Series A K) (v : Expansion A K)
        → MayTurn ws t
        → are_expandable xs ≡ true
        → IsExpansion res g
        → visit_add rs ldivide generators transpose t res xs ≡ ok v
        → IsExpansion v (plus g (turned t (denotes m VariadicType.add xs)))
    add_at Exprs.nil t res g v may d dr h =
        moved res v _ h (subst (IsExpansion res) (sym (plus-turned-zeros sr t g)) dr)
    add_at (Exprs.cons x xs) t res g v may d dr h =
        let (p, hp, hv) = >>=-eq-ok (visit rs ldivide generators transpose t x x) _ h in
        let (dx, dxs) = both_true (is_expandable x) (are_expandable xs) d in
        subst (IsExpansion v)
          (plus_assoc sr g (turned t (denote m x)) (turned t (denotes m VariadicType.add xs))
            ∙ ap (plus g) (
                sym (turned-plus sr t (denote m x) (denotes m VariadicType.add xs))
                ∙ ap (turned t) (sym (denotes-cons m sr VariadicType.add refl x xs))))
          (add_at xs t (add_here rs res p) (plus g (turned t (denote m x))) v may dxs
            (add_here-Denotes m sr rs trans ldivide free letter sound res p g _ dr
              (visit_at x t x p may refl dx hp))
            hv)

    conjunction_at :
        (xs : Exprs A K) (t : Bool) (res : Expansion A K) (g : Series A K) (v : Expansion A K)
        → ws.is_commutative ≡ true
        → are_expandable xs ≡ true
        → IsExpansion res g
        → visit_conjunction rs ldivide generators transpose t res xs ≡ ok v
        → IsExpansion v (hadamard g (turned t (denotes m VariadicType.conjunction xs)))
    conjunction_at Exprs.nil t res g v comm d dr h =
        moved res v _ h (subst (IsExpansion res) (sym (hadamard-turned-ones sr t g)) dr)
    conjunction_at (Exprs.cons x xs) t res g v comm d dr h =
        let (p, hp, hv) = >>=-eq-ok (visit rs ldivide generators transpose t x x) _ h in
        let (dx, dxs) = both_true (is_expandable x) (are_expandable xs) d in
        subst (IsExpansion v)
          (hadamard_assoc sr g (turned t (denote m x))
              (turned t (denotes m VariadicType.conjunction xs))
            ∙ ap (hadamard g) (
                sym (turned-hadamard sr t (denote m x) (denotes m VariadicType.conjunction xs))
                ∙ ap (turned t) (sym (denotes-cons m sr VariadicType.conjunction refl x xs))))
          (conjunction_at xs t (conjunction rs res p) (hadamard g (turned t (denote m x))) v comm
            dxs
            (conjunction-Denotes m sr rs trans ldivide free letter sound res p g _ comm dr
              (visit_at x t x p (λ q. comm) refl dx hp))
            hv)

    shuffle_at :
        (xs : Exprs A K) (t : Bool) (res : Expansion A K) (prev : Expr A K) (v : Expansion A K)
        → ws.is_commutative ≡ true
        → are_expandable xs ≡ true
        → IsExpansion res (turned t (denote m prev))
        → visit_shuffle rs ldivide generators transpose t res prev xs ≡ ok v
        → IsExpansion v (turned t (shuffled (denote m prev) (denotes m VariadicType.shuffle xs)))
    shuffle_at Exprs.nil t res prev v comm d dr h =
        moved res v _ h
          (subst (λ g. IsExpansion res (turned t g)) (sym (shuffled-unit sr (denote m prev))) dr)
    shuffle_at (Exprs.cons x xs) t res prev v comm d dr h =
        let (p, hp, h1) = >>=-eq-ok (maybe_transposition rs transpose t prev) _ h in
        let (u, hu, h2) = >>=-eq-ok (visit rs ldivide generators transpose t x x) _ h1 in
        let (q, hq, hv) = >>=-eq-ok (maybe_transposition rs transpose t x) _ h2 in
        let (dx, dxs) = both_true (is_expandable x) (are_expandable xs) d in
        subst (λ g. IsExpansion v (turned t g))
          (ap (λ g. shuffled g (denotes m VariadicType.shuffle xs))
              (denote-shuffle-infiltrate m sr rs prev x).0
            ∙ shuffled_assoc sr (denote m prev) (denote m x) (denotes m VariadicType.shuffle xs)
            ∙ ap (shuffled (denote m prev))
                (sym (denotes-cons m sr VariadicType.shuffle refl x xs)))
          (shuffle_at xs t (shuffle rs res p u q) (make_shuffle rs prev x) v comm dxs
            (shuffle_more m sr rs trans ldivide free letter sound plain transpose turns comm t res u
              prev x p q dr (visit_at x t x u (λ q. comm) refl dx hu) hp hq)
            hv)

    infiltrate_at :
        (xs : Exprs A K) (t : Bool) (res : Expansion A K) (prev : Expr A K) (v : Expansion A K)
        → ws.is_commutative ≡ true
        → are_expandable xs ≡ true
        → IsExpansion res (turned t (denote m prev))
        → visit_infiltrate rs ldivide generators transpose t res prev xs ≡ ok v
        → IsExpansion v
            (turned t (infiltrated (denote m prev) (denotes m VariadicType.infiltrate xs)))
    infiltrate_at Exprs.nil t res prev v comm d dr h =
        moved res v _ h
          (subst (λ g. IsExpansion res (turned t g)) (sym (infiltrated-unit sr (denote m prev))) dr)
    infiltrate_at (Exprs.cons x xs) t res prev v comm d dr h =
        let (p, hp, h1) = >>=-eq-ok (maybe_transposition rs transpose t prev) _ h in
        let (u, hu, h2) = >>=-eq-ok (visit rs ldivide generators transpose t x x) _ h1 in
        let (q, hq, hv) = >>=-eq-ok (maybe_transposition rs transpose t x) _ h2 in
        let (dx, dxs) = both_true (is_expandable x) (are_expandable xs) d in
        subst (λ g. IsExpansion v (turned t g))
          (ap (λ g. infiltrated g (denotes m VariadicType.infiltrate xs))
              (denote-shuffle-infiltrate m sr rs prev x).1
            ∙ infiltrated_assoc sr (denote m prev) (denote m x)
                (denotes m VariadicType.infiltrate xs)
            ∙ ap (infiltrated (denote m prev))
                (sym (denotes-cons m sr VariadicType.infiltrate refl x xs)))
          (infiltrate_at xs t (infiltrate rs res p u q) (make_infiltrate rs prev x) v comm dxs
            (infiltrate_more m sr rs trans ldivide free letter sound plain transpose turns comm t
              res u prev x p q dr (visit_at x t x u (λ q. comm) refl dx hu) hp hq)
            hv)

  -- Over any semiring of weights where transposition changes no weight if the product commutes,
  -- with letters as labels in a transitive order, and where the deep transpositions that
  -- `agressive` identities ask for denote the reversed series: where the expansion of an
  -- expandable expression, its transpositions included, is computed, its keys increase, its
  -- constant is the weight of the empty word, and the polynomial at each letter denotes the
  -- derivative of the series of the expression by the letter.
  pub to_expansion-denote :
      (x : Expr A K) (v : Expansion A K)
      → is_expandable x ≡ true
      → to_expansion rs ldivide generators transpose x ≡ ok v
      → Denotes m rs.keys.labels v (denote m x)
  unfolding to_expansion
  to_expansion-denote x v d h = visit_at x false x v (λ q. cc) refl d h
