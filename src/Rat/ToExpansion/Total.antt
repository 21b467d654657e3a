-- ===== src/Rat/ToExpansion/Total.antt =====
-- The expansion of an expression that has a constant term is computed.
use vcsn.Base.{
  ◌≡◌, refl, ◌∙◌, ap, List, [], ◌∷◌, Bool, true, false, not, Eq, ok, Result, >>=-eq-ok, ◌>>=◌,
  if◌then◌else◌, ◌&&◌,
}
use vcsn.Weight.{Weightset, IsSemiring}
use vcsn.Label.{IsLabelset}
use vcsn.Series.{Series}
use vcsn.Rat.{VariadicType, UnaryType, WeightType, Expr, Exprs, ◌+++◌, is_zero, is_one, is_atom}
use vcsn.Rat.Identities.{is_trivial, is_agressive}
use vcsn.Rat.Denote.{Meaning, denote}
use vcsn.Rat.Constant.{constant_term}
use vcsn.Rat.Constant.Laws.{constant_term-denote}
use vcsn.Rat.Make.{ExpressionSet}
use vcsn.Rat.Make.Product.{shuffle as make_shuffle}
use vcsn.Rat.Make.Product.{infiltrate as make_infiltrate}
use vcsn.Rat.Make.Transposition.{make_transposition, transposed_atom}
use vcsn.Rat.Derivation.{prod}
use vcsn.Rat.Derivation.Derivable.{both_true, proper}
use vcsn.Rat.Derivation.Total.{>>=-ok, HaveConstants, constants_of_sum, constants_of_product}
use vcsn.Rat.Expansion.{Expansion, zero, one, add_here, conjunction, shuffle, infiltrate}
use vcsn.Rat.Expansion.Maps.{IsTransitive}
use vcsn.Rat.ToExpansion.Turned.{IsReversing, IsPlain, MayTurn, turned}
use vcsn.Rat.ToExpansion.Expandable.{is_expandable, are_expandable}
use vcsn.Rat.ToExpansion.Laws.{visit_at}
use vcsn.Rat.ToExpansion.{
  factor_before, factor_after, star_of, transposition, maybe_transposition, visit, visit_add,
  visit_mul, visit_transposed_mul, visit_conjunction, visit_shuffle, visit_infiltrate, to_expansion,
}

abbrev IsOk : {X : Type 0} → Result X → Type 0
IsOk {X} r = (x : X) × (r ≡ ok x)

either-IsOk : {X : Type 0} (b : Bool) (r s : Result X) → IsOk r → IsOk s → IsOk (if b then r else s)
either-IsOk true r s hr hs = hr
either-IsOk false r s hr hs = hs

module _ {L K : Type 0} ⦃ws : Weightset K⦄ (rs : ExpressionSet L K)
    (gentle : is_agressive rs.identities ≡ false) (transpose : Expr L K → Result (Expr L K)) where
  pub transposition_total : (x : Expr L K) → IsOk (transposition rs transpose x)
  unfolding make_transposition
  transposition_total x = rw gentle (
      either-IsOk (is_trivial rs.identities && is_zero x) (ok x) _ (_, refl)
        (either-IsOk (is_trivial rs.identities && is_one x) (ok x) _ (_, refl)
          (either-IsOk (is_trivial rs.identities && is_atom x) (ok (transposed_atom rs x))
            (ok (Expr.unary UnaryType.transposition x)) (_, refl) (_, refl))))

  maybe_total : (t : Bool) (x : Expr L K) → IsOk (maybe_transposition rs transpose t x)
  maybe_total true x = transposition_total x
  maybe_total false x = (x, refl)

  star_of_total :
      (t : Bool) (v : Expansion L K) (c : K) (f : Expr L K) → IsOk (star_of rs transpose t v c f)
  star_of_total true v c f =
      let (g, hg) = transposition_total f in (_, >>=-ok (transposition rs transpose f) _ hg refl)
  star_of_total false v c f = (_, refl)

  factor_after_total :
      (res rhs : Expansion L K) (before : Exprs L K)
      → IsOk (factor_after rs transpose res rhs before)
  factor_after_total res rhs Exprs.nil = (_, refl)
  factor_after_total res rhs (Exprs.cons y ys) =
      let (g, hg) = transposition_total (prod (Exprs.cons y ys)) in
      (_, >>=-ok (transposition rs transpose (prod (Exprs.cons y ys))) _ hg refl)

module _ {A K : Type 0} ⦃e : Eq A⦄ ⦃ws : Weightset K⦄ (m : Meaning A A K) (sr : IsSemiring ws)
    (rs : ExpressionSet A K) (trans : IsTransitive rs.keys.labels) (ldivide : K → K → Result K)
    (free : (l : A) → rs.labels.is_one l ≡ false) (letter : (l : A) → m.letters l ≡ l ∷ [])
    (sound : IsLabelset rs.labels m.letters) (plain : IsPlain ws) (generators : List A)
    (gentle : is_agressive rs.identities ≡ false) (transpose : Expr A K → Result (Expr A K)) where
  -- The identities ask for no deep transposition.
  never_deep : IsReversing m rs transpose
  never_deep a x y h = cc

  at_nil : (t : Bool) (f : Series A K) → turned t f [] ≡ f []
  at_nil true f = refl
  at_nil false f = refl

  mutual
    unfolding visit visit_add visit_mul visit_transposed_mul visit_conjunction visit_shuffle
        visit_infiltrate constant_term

    total_at :
        (x : Expr A K) (t : Bool) (f : Expr A K) (c : K)
        → MayTurn ws t
        → is_expandable x ≡ true
        → constant_term x ≡ ok c
        → IsOk (visit rs ldivide generators transpose t f x)
    total_at Expr.zero t f c may d h = (_, refl)
    total_at Expr.one t f c may d h = (_, refl)
    total_at (Expr.atom l) t f c may d h = (_, refl)
    total_at (Expr.name x s) t f c may d h = total_at x t f c may d h
    total_at (Expr.variadic VariadicType.add xs) t f c may d h =
        total_add xs t (zero rs) may d (constants_of_sum xs ws.zero c h)
    total_at (Expr.variadic VariadicType.mul xs) false f c may d h =
        total_mul xs (one rs) d (constants_of_product xs ws.one c h)
    total_at (Expr.variadic VariadicType.mul xs) true f c may d h =
        total_transposed xs Exprs.nil (may refl) d (constants_of_product xs ws.one c h)
    total_at (Expr.variadic VariadicType.conjunction Exprs.nil) t f c may d h = cc
    total_at (Expr.variadic VariadicType.conjunction (Exprs.cons x xs)) t f c may d h =
        let ((k, hk), hs) = constants_of_product (Exprs.cons x xs) ws.one c h in
        let (comm, ds) = both_true ws.is_commutative _ d in
        let (dx, dxs) = both_true (is_expandable x) (are_expandable xs) ds in
        let (p, hp) = total_at x t x k may dx hk in
        let (v, hv) = total_conjunction xs t p comm dxs hs in
        (v, >>=-ok (visit rs ldivide generators transpose t x x) _ hp hv)
    total_at (Expr.variadic VariadicType.shuffle Exprs.nil) t f c may d h = cc
    total_at (Expr.variadic VariadicType.shuffle (Exprs.cons x xs)) t f c may d h =
        let ((k, hk), hs) = constants_of_product (Exprs.cons x xs) ws.one c h in
        let (comm, ds) = both_true ws.is_commutative _ d in
        let (dx, dxs) = both_true (is_expandable x) (are_expandable xs) ds in
        let (p, hp) = total_at x t x k may dx hk in
        let (v, hv) = total_shuffle xs t p x comm dxs hs in
        (v, >>=-ok (visit rs ldivide generators transpose t x x) _ hp hv)
    total_at (Expr.variadic VariadicType.infiltrate Exprs.nil) t f c may d h = cc
    total_at (Expr.variadic VariadicType.infiltrate (Exprs.cons x xs)) t f c may d h =
        let ((k, hk), hs) = constants_of_product (Exprs.cons x xs) ws.one c h in
        let (comm, ds) = both_true ws.is_commutative _ d in
        let (dx, dxs) = both_true (is_expandable x) (are_expandable xs) ds in
        let (p, hp) = total_at x t x k may dx hk in
        let (v, hv) = total_infiltrate xs t p x comm dxs hs in
        (v, >>=-ok (visit rs ldivide generators transpose t x x) _ hp hv)
    total_at (Expr.variadic VariadicType.compose xs) t f c may d h = cc
    total_at (Expr.variadic VariadicType.ldivide xs) t f c may d h = cc
    total_at (Expr.unary UnaryType.star x) t f c may d h =
        let (k, hk, hs) = >>=-eq-ok (constant_term x) _ h in
        let (p, hp) = total_at x t x k may d hk in
        let den =
          visit_at m sr rs trans ldivide free letter sound plain generators transpose never_deep x t
            x p may refl d hp in
        let same =
          den.constant
          ∙ at_nil t (denote m x)
          ∙ constant_term-denote m sr rs.labels sound x k (proper rs.labels free x) hk in
        let (v, hv) = star_of_total rs gentle transpose t p c f in
        (
          v,
          >>=-ok (visit rs ldivide generators transpose t x x) _ hp
              (>>=-ok (ws.star p.constant) _ (ap ws.star same ∙ hs) hv),
        )
    total_at (Expr.unary UnaryType.complement x) t f c may d h = cc
    total_at (Expr.unary UnaryType.transposition x) t f c may d h =
        let (k, hk, hs) = >>=-eq-ok (constant_term x) _ h in
        let (comm, dx) = both_true ws.is_commutative (is_expandable x) d in
        total_at x (not t) x k (λ q. comm) dx hk
    total_at (Expr.weight_node WeightType.lweight w x) t f c may d h =
        let (k, hk, hr) = >>=-eq-ok (constant_term x) _ h in
        let (p, hp) = total_at x t x k may d hk in
        (_, >>=-ok (visit rs ldivide generators transpose t x x) _ hp refl)
    total_at (Expr.weight_node WeightType.rweight w x) t f c may d h =
        let (k, hk, hr) = >>=-eq-ok (constant_term x) _ h in
        let (p, hp) = total_at x t x k may d hk in
        (_, >>=-ok (visit rs ldivide generators transpose t x x) _ hp refl)

    total_add :
        (xs : Exprs A K) (t : Bool) (res : Expansion A K)
        → MayTurn ws t
        → are_expandable xs ≡ true
        → HaveConstants xs
        → IsOk (visit_add rs ldivide generators transpose t res xs)
    total_add Exprs.nil t res may d h = (_, refl)
    total_add (Exprs.cons x xs) t res may d h =
        let (dx, dxs) = both_true (is_expandable x) (are_expandable xs) d in
        let (p, hp) = total_at x t x h.0.0 may dx h.0.1 in
        let (v, hv) = total_add xs t (add_here rs res p) may dxs h.1 in
        (v, >>=-ok (visit rs ldivide generators transpose t x x) _ hp hv)

    total_mul :
        (xs : Exprs A K) (res : Expansion A K)
        → are_expandable xs ≡ true
        → HaveConstants xs
        → IsOk (visit_mul rs ldivide generators transpose res xs)
    total_mul Exprs.nil res d h = (_, refl)
    total_mul (Exprs.cons x xs) res d h =
        let (dx, dxs) = both_true (is_expandable x) (are_expandable xs) d in
        let (p, hp) = total_at x false x h.0.0 (λ q. cc) dx h.0.1 in
        let (v, hv) =
          either-IsOk (ws.is_zero (factor_before rs res p xs).constant)
            (ok (factor_before rs res p xs)) _ (_, refl)
            (total_mul xs (factor_before rs res p xs) dxs h.1) in
        (v, >>=-ok (visit rs ldivide generators transpose false x x) _ hp hv)

    total_transposed :
        (xs before : Exprs A K)
        → ws.is_commutative ≡ true
        → are_expandable xs ≡ true
        → HaveConstants xs
        → IsOk (visit_transposed_mul rs ldivide generators transpose before xs)
    total_transposed Exprs.nil before comm d h = (_, refl)
    total_transposed (Exprs.cons x xs) before comm d h =
        let (dx, dxs) = both_true (is_expandable x) (are_expandable xs) d in
        let (r, hr) = total_transposed xs (before +++ Exprs.cons x Exprs.nil) comm dxs h.1 in
        let (p, hp) = total_at x true x h.0.0 (λ q. comm) dx h.0.1 in
        let (u, hu) = factor_after_total rs gentle transpose r p before in
        let (z, hz) = transposition_total rs gentle transpose x in
        let (v, hv) =
          either-IsOk (ws.is_zero r.constant) (ok r)
            (visit rs ldivide generators transpose true x x >>= λ rhs.
              transposition rs transpose x >>= λ z. factor_after rs transpose r rhs before)
            (_, refl)
            (
              u,
              >>=-ok (visit rs ldivide generators transpose true x x) _ hp
                  (>>=-ok (transposition rs transpose x) _ hz hu),
            ) in
        (
          v,
          >>=-ok
              (visit_transposed_mul rs ldivide generators transpose
                (before +++ Exprs.cons x Exprs.nil) xs)
              _ hr hv,
        )

    total_conjunction :
        (xs : Exprs A K) (t : Bool) (res : Expansion A K)
        → ws.is_commutative ≡ true
        → are_expandable xs ≡ true
        → HaveConstants xs
        → IsOk (visit_conjunction rs ldivide generators transpose t res xs)
    total_conjunction Exprs.nil t res comm d h = (_, refl)
    total_conjunction (Exprs.cons x xs) t res comm d h =
        let (dx, dxs) = both_true (is_expandable x) (are_expandable xs) d in
        let (p, hp) = total_at x t x h.0.0 (λ q. comm) dx h.0.1 in
        let (v, hv) = total_conjunction xs t (conjunction rs res p) comm dxs h.1 in
        (v, >>=-ok (visit rs ldivide generators transpose t x x) _ hp hv)

    total_shuffle :
        (xs : Exprs A K) (t : Bool) (res : Expansion A K) (prev : Expr A K)
        → ws.is_commutative ≡ true
        → are_expandable xs ≡ true
        → HaveConstants xs
        → IsOk (visit_shuffle rs ldivide generators transpose t res prev xs)
    total_shuffle Exprs.nil t res prev comm d h = (_, refl)
    total_shuffle (Exprs.cons x xs) t res prev comm d h =
        let (dx, dxs) = both_true (is_expandable x) (are_expandable xs) d in
        let (p, hp) = maybe_total rs gentle transpose t prev in
        let (u, hu) = total_at x t x h.0.0 (λ q. comm) dx h.0.1 in
        let (q, hq) = maybe_total rs gentle transpose t x in
        let (v, hv) =
          total_shuffle xs t (shuffle rs res p u q) (make_shuffle rs prev x) comm dxs h.1 in
        (
          v,
          >>=-ok (maybe_transposition rs transpose t prev) _ hp (
              >>=-ok (visit rs ldivide generators transpose t x x) _ hu
                (>>=-ok (maybe_transposition rs transpose t x) _ hq hv)),
        )

    total_infiltrate :
        (xs : Exprs A K) (t : Bool) (res : Expansion A K) (prev : Expr A K)
        → ws.is_commutative ≡ true
        → are_expandable xs ≡ true
        → HaveConstants xs
        → IsOk (visit_infiltrate rs ldivide generators transpose t res prev xs)
    total_infiltrate Exprs.nil t res prev comm d h = (_, refl)
    total_infiltrate (Exprs.cons x xs) t res prev comm d h =
        let (dx, dxs) = both_true (is_expandable x) (are_expandable xs) d in
        let (p, hp) = maybe_total rs gentle transpose t prev in
        let (u, hu) = total_at x t x h.0.0 (λ q. comm) dx h.0.1 in
        let (q, hq) = maybe_total rs gentle transpose t x in
        let (v, hv) =
          total_infiltrate xs t (infiltrate rs res p u q) (make_infiltrate rs prev x) comm dxs
            h.1 in
        (
          v,
          >>=-ok (maybe_transposition rs transpose t prev) _ hp (
              >>=-ok (visit rs ldivide generators transpose t x x) _ hu
                (>>=-ok (maybe_transposition rs transpose t x) _ hq hv)),
        )

  -- Under the conditions on weights and labels of `to_expansion-denote`, and if the identities are
  -- not `agressive`, every expandable expression whose constant term is computed has an expansion.
  pub to_expansion_total :
      (x : Expr A K) (c : K)
      → is_expandable x ≡ true
      → constant_term x ≡ ok c
      → (v : Expansion A K) × (to_expansion rs ldivide generators transpose x ≡ ok v)
  unfolding to_expansion
  to_expansion_total x c d h = total_at x false x c (λ q. cc) d h
