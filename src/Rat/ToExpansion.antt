-- ===== src/Rat/ToExpansion.antt =====
-- The expansion of an expression (vcsn/algos/to-expansion.hh). The labelset is letterized and has no
-- label one, so that the quotients raise. The debugging variables of the environment, such as
-- VCSN_NAIVE_MUL, are not set.
pub mod Turned
pub mod Expandable
pub mod Factors
pub mod Steps
pub mod Nodes
pub mod Rounds
pub mod Laws
pub mod Total
pub mod Derived
use vcsn.Base.{
  List, [], ◌∷◌, Bool, true, false, not, Result, ok, raise, Error, ◌>>=◌, if◌then◌else◌,
}
use vcsn.Weight.{Weightset, ◌⊗◌}
use vcsn.Poly.{Polynomial, set, rmul_label}
use vcsn.Poly.{lweight as weighted_polynomial}
use vcsn.Rat.{VariadicType, UnaryType, WeightType, Expr, Exprs, ◌+++◌}
use vcsn.Rat.Make.{ExpressionSet}
use vcsn.Rat.Make.Mul.{mul}
use vcsn.Rat.Make.Product.{shuffle as make_shuffle}
use vcsn.Rat.Make.Product.{infiltrate as make_infiltrate}
use vcsn.Rat.Make.Transposition.{make_transposition}
use vcsn.Rat.Derivation.{expression_labels, prod}
use vcsn.Rat.Expansion.{
  Polys, Expansion, for_each, zero, one, atom, add_at, add_here, lweight, rweight, rmul_label_here,
  conjunction, shuffle, infiltrate, complement,
}

module _ {L K : Type 0} ⦃ws : Weightset K⦄ (rs : ExpressionSet L K) where
  -- The monomials of the next factor, each with what is left of the product on its right.
  unfoldable pub with_rest : Expansion L K → Expr L K → Expansion L K
  with_rest rhs rhss = record (rmul_label_here rs (record rhs { constant = ws.zero }) rhss) {
    constant = rhs.constant;
  }

  -- `for (const auto& p: rhs.polynomials) ps_.add_here(...)`, and the new constant.
  unfoldable pub add_factor : Expansion L K → Expansion L K → Expansion L K
  add_factor res rhs = record {
    constant = res.constant ⊗ rhs.constant;
    polynomials =
        for_each
          (λ v l p. add_at rs v l (weighted_polynomial (expression_labels rs) res.constant p))
          res.polynomials rhs.polynomials;
  }

  -- The factor `rhs`, before the factors `rest`.
  abbrev pub factor_before : Expansion L K → Expansion L K → Exprs L K → Expansion L K
  factor_before res rhs Exprs.nil = add_factor res rhs
  factor_before res rhs (Exprs.cons y ys) = add_factor res (with_rest rhs (prod (Exprs.cons y ys)))

  -- The expansion of `f`, a star, from that of its operand and its constant.
  unfoldable pub star_expansion : K → Expansion L K → Expr L K → Expansion L K
  star_expansion c x f = record {
    constant = c;
    polynomials =
        for_each
          (λ v l p. set rs.keys.labels.cmp v l (
            weighted_polynomial (expression_labels rs) c
              (rmul_label (expression_labels rs) (mul rs) p f)))
          [] x.polynomials;
  }

  abbrev pub lweight_of : Bool → K → Expansion L K → Expansion L K
  lweight_of true k x = rweight rs x (ws.transpose k)
  lweight_of false k x = lweight rs k x

  abbrev pub rweight_of : Bool → K → Expansion L K → Expansion L K
  rweight_of true k x = lweight rs (ws.transpose k) x
  rweight_of false k x = rweight rs x k

module _ {L K : Type 0} ⦃ws : Weightset K⦄ (rs : ExpressionSet L K)
    (transpose : Expr L K → Result (Expr L K)) where
  -- `rs_.transposition(e)`
  abbrev pub transposition : Expr L K → Result (Expr L K)
  transposition e = make_transposition rs (transpose e) e

  -- `transposed_ ? rs_.transposition(e) : e`
  abbrev pub maybe_transposition : Bool → Expr L K → Result (Expr L K)
  maybe_transposition true e = transposition e
  maybe_transposition false e = ok e

  -- The factor `rhs` of a transposed product, where `before` are the factors on its left.
  abbrev pub factor_after : Expansion L K → Expansion L K → Exprs L K → Result (Expansion L K)
  factor_after res rhs Exprs.nil = ok (add_factor rs res rhs)
  factor_after res rhs (Exprs.cons y ys) = transposition (prod (Exprs.cons y ys)) >>= λ rhss.
      ok (add_factor rs res (with_rest rs rhs rhss))

  abbrev pub star_of : Bool → Expansion L K → K → Expr L K → Result (Expansion L K)
  star_of false x c f = ok (star_expansion rs c x f)
  star_of true x c f = transposition f >>= λ g. ok (star_expansion rs (ws.transpose c) x g)

module _ {L K : Type 0} ⦃ws : Weightset K⦄ (rs : ExpressionSet L K) (ldivide : K → K → Result K)
    (generators : List L) (transpose : Expr L K → Result (Expr L K)) where
  unfoldable mutual
    -- The visit of a node: `t` is `transposed_`, and `f` is what `me` gives, the node or its name.
    pub visit : Bool → Expr L K → Expr L K → Result (Expansion L K)
    visit t f Expr.zero = ok (zero rs)
    visit t f Expr.one = ok (one rs)
    visit t f (Expr.atom l) = ok (atom rs (if t then rs.labels.transpose l else l))
    visit t f (Expr.name e s) = visit t f e
    visit t f (Expr.variadic VariadicType.add es) = visit_add t (zero rs) es
    visit false f (Expr.variadic VariadicType.mul es) = visit_mul (one rs) es
    visit true f (Expr.variadic VariadicType.mul es) = visit_transposed_mul Exprs.nil es
    visit t f (Expr.variadic VariadicType.conjunction Exprs.nil) = raise Error.invalid_arguments
    visit t f (Expr.variadic VariadicType.conjunction (Exprs.cons e es)) =
        visit t e e >>= λ res. visit_conjunction t res es
    visit t f (Expr.variadic VariadicType.shuffle Exprs.nil) = raise Error.invalid_arguments
    visit t f (Expr.variadic VariadicType.shuffle (Exprs.cons e es)) =
        visit t e e >>= λ res. visit_shuffle t res e es
    visit t f (Expr.variadic VariadicType.infiltrate Exprs.nil) = raise Error.invalid_arguments
    visit t f (Expr.variadic VariadicType.infiltrate (Exprs.cons e es)) =
        visit t e e >>= λ res. visit_infiltrate t res e es
    visit t f (Expr.variadic VariadicType.compose es) = raise Error.unsupported
    visit t f (Expr.variadic VariadicType.ldivide Exprs.nil) = raise Error.invalid_arguments
    visit t f (Expr.variadic VariadicType.ldivide (Exprs.cons e es)) =
        visit false e e >>= λ lhs. visit_ldivide es
    visit t f (Expr.unary UnaryType.star e) =
        visit t e e >>= λ x. ws.star x.constant >>= λ c. star_of rs transpose t x c f
    visit t f (Expr.unary UnaryType.complement e) =
        visit t e e >>= λ x. complement rs ldivide generators x
    visit t f (Expr.unary UnaryType.transposition e) = visit (not t) e e
    visit t f (Expr.weight_node WeightType.lweight k e) =
        visit t e e >>= λ r. ok (lweight_of rs t k r)
    visit t f (Expr.weight_node WeightType.rweight k e) =
        visit t e e >>= λ l. ok (rweight_of rs t k l)

    pub visit_add : Bool → Expansion L K → Exprs L K → Result (Expansion L K)
    visit_add t res Exprs.nil = ok res
    visit_add t res (Exprs.cons e es) = visit t e e >>= λ v. visit_add t (add_here rs res v) es

    -- The loop over the factors, which ends where the constant is null.
    pub visit_mul : Expansion L K → Exprs L K → Result (Expansion L K)
    visit_mul res Exprs.nil = ok res
    visit_mul res (Exprs.cons e es) = visit false e e >>= λ rhs.
        if ws.is_zero (factor_before rs res rhs es).constant
        then ok (factor_before rs res rhs es)
        else visit_mul (factor_before rs res rhs es) es

    -- The same loop where `transposed_` holds, from the last factor to the first: the factors after
    -- `e` come first, and `before` are those on the left. `r` is the transposed factor, which the code
    -- makes and does not use.
    pub visit_transposed_mul : Exprs L K → Exprs L K → Result (Expansion L K)
    visit_transposed_mul before Exprs.nil = ok (one rs)
    visit_transposed_mul before (Exprs.cons e es) =
        visit_transposed_mul (before +++ Exprs.cons e Exprs.nil) es >>= λ res.
        if ws.is_zero res.constant
        then ok res
        else (visit true e e >>= λ rhs.
            transposition rs transpose e >>= λ r. factor_after rs transpose res rhs before)

    pub visit_conjunction : Bool → Expansion L K → Exprs L K → Result (Expansion L K)
    visit_conjunction t res Exprs.nil = ok res
    visit_conjunction t res (Exprs.cons e es) =
        visit t e e >>= λ v. visit_conjunction t (conjunction rs res v) es

    -- `prev` is the product of the operands that the loop has passed.
    pub visit_shuffle : Bool → Expansion L K → Expr L K → Exprs L K → Result (Expansion L K)
    visit_shuffle t res prev Exprs.nil = ok res
    visit_shuffle t res prev (Exprs.cons e es) = maybe_transposition rs transpose t prev >>= λ p.
        visit t e e >>= λ v. maybe_transposition rs transpose t e >>= λ q.
        visit_shuffle t (shuffle rs res p v q) (make_shuffle rs prev e) es

    pub visit_infiltrate : Bool → Expansion L K → Expr L K → Exprs L K → Result (Expansion L K)
    visit_infiltrate t res prev Exprs.nil = ok res
    visit_infiltrate t res prev (Exprs.cons e es) = maybe_transposition rs transpose t prev >>= λ p.
        visit t e e >>= λ v. maybe_transposition rs transpose t e >>= λ q.
        visit_infiltrate t (infiltrate rs res p v q) (make_infiltrate rs prev e) es

    -- The second operand, and `label_one`, which raises.
    pub visit_ldivide : Exprs L K → Result (Expansion L K)
    visit_ldivide Exprs.nil = raise Error.invalid_arguments
    visit_ldivide (Exprs.cons e es) = visit false e e >>= λ rhs. raise Error.unsupported

  -- `to_expansion(rs, e)`
  unfoldable pub to_expansion : Expr L K → Result (Expansion L K)
  to_expansion e = visit false e e
