-- ===== src/Rat/Order.antt =====
-- The size of an expression (vcsn/core/rat/size.hh) and the order on expressions
-- (vcsn/core/rat/compare.hh). The sizes and the numbers of operands are
-- compared as differences of two `int`, which wrap around.
pub mod Laws
use vcsn.Base.{
  ℕ, zero, suc, ◌+◌, ◌-◌, List, Bool, true, ◌&&◌, compare, compare_int, is_int, Ordering, Compare,
  and_then, lexicographical_cmp,
}
use vcsn.Rat.{Symbol, VariadicType, UnaryType, WeightType, Expr, Exprs}

-- The place of the type of a node in `type_t`.
abbrev pub variadic_rank : VariadicType → ℕ
variadic_rank VariadicType.add = 3
variadic_rank VariadicType.mul = 4
variadic_rank VariadicType.ldivide = 5
variadic_rank VariadicType.conjunction = 6
variadic_rank VariadicType.shuffle = 7
variadic_rank VariadicType.infiltrate = 8
variadic_rank VariadicType.compose = 15

abbrev pub unary_rank : UnaryType → ℕ
unary_rank UnaryType.star = 9
unary_rank UnaryType.transposition = 10
unary_rank UnaryType.complement = 13

abbrev pub weight_rank : WeightType → ℕ
weight_rank WeightType.lweight = 11
weight_rank WeightType.rweight = 12

module _ {L K : Type 0} where
  abbrev pub type_of : Expr L K → ℕ
  type_of Expr.zero = 0
  type_of Expr.one = 1
  type_of (Expr.atom l) = 2
  type_of (Expr.variadic t es) = variadic_rank t
  type_of (Expr.unary t e) = unary_rank t
  type_of (Expr.weight_node t k e) = weight_rank t
  type_of (Expr.name e s) = 16

  abbrev pub num_children : Exprs L K → ℕ
  num_children Exprs.nil = 0
  num_children (Exprs.cons e es) = suc (num_children es)

  unfoldable mutual
    pub size : Expr L K → ℕ
    size Expr.zero = 1
    size Expr.one = 1
    size (Expr.atom l) = 1
    size (Expr.name e s) = size e
    size (Expr.variadic t es) = (num_children es - 1) + sizes es
    size (Expr.unary t e) = suc (size e)
    size (Expr.weight_node t k e) = suc (size e)

    pub sizes : Exprs L K → ℕ
    sizes Exprs.nil = 0
    sizes (Exprs.cons e es) = size e + sizes es

  -- Whether all the sizes and all the numbers of operands in the expression fit `int`.
  abbrev mutual
    pub is_small : Expr L K → Bool
    is_small (Expr.name e s) = is_int (size e) && is_small e
    is_small (Expr.variadic t es) =
        is_int (size (Expr.variadic t es)) && (is_int (num_children es) && are_small es)
    is_small (Expr.unary t e) = is_int (size (Expr.unary t e)) && is_small e
    is_small (Expr.weight_node t k e) = is_int (size (Expr.weight_node t k e)) && is_small e
    is_small _ = true

    pub are_small : Exprs L K → Bool
    are_small Exprs.nil = true
    are_small (Exprs.cons e es) = is_small e && are_small es

-- The comparison of labels, of weights and of names.
pub record Keys (L K : Type 0) : Type 0 where
  pub labels : Compare L
  pub weights : Compare K

abbrev pub compare_symbol : Symbol → Symbol → Ordering
compare_symbol s t = lexicographical_cmp compare s t

module _ {L K : Type 0} (keys : Keys L K) where
  -- `compare` does the sizes and the types, and then asks for the nodes of one type.
  abbrev pub compare_types : Expr L K → Expr L K → Ordering → Ordering
  compare_types l r same =
      and_then (compare_int (size l) (size r)) (and_then (compare (type_of l) (type_of r)) same)

  unfoldable mutual
    -- The comparison of two nodes of the same type.
    pub cmp_nodes : Expr L K → Expr L K → Ordering
    cmp_nodes (Expr.atom l) (Expr.atom m) = keys.labels.cmp l m
    cmp_nodes (Expr.name e s) (Expr.name f t) =
        and_then (compare_types e f (cmp_nodes e f)) (compare_symbol s t)
    cmp_nodes (Expr.variadic t es) (Expr.variadic u fs) =
        and_then (compare_int (num_children es) (num_children fs)) (compare_children es fs)
    cmp_nodes (Expr.unary t e) (Expr.unary u f) = compare_types e f (cmp_nodes e f)
    cmp_nodes (Expr.weight_node t k e) (Expr.weight_node u h f) =
        and_then (compare_types e f (cmp_nodes e f)) (keys.weights.cmp k h)
    cmp_nodes _ _ = Ordering.eq

    pub compare_children : Exprs L K → Exprs L K → Ordering
    compare_children Exprs.nil Exprs.nil = Ordering.eq
    compare_children Exprs.nil (Exprs.cons f fs) = Ordering.lt
    compare_children (Exprs.cons e es) Exprs.nil = Ordering.gt
    compare_children (Exprs.cons e es) (Exprs.cons f fs) =
        and_then (compare_types e f (cmp_nodes e f)) (compare_children es fs)

  unfoldable pub compare_expr : Expr L K → Expr L K → Ordering
  compare_expr l r = compare_types l r (cmp_nodes l r)
