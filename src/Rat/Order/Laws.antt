-- ===== src/Rat/Order/Laws.antt =====
-- What the comparison of expressions says of equal expressions and of exchanged arguments.
use vcsn.Base.{
  Bool, true, ◌&&◌, is_int, compare_int, compare_int-Reverses, Reverses, and_then-Reverses,
  Reverses-weaken, flip-Reverses, flip_of_Reverses, Comparison, ℕ, ◌≡◌, refl, ap, ap₂, compare,
  Ordering, Compare, flip, flip-compare, eq_of_compare, eq_of_and_then, eq_of_lexicographical_cmp,
  flip-lexicographical_cmp, arith,
}
use vcsn.Rat.{Symbol, VariadicType, UnaryType, WeightType, Expr, Exprs}
use vcsn.Rat.Order.{
  is_small, are_small, Keys, type_of, size, num_children, compare_symbol, compare_types, cmp_nodes,
  compare_children, compare_expr, variadic_rank, unary_rank, weight_rank,
}

numbers : Compare ℕ
numbers = record { cmp = compare; eq_of_cmp = eq_of_compare; flip-cmp = flip-compare }

eq_of_compare_symbol : (s t : Symbol) → compare_symbol s t ≡ Ordering.eq → s ≡ t
unfolding numbers
eq_of_compare_symbol s t h = eq_of_lexicographical_cmp numbers s t h

flip-compare_symbol : (s t : Symbol) → compare_symbol t s ≡ flip (compare_symbol s t)
unfolding numbers
flip-compare_symbol s t = flip-lexicographical_cmp numbers s t

variadic_rank-injective : (t u : VariadicType) → variadic_rank t ≡ variadic_rank u → t ≡ u
variadic_rank-injective t u h = ground arith

unary_rank-injective : (t u : UnaryType) → unary_rank t ≡ unary_rank u → t ≡ u
unary_rank-injective t u h = ground arith

weight_rank-injective : (t u : WeightType) → weight_rank t ≡ weight_rank u → t ≡ u
weight_rank-injective t u h = ground arith

conjuncts : (a b : Bool) → (a && b) ≡ true → (a ≡ true) × (b ≡ true)
conjuncts a b h = ground arith

-- Two conjunctions of which the first, or the second, parts are wanted.
firsts : (a b c d : Bool) → ((a && b) && (c && d)) ≡ true → (a && c) ≡ true
firsts a b c d h = ground arith

seconds : (a b c d : Bool) → ((a && b) && (c && d)) ≡ true → (b && d) ≡ true
seconds a b c d h = ground arith

module _ {L K : Type 0} (keys : Keys L K) where
  -- What an equal comparison says of the types and of the nodes.
  equal_parts :
      (l r : Expr L K) (same : Ordering)
      → compare_types keys l r same ≡ Ordering.eq
      → (type_of l ≡ type_of r) × (same ≡ Ordering.eq)
  equal_parts l r same h =
      let rest = (eq_of_and_then (compare_int (size l) (size r)) _ h).1 in
      let parts = eq_of_and_then (compare (type_of l) (type_of r)) same rest in
      (eq_of_compare _ _ parts.0, parts.1)

  weight_node_path :
      {v u : WeightType} {k g : K} {e f : Expr L K}
      → v ≡ u
      → k ≡ g
      → e ≡ f
      → Expr.weight_node v k e ≡ Expr.weight_node u g f
  weight_node_path p q r = λ i. Expr.weight_node (p i) (q i) (r i)

  mutual
    unfolding cmp_nodes compare_children

    eq_of_nodes :
        (l r : Expr L K) → type_of l ≡ type_of r → cmp_nodes keys l r ≡ Ordering.eq → l ≡ r
    eq_of_nodes Expr.zero Expr.zero t h = refl
    eq_of_nodes Expr.one Expr.one t h = refl
    eq_of_nodes (Expr.atom l) (Expr.atom m) t h = ap Expr.atom (keys.labels.eq_of_cmp l m h)
    eq_of_nodes (Expr.name e s) (Expr.name f u) t h =
        let both = eq_of_and_then (compare_types keys e f (cmp_nodes keys e f)) _ h in
        let parts = equal_parts e f _ both.0 in
        ap₂ Expr.name (eq_of_nodes e f parts.0 parts.1) (eq_of_compare_symbol s u both.1)
    eq_of_nodes (Expr.variadic v es) (Expr.variadic u fs) t h =
        let both = eq_of_and_then (compare_int (num_children es) (num_children fs)) _ h in
        ap₂ Expr.variadic (variadic_rank-injective v u t) (eq_of_children es fs both.1)
    eq_of_nodes (Expr.unary v e) (Expr.unary u f) t h =
        let parts = equal_parts e f _ h in
        ap₂ Expr.unary (unary_rank-injective v u t) (eq_of_nodes e f parts.0 parts.1)
    eq_of_nodes (Expr.weight_node v k e) (Expr.weight_node u g f) t h =
        let both = eq_of_and_then (compare_types keys e f (cmp_nodes keys e f)) _ h in
        let parts = equal_parts e f _ both.0 in
        weight_node_path (weight_rank-injective v u t) (keys.weights.eq_of_cmp k g both.1)
          (eq_of_nodes e f parts.0 parts.1)
    eq_of_nodes _ _ t h = ground arith

    eq_of_children : (es fs : Exprs L K) → compare_children keys es fs ≡ Ordering.eq → es ≡ fs
    eq_of_children Exprs.nil Exprs.nil h = refl
    eq_of_children Exprs.nil (Exprs.cons f fs) h = cc
    eq_of_children (Exprs.cons e es) Exprs.nil h = cc
    eq_of_children (Exprs.cons e es) (Exprs.cons f fs) h =
        let both = eq_of_and_then (compare_types keys e f (cmp_nodes keys e f)) _ h in
        let parts = equal_parts e f _ both.0 in
        ap₂ Exprs.cons (eq_of_nodes e f parts.0 parts.1) (eq_of_children es fs both.1)

  size_of_small : (e : Expr L K) → is_small e ≡ true → is_int (size e) ≡ true
  unfolding size
  size_of_small Expr.zero h = refl
  size_of_small Expr.one h = refl
  size_of_small (Expr.atom l) h = refl
  size_of_small (Expr.name e s) h = (conjuncts (is_int (size e)) (is_small e) h).0
  size_of_small (Expr.variadic t es) h =
      (conjuncts (is_int (size (Expr.variadic t es))) (is_int (num_children es) && are_small es)
        h).0
  size_of_small (Expr.unary t e) h = (conjuncts (is_int (size (Expr.unary t e))) (is_small e) h).0
  size_of_small (Expr.weight_node t k e) h =
      (conjuncts (is_int (size (Expr.weight_node t k e))) (is_small e) h).0

  -- The sizes and the types first, then the nodes.
  types-Reverses :
      (small : Bool) (l r : Expr L K)
      → (small ≡ true → (is_small l && is_small r) ≡ true)
      → Reverses (is_small l && is_small r) (cmp_nodes keys l r) (cmp_nodes keys r l)
      → Reverses small
          (compare_types keys l r (cmp_nodes keys l r))
          (compare_types keys r l (cmp_nodes keys r l))
  types-Reverses small l r w h =
      and_then-Reverses small (compare_int (size l) (size r)) (compare_int (size r) (size l)) _ _
        (Reverses-weaken (is_int (size l) && is_int (size r)) small _ _
          (λ k. ground (arith, w k, size_of_small l, size_of_small r))
          (compare_int-Reverses (size l) (size r)))
        (and_then-Reverses small (compare (type_of l) (type_of r)) (compare (type_of r) (type_of l))
          _ _ (flip-Reverses small _ _ (flip-compare (type_of l) (type_of r)))
          (Reverses-weaken _ small _ _ w h))

  mutual
    unfolding cmp_nodes compare_children

    nodes-Reverses :
        (l r : Expr L K)
        → Reverses (is_small l && is_small r) (cmp_nodes keys l r) (cmp_nodes keys r l)
    nodes-Reverses Expr.zero Expr.zero = tt
    nodes-Reverses Expr.one Expr.one = tt
    nodes-Reverses (Expr.atom l) (Expr.atom m) = flip-Reverses true _ _ (keys.labels.flip-cmp l m)
    nodes-Reverses (Expr.name e s) (Expr.name f u) =
        let small = is_small (Expr.name e s) && is_small (Expr.name f u) in
        and_then-Reverses small _ _ (compare_symbol s u) (compare_symbol u s)
          (types-Reverses small e f (seconds (is_int (size e)) _ (is_int (size f)) _)
            (nodes-Reverses e f))
          (flip-Reverses small _ _ (flip-compare_symbol s u))
    nodes-Reverses (Expr.variadic v es) (Expr.variadic u fs) =
        let small = is_small (Expr.variadic v es) && is_small (Expr.variadic u fs) in
        and_then-Reverses small _ _ _ _
          (Reverses-weaken _ small _ _
            (λ h.
              firsts (is_int (num_children es)) (are_small es) (is_int (num_children fs))
                (are_small fs)
                (seconds (is_int (size (Expr.variadic v es))) _ (is_int (size (Expr.variadic u fs)))
                  _ h))
            (compare_int-Reverses (num_children es) (num_children fs)))
          (Reverses-weaken (are_small es && are_small fs) small _ _
            (λ h.
              seconds (is_int (num_children es)) (are_small es) (is_int (num_children fs))
                (are_small fs)
                (seconds (is_int (size (Expr.variadic v es))) _ (is_int (size (Expr.variadic u fs)))
                  _ h))
            (children-Reverses es fs))
    nodes-Reverses (Expr.unary v e) (Expr.unary u f) =
        types-Reverses (is_small (Expr.unary v e) && is_small (Expr.unary u f)) e f
          (seconds (is_int (size (Expr.unary v e))) _ (is_int (size (Expr.unary u f))) _)
          (nodes-Reverses e f)
    nodes-Reverses (Expr.weight_node v k e) (Expr.weight_node u g f) =
        let small = is_small (Expr.weight_node v k e) && is_small (Expr.weight_node u g f) in
        and_then-Reverses small _ _ (keys.weights.cmp k g) (keys.weights.cmp g k)
          (types-Reverses small e f
            (seconds (is_int (size (Expr.weight_node v k e))) _
              (is_int (size (Expr.weight_node u g f))) _)
            (nodes-Reverses e f))
          (flip-Reverses small _ _ (keys.weights.flip-cmp k g))
    nodes-Reverses _ _ = tt

    children-Reverses :
        (es fs : Exprs L K)
        → Reverses
            (are_small es && are_small fs)
            (compare_children keys es fs)
            (compare_children keys fs es)
    children-Reverses Exprs.nil Exprs.nil = tt
    children-Reverses Exprs.nil (Exprs.cons f fs) = tt
    children-Reverses (Exprs.cons e es) Exprs.nil = tt
    children-Reverses (Exprs.cons e es) (Exprs.cons f fs) =
        let small = are_small (Exprs.cons e es) && are_small (Exprs.cons f fs) in
        and_then-Reverses small _ _ (compare_children keys es fs) (compare_children keys fs es)
          (types-Reverses small e f (firsts (is_small e) (are_small es) (is_small f) (are_small fs))
            (nodes-Reverses e f))
          (Reverses-weaken (are_small es && are_small fs) small _ _
            (seconds (is_small e) (are_small es) (is_small f) (are_small fs))
            (children-Reverses es fs))

  -- Expressions that compare equal are the same, where labels and weights are compared lawfully.
  pub eq_of_compare_expr : (l r : Expr L K) → compare_expr keys l r ≡ Ordering.eq → l ≡ r
  unfolding compare_expr
  eq_of_compare_expr l r h = let parts = equal_parts l r _ h in eq_of_nodes l r parts.0 parts.1

  -- The comparison with its arguments exchanged, where large sizes may make both less.
  pub compare_expr-Reverses :
      (l r : Expr L K)
      → Reverses (is_small l && is_small r) (compare_expr keys l r) (compare_expr keys r l)
  unfolding compare_expr
  compare_expr-Reverses l r = types-Reverses _ l r (λ h. h) (nodes-Reverses l r)

  -- Exchanging the arguments of the comparison of expressions reverses its result, where labels
  -- and weights are compared lawfully and all sizes and numbers of operands in the expressions are
  -- below 2^31.
  pub flip-compare_expr :
      (l r : Expr L K)
      → is_small l ≡ true
      → is_small r ≡ true
      → compare_expr keys r l ≡ flip (compare_expr keys l r)
  flip-compare_expr l r h k =
      flip_of_Reverses _ _ (Reverses-weaken _ true _ _ (λ t. rw (h, k)) (compare_expr-Reverses l r))

-- The order of the expressions, which the sets and the maps of expressions are sorted by.
abbrev pub expression_order : {L K : Type 0} → Keys L K → Comparison (Expr L K)
expression_order keys = record { cmp = compare_expr keys; eq_of_cmp = eq_of_compare_expr keys }
