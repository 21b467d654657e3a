-- ===== src/Rat/Denote.antt =====
-- The series that an expression denotes: the reference against which the constructors, the constant
-- term and the derivation are proved. Where the weight of the empty word has no star the expression
-- denotes no series; a total function is used here, which takes 0 for the star, and `is_valid` of
-- Constant.antt tells whether every star has a weight. Left quotients and compositions are any two
-- operations on series.
pub mod Variadic
use vcsn.Base.{List, [], Result, ok, raise, Eq}
use vcsn.Weight.{Weightset}
use vcsn.Series.{
  Series, zeros, ones, unit, plus, product, hadamard, shuffled, infiltrated, complemented,
  transposed, starred, single, left_scale, right_scale,
}
use vcsn.Rat.{VariadicType, UnaryType, WeightType, Expr, Exprs}

-- What the expressions are about: the words of the labels, and the meaning of the two operations
-- that no algorithm here looks into.
pub record Meaning (A L K : Type 0) : Type 0 where
  pub letters : L → List A
  pub quotient : Series A K → Series A K → Series A K
  pub composite : Series A K → Series A K → Series A K

-- The star of a weight where there is one.
abbrev pub star_or : {K : Type 0} → Weightset K → Result K → K
star_or ws (ok k) = k
star_or ws (raise e) = ws.zero

module _ {A L K : Type 0} ⦃e : Eq A⦄ ⦃ws : Weightset K⦄ (m : Meaning A L K) where
  abbrev pub combine : VariadicType → Series A K → Series A K → Series A K
  combine VariadicType.add = plus
  combine VariadicType.mul = product
  combine VariadicType.conjunction = hadamard
  combine VariadicType.shuffle = shuffled
  combine VariadicType.infiltrate = infiltrated
  combine VariadicType.compose = m.composite
  combine VariadicType.ldivide = m.quotient

  -- The neutral element, the value of a node with no child.
  abbrev pub neutral : VariadicType → Series A K
  neutral VariadicType.add = zeros
  neutral VariadicType.mul = unit
  neutral VariadicType.conjunction = ones
  neutral VariadicType.shuffle = unit
  neutral VariadicType.infiltrate = unit
  neutral VariadicType.compose = zeros
  neutral VariadicType.ldivide = zeros

  abbrev pub unary_value : UnaryType → Series A K → Series A K
  unary_value UnaryType.star f = starred f (star_or ws (ws.star (f [])))
  unary_value UnaryType.complement f = complemented f
  unary_value UnaryType.transposition f = transposed f

  abbrev pub weight_value : WeightType → K → Series A K → Series A K
  weight_value WeightType.lweight k f = left_scale k f
  weight_value WeightType.rweight k f = right_scale f k

  -- A node with one child has the child's value.
  abbrev pub combine_all : VariadicType → Series A K → Exprs L K → Series A K → Series A K
  combine_all t f Exprs.nil rest = f
  combine_all t f (Exprs.cons y ys) rest = combine t f rest

  unfoldable mutual
    pub denote : Expr L K → Series A K
    denote Expr.zero = zeros
    denote Expr.one = unit
    denote (Expr.atom l) = single (m.letters l)
    denote (Expr.name x s) = denote x
    denote (Expr.variadic t xs) = denotes t xs
    denote (Expr.unary t x) = unary_value t (denote x)
    denote (Expr.weight_node t k x) = weight_value t k (denote x)

    pub denotes : VariadicType → Exprs L K → Series A K
    denotes t Exprs.nil = neutral t
    denotes t (Exprs.cons x xs) = combine_all t (denote x) xs (denotes t xs)
