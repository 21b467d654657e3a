-- ===== src/Examples.antt =====
-- Concrete runs of the code, and the theorems applied to concrete expressions over characters.
mod Automata
mod Expansions
use vcsn.Base.{
  raise, Error, ◌++◌, ◌<◌, ◌+◌, ◌-◌, ◌^◌, ◌⊎◌, ◌||◌, leb, if◌then◌else◌, arith, lexicographical_cmp,
  flip, flip-compare, ◌≡◌, refl, ℕ, List, [], ◌∷◌, Bool, true, false, ok, Ordering, ◌↔◌, ◌==◌, ltb,
  compare_int,
}
use vcsn.Weight.{Weightset}
use vcsn.Weight.B as B
use vcsn.Weight.F2 as F2
use vcsn.Weight.Nmin as Nmin
use vcsn.Weight.Tropical.{cheaper, chain, infinite}
use vcsn.Series.{
  derive, zeros, plus, product, hadamard, shuffled, infiltrated, repeated, left_scale, right_scale,
}
use vcsn.Label.Letters.{
  letters_eq, letters_compare, letterset, letterset-IsLabelset, less_word, less_word_total,
  less_word_asym,
}
use vcsn.Label.Chars as Chars
use vcsn.Label.Chars.{
  mul_letters, mul_letter_word, mul_word_letter, word_of, mul-append, delimit, undelimit,
}
use vcsn.Poly as Poly
use vcsn.Poly.{
  lweight as lweight_poly, rmul_label, add_here, add_images, add_all, set_weight, find, set, erase,
}
use vcsn.Poly.Laws as PolyLaws
use vcsn.Poly.Reduced.{IsReduced, add_here-IsReduced}
use vcsn.Rat.{VariadicType, UnaryType, Expr, Exprs, is_zero}
use vcsn.Rat.Identities.{Identities}
use vcsn.Rat.Order.{Keys, compare_expr, cmp_nodes, size}
use vcsn.Rat.Order.Laws.{eq_of_compare_expr, flip-compare_expr}
use vcsn.Rat.Denote.{Meaning, denote}
use vcsn.Rat.Constant.{constant_term, is_valid}
use vcsn.Rat.Constant.Laws.{constant_term-denote}
use vcsn.Rat.Make.{ExpressionSet, lweight, rweight}
use vcsn.Rat.Make.Weights.{denote-lweight, denote-rweight, denote-is_zero}
use vcsn.Rat.Make.Add.{add, gather}
use vcsn.Rat.Make.Add.Laws.{denote-add}
use vcsn.Rat.Make.Mul.{mul, mul_right}
use vcsn.Rat.Make.Mul.Laws.{denote-mul}
use vcsn.Rat.Make.Product.{conjunction, shuffle, infiltrate, make_power}
use vcsn.Rat.Make.Product.Laws.{denote-conjunction, denote-shuffle-infiltrate}
use vcsn.Rat.Make.Product.Power.{denote-make_power}
use vcsn.Rat.Make.Unary.{make_star}
use vcsn.Rat.Make.Unary.Laws.{make_star_starrable, denote-make_star}
use vcsn.Rat.Derivation.{derivation, expression_labels}
use vcsn.Rat.Derivation.Laws.{derivation-derive}
use vcsn.Rat.Derivation.Total.{derivation_total}

instance abbrev booleans : Weightset Bool
booleans = B.b

abbrev Exp : Type 0
Exp = Expr ℕ Bool

-- Words over the letters; the quotient and the composition are any operations.
abbrev words : Meaning ℕ ℕ Bool
words = record { letters = λ l. l ∷ []; quotient = λ f g. g; composite = λ f g. f }

eq_of_compare_b : (l r : Bool) → B.compare_b l r ≡ Ordering.eq → l ≡ r
eq_of_compare_b false false h = refl
eq_of_compare_b false true h = cc
eq_of_compare_b true false h = cc
eq_of_compare_b true true h = refl

flip-compare_b : (l r : Bool) → B.compare_b r l ≡ flip (B.compare_b l r)
flip-compare_b l r = flip-compare (B.to_int l) (B.to_int r)

abbrev keys : Keys ℕ Bool
keys = record {
  labels = letters_compare;
  weights = record { cmp = B.compare_b; eq_of_cmp = eq_of_compare_b; flip-cmp = flip-compare_b };
}

abbrev linear : ExpressionSet ℕ Bool
linear = record { identities = Identities.linear; labels = letterset; keys = keys }

abbrev distributive : ExpressionSet ℕ Bool
distributive = record { identities = Identities.distributive; labels = letterset; keys = keys }

abbrev a : Exp
a = Expr.atom 97

abbrev b : Exp
b = Expr.atom 98

-- a*
abbrev a_star : Exp
a_star = Expr.unary UnaryType.star a

-- a + b
abbrev a_or_b : Exp
a_or_b = Expr.variadic VariadicType.add (Exprs.cons a (Exprs.cons b Exprs.nil))

-- a*b
abbrev a_star_b : Exp
a_star_b = Expr.variadic VariadicType.mul (Exprs.cons a_star (Exprs.cons b Exprs.nil))

abbrev poly_labels : Poly.Labels Exp
poly_labels = expression_labels linear

-- The polynomial a.
abbrev poly_a : Poly.Polynomial Exp Bool
poly_a = record { label = a; weight = true } ∷ []

zero_label : (x : Exp) → is_zero x ≡ true → denote words x ≡ zeros
zero_label x h = denote-is_zero words x h

one_is_free : (l : ℕ) → letterset.is_one l ≡ false
one_is_free l = refl

-- The polynomial 1.
abbrev poly_one : Poly.Polynomial Exp Bool
poly_one = record { label = Expr.one; weight = true } ∷ []

-- a*b derived by b is 1.
derivation-a_star_b : derivation linear B.ldivide 98 a_star_b ≡ ok poly_one
unfolding derivation constant_term mul mul_right rmul_label lweight_poly add_here add_images add_all
    set_weight find set erase gather lweight rweight
derivation-a_star_b = refl

derivation-derive_example :
    PolyLaws.value (denote words) poly_one ≡ derive 98 (denote words a_star_b)
derivation-derive_example =
    derivation-derive words B.b-IsSemiring linear B.ldivide one_is_free (λ l. refl)
      letterset-IsLabelset 98 a_star_b poly_one refl derivation-a_star_b

derivation_total_example :
    (v : Poly.Polynomial Exp Bool) × (derivation linear B.ldivide 97 a_star_b ≡ ok v)
derivation_total_example =
    derivation_total linear B.ldivide 97 a_star_b false refl constant_a_star_b
  where
    constant_a_star_b : constant_term a_star_b ≡ ok false
    constant_a_star_b = unfold constant_term in refl

constant_a_star : constant_term a_star ≡ ok true
unfolding constant_term
constant_a_star = refl

constant_term-denote_example : denote words a_star [] ≡ true
constant_term-denote_example =
    constant_term-denote words B.b-IsSemiring letterset letterset-IsLabelset a_star true refl
      constant_a_star

denote-add_example :
    denote words (add linear a_or_b a_star) ≡ plus (denote words a_or_b) (denote words a_star)
denote-add_example = denote-add words B.b-IsSemiring linear a_or_b a_star

denote-mul_example :
    denote words (mul distributive a_or_b a_star_b)
    ≡ product (denote words a_or_b) (denote words a_star_b)
denote-mul_example = denote-mul words B.b-IsSemiring distributive a_or_b a_star_b

denote-conjunction_example :
    denote words (conjunction linear a_star a) ≡ hadamard (denote words a_star) (denote words a)
denote-conjunction_example =
    denote-conjunction words B.b-IsSemiring linear letterset-IsLabelset a_star a tt refl

denote-shuffle-infiltrate_example :
    (denote words (shuffle linear a_star b) ≡ shuffled (denote words a_star) (denote words b))
    × (denote words (infiltrate linear a_star b)
        ≡ infiltrated (denote words a_star) (denote words b))
denote-shuffle-infiltrate_example = denote-shuffle-infiltrate words B.b-IsSemiring linear a_star b

denote-make_power_example :
    denote words (make_power linear a_or_b 3) ≡ repeated (denote words a_or_b) 3
denote-make_power_example = denote-make_power words B.b-IsSemiring linear a_or_b 3

made_star : make_star distributive a_or_b ≡ ok (Expr.unary UnaryType.star a_or_b)
unfolding make_star is_valid constant_term
made_star = refl

constant_a_or_b : constant_term a_or_b ≡ ok false
unfolding constant_term
constant_a_or_b = refl

make_star_starrable_example :
    ((s : Bool)
      → B.star false ≡ ok s
      → (x : Exp) × (make_star distributive a_or_b ≡ ok x) × (constant_term x ≡ ok s))
    × (B.star false ≡ raise Error.not_starrable
        → make_star distributive a_or_b ≡ raise Error.not_starrable)
make_star_starrable_example =
    make_star_starrable distributive B.b-IsSemiring a_or_b false refl constant_a_or_b

denote-make_star_example :
    denote words (Expr.unary UnaryType.star a_or_b)
    ≡ denote words (Expr.unary UnaryType.star a_or_b)
denote-make_star_example =
    denote-make_star words B.b-IsSemiring distributive a_or_b (Expr.unary UnaryType.star a_or_b)
      refl made_star

value-add_here_example :
    PolyLaws.value (denote words) (Poly.add_here poly_labels poly_a b true)
    ≡ plus (left_scale true (denote words b)) (PolyLaws.value (denote words) poly_a)
value-add_here_example =
    PolyLaws.value-add_here B.b-IsSemiring (denote words) poly_labels zero_label poly_a b true

add_here-IsReduced_example : IsReduced (Poly.add_here poly_labels poly_a a false)
add_here-IsReduced_example = add_here-IsReduced poly_labels poly_a a false (refl, tt)

eq_of_compare_expr_example : a_star_b ≡ a_star_b
eq_of_compare_expr_example = eq_of_compare_expr keys a_star_b a_star_b same
  where
    same : compare_expr keys a_star_b a_star_b ≡ Ordering.eq
    same = unfold compare_expr cmp_nodes size in refl

flip-compare_expr_example :
    compare_expr keys a_star_b a_or_b ≡ flip (compare_expr keys a_or_b a_star_b)
flip-compare_expr_example =
    flip-compare_expr keys a_or_b a_star_b (unfold size in refl) (unfold size in refl)

abbrev one_letter : List ℕ
one_letter = 97 ∷ []

star-sub_example :
    (B.star true ≡ ok (B.add B.one (B.mul true B.one)))
    × (B.mul (B.sub (B.add true false) false) false ≡ B.zero)
star-sub_example = B.star-sub true false

star_iff_example : (F2.star false ≡ ok true) ↔ (true ≡ F2.add F2.one (F2.mul false true))
star_iff_example = F2.star_iff false true

-- The sizes 0 and 2^31 are each less than the other.
overflow : (compare_int 0 (2 ^ 31) ≡ Ordering.lt) × (compare_int (2 ^ 31) 0 ≡ Ordering.lt)
overflow = (refl, refl)

add-mul_refine_example :
    Nmin.IsWeight (Nmin.add 3 5)
    × (Nmin.to_cost (Nmin.add 3 5) ≡ cheaper (Nmin.to_cost 3) (Nmin.to_cost 5))
    × Nmin.IsWeight (Nmin.mul 3 5)
    × (Nmin.to_cost (Nmin.mul 3 5) ≡ chain (Nmin.to_cost 3) (Nmin.to_cost 5))
add-mul_refine_example = Nmin.add-mul_refine 3 5 (omega arith) (omega arith) refl

mul_wraps_example :
    ((4294967290 + 10 ≡ Nmin.zero) × (Nmin.to_cost (Nmin.mul 4294967290 10) ≡ infinite))
    ⊎ ((Nmin.mul 4294967290 10 < 4294967290) × (Nmin.mul 4294967290 10 < 10))
mul_wraps_example = Nmin.mul_wraps 4294967290 10 (omega arith) (omega arith) (omega arith)

compare-less_example : Nmin.compare_nmin 2147483648 0 ≡ (
    if 2147483648 == 0
    then Ordering.eq
    else if Nmin.less 2147483648 0
    then (if leb (0 - 2147483648) (2 ^ 31) then Ordering.lt else Ordering.gt)
    else if ltb (2147483648 - 0) (2 ^ 31)
    then Ordering.gt
    else Ordering.lt)
compare-less_example = Nmin.compare-less 2147483648 0 (omega arith) (omega arith)

rdivide-mul_example : (Nmin.mul 2 3 ≡ 5) × (Nmin.ldivide 3 5 ≡ ok 2) × (Nmin.star 2 ≡ ok Nmin.one)
rdivide-mul_example = Nmin.rdivide-mul 5 3 2 (omega arith) (omega arith) computed
  where
    computed : Nmin.rdivide 5 3 ≡ ok 2
    computed = unfold Nmin.rdivide in refl

mul-append_example :
    (mul_letters 0 98 ≡ Chars.one_letter ∷ [])
    × (mul_letter_word 0 (98 ∷ []) ≡ word_of 0 ++ (98 ∷ []))
    × (mul_word_letter (98 ∷ []) 98 ≡ (98 ∷ []) ++ word_of 98)
mul-append_example = mul-append 0 98 (98 ∷ [])
