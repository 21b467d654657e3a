-- ===== src/Weight/B.antt =====
-- The Boolean semiring `b` (vcsn/weightset/b.hh).
use vcsn.Base.{
  ◌≡◌, refl, Bool, true, false, not, ◌&&◌, ◌||◌, Result, ok, Error, require, ℕ, Ordering, compare,
  arith,
}
use vcsn.Weight.{Weightset, IsSemiring}

abbrev pub zero : Bool
zero = false

abbrev pub one : Bool
one = true

abbrev pub is_zero : Bool → Bool
is_zero v = not v

abbrev pub is_one : Bool → Bool
is_one v = v

abbrev pub add : Bool → Bool → Bool
add l r = l || r

unfoldable pub sub : Bool → Bool → Bool
sub l r = l && not r

abbrev pub mul : Bool → Bool → Bool
mul l r = l && r

unfoldable pub lgcd : Bool → Bool → Result Bool
lgcd l r =
    require (not (is_zero l)) Error.invalid_lhs
      (require (not (is_zero r)) Error.invalid_rhs (ok one))

unfoldable pub rgcd : Bool → Bool → Result Bool
unfolding lgcd
rgcd l r = lgcd l r

unfoldable pub rdivide : Bool → Bool → Result Bool
rdivide l r = require (not (is_zero r)) Error.division_by_zero (ok l)

unfoldable pub ldivide : Bool → Bool → Result Bool
unfolding rdivide
ldivide l r = rdivide r l

abbrev pub star : Bool → Result Bool
star v = ok one

abbrev pub transpose : Bool → Bool
transpose v = v

abbrev pub to_int : Bool → ℕ
to_int false = 0
to_int true = 1

-- The sign of `int(l) - int(r)`.
abbrev pub compare_b : Bool → Bool → Ordering
compare_b l r = compare (to_int l) (to_int r)

abbrev pub b : Weightset Bool
b = record {
  zero = zero;
  one = one;
  add = add;
  mul = mul;
  star = star;
  transpose = transpose;
  is_zero = is_zero;
  is_one = is_one;
  is_commutative = true;
  is_bool = true;
  is_b = true;
}

eq_of_compare_b : (l r : Bool) → compare_b l r ≡ Ordering.eq → l ≡ r
eq_of_compare_b l r h = ground arith

-- The operations of `b` are those of a commutative semiring.
pub b-IsSemiring : IsSemiring b
b-IsSemiring = record {
  add_assoc = λ a b c. ground arith;
  add_comm = λ a b. ground arith;
  zero-add = λ a. ground arith;
  add-zero = λ a. ground arith;
  mul_assoc = λ a b c. ground arith;
  one-mul = λ a. ground arith;
  mul-one = λ a. ground arith;
  zero-mul = λ a. ground arith;
  mul-zero = λ a. ground arith;
  mul-add = λ a b c. ground arith;
  add-mul = λ a b c. ground arith;
  mul_comm = λ _ a b. ground arith;
  is_zero-zero = refl;
  eq_of_is_zero = λ a h. ground arith;
  eq_of_is_one = λ a h. ground arith;
  is_zero-one = refl;
  star-zero = refl;
  bool_values = λ _ a. ground arith;
}

-- Where two weights have a greatest common divisor neither is null, it divides both, and the right
-- one is the same.
pub lgcd_divides :
    (l r q : Bool)
    → lgcd l r ≡ ok q
    → (mul q l ≡ l) × (mul q r ≡ r) × (rgcd l r ≡ ok q) × (is_zero l || is_zero r ≡ false)
unfolding lgcd rgcd
lgcd_divides l r q h = ground arith

-- Where a division succeeds the quotient times the divisor is the dividend, the divisor is not
-- null, and the left division with the arguments exchanged is the same.
pub divide-mul :
    (l r q : Bool) → rdivide l r ≡ ok q → (mul q r ≡ l) × (is_zero r ≡ false) × (ldivide r l ≡ ok q)
unfolding rdivide ldivide
divide-mul l r q h = ground arith

-- The star of a weight v is 1 + v v*, and subtracting what was added leaves no more than the sum.
pub star-sub : (l r : Bool) → (star l ≡ ok (add one (mul l one))) × (mul (sub (add l r) r) r ≡ zero)
unfolding sub
star-sub l r = ground arith
