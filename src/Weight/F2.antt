-- ===== src/Weight/F2.antt =====
-- The field with two elements `f2` (vcsn/weightset/f2.hh).
use vcsn.Base.{
  ◌≡◌, ◌↔◌, refl, Bool, true, false, not, ◌&&◌, Result, ok, raise, Error, require, Ordering,
  compare, arith, if◌then◌else◌,
}
use vcsn.Weight.{Weightset, IsSemiring}
use vcsn.Weight.B.{to_int}

abbrev pub zero : Bool
zero = false

abbrev pub one : Bool
one = true

abbrev pub is_zero : Bool → Bool
is_zero v = not v

abbrev pub is_one : Bool → Bool
is_one v = v

-- `l ^ r`
abbrev pub exclusive_or : Bool → Bool → Bool
exclusive_or l r = if l then not r else r

abbrev pub add : Bool → Bool → Bool
add l r = exclusive_or l r

unfoldable pub sub : Bool → Bool → Bool
sub l r = exclusive_or l r

abbrev pub mul : Bool → Bool → Bool
mul l r = l && r

unfoldable pub rdivide : Bool → Bool → Result Bool
rdivide l r = require (not (is_zero r)) Error.division_by_zero (ok l)

unfoldable pub ldivide : Bool → Bool → Result Bool
unfolding rdivide
ldivide l r = rdivide r l

abbrev pub star : Bool → Result Bool
star v = if not v then ok one else raise Error.not_starrable

abbrev pub transpose : Bool → Bool
transpose v = v

-- The sign of `l - r`.
abbrev pub compare_f2 : Bool → Bool → Ordering
compare_f2 l r = compare (to_int l) (to_int r)

abbrev pub f2 : Weightset Bool
f2 = record {
  zero = zero;
  one = one;
  add = add;
  mul = mul;
  star = star;
  transpose = transpose;
  is_zero = is_zero;
  is_one = is_one;
  is_commutative = true;
  is_bool = true;
  is_b = false;
}

-- A solution of the equation is the star.
solved : (v s : Bool) → s ≡ add one (mul v s) → star v ≡ ok s
solved false true h = refl
solved false false h = cc
solved true true h = cc
solved true false h = cc

-- The operations of `f2` are those of a commutative semiring.
f2-IsSemiring : IsSemiring f2
f2-IsSemiring = record {
  add_assoc = λ a b c. ground arith;
  add_comm = λ a b. ground arith;
  zero-add = λ a. ground arith;
  add-zero = λ a. ground arith;
  mul_assoc = λ a b c. ground arith;
  one-mul = λ a. ground arith;
  mul-one = λ a. ground arith;
  zero-mul = λ a. ground arith;
  mul-zero = λ a. ground arith;
  mul-add = λ a b c. ground arith;
  add-mul = λ a b c. ground arith;
  mul_comm = λ _ a b. ground arith;
  is_zero-zero = refl;
  eq_of_is_zero = λ a h. ground arith;
  eq_of_is_one = λ a h. ground arith;
  is_zero-one = refl;
  star-zero = refl;
  bool_values = λ _ a. ground arith;
}

-- Subtraction undoes addition; where a division succeeds the divisor is not null, the quotient
-- times the divisor is the dividend, and the left division with the arguments exchanged is the
-- same.
pub sub-divide :
    (l r q : Bool)
    → rdivide l r ≡ ok q
    → (sub (add l r) r ≡ l) × (mul q r ≡ l) × (is_zero r ≡ false) × (ldivide r l ≡ ok q)
unfolding sub rdivide ldivide
sub-divide l r q h = ground arith

-- A weight v has the star s if and only if s is 1 + v s.
pub star_iff : (v s : Bool) → (star v ≡ ok s) ↔ (s ≡ add one (mul v s))
star_iff v s = (λ h. ground (arith, h), λ h. solved v s h)
