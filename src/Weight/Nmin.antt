-- ===== src/Weight/Nmin.antt =====
-- The tropical semiring `nmin` (vcsn/weightset/nmin.hh): `min_plus_impl` of
-- vcsn/weightset/min-plus.hh over `unsigned int`, whose arithmetic is modulo 2^32.
use vcsn.Base.{
  ◌≡◌, ℕ, ◌+◌, ◌-◌, ◌%◌, ◌^◌, ◌≤◌, ◌<◌, min, Bool, true, not, ◌||◌, Result, ok, Error, require,
  Ordering, sign, ltb, leb, ◌==◌, if◌then◌else◌, arith, ◌⊎◌,
}
use vcsn.Weight.Tropical.{Cost, cheaper, chain, cost, infinite}

-- `std::numeric_limits<value_t>::max()`
abbrev pub zero : ℕ
zero = 2 ^ 32 - 1

abbrev pub one : ℕ
one = 0

abbrev pub is_zero : ℕ → Bool
is_zero v = v == zero

abbrev pub is_one : ℕ → Bool
is_one v = v == one

unfoldable pub add : ℕ → ℕ → ℕ
add l r = min l r

unfoldable pub mul : ℕ → ℕ → ℕ
mul l r = if is_zero l || is_zero r then zero else (l + r) % 2 ^ 32

unfoldable pub rdivide : ℕ → ℕ → Result ℕ
rdivide l r =
    require (not (is_zero r)) Error.division_by_zero
      (ok (if is_zero l then l else (l + 2 ^ 32 - r) % 2 ^ 32))

unfoldable pub ldivide : ℕ → ℕ → Result ℕ
unfolding rdivide
ldivide l r = rdivide r l

unfoldable pub star : ℕ → Result ℕ
star v = if leb 0 v then ok one else Result.raise Error.not_starrable

-- The `unsigned int` difference, returned as an `int`.
unfoldable pub compare_nmin : ℕ → ℕ → Ordering
compare_nmin l r = sign ((l + 2 ^ 32 - r) % 2 ^ 32)

unfoldable pub less : ℕ → ℕ → Bool
less l r = ltb l r

abbrev pub IsWeight : ℕ → Type 0
IsWeight v = v ≤ zero

-- The cost that a weight stands for: the largest value is the infinite cost.
abbrev pub to_cost : ℕ → Cost
to_cost v = if is_zero v then infinite else cost v

-- For two weights of which one is infinite or whose sum is below the largest value, addition is
-- the cheaper cost and multiplication the sum of the costs; both give a weight.
pub add-mul_refine :
    (l r : ℕ)
    → IsWeight l
    → IsWeight r
    → is_zero l || is_zero r || ltb (l + r) zero ≡ true
    → IsWeight (add l r)
      × (to_cost (add l r) ≡ cheaper (to_cost l) (to_cost r))
      × IsWeight (mul l r)
      × (to_cost (mul l r) ≡ chain (to_cost l) (to_cost r))
unfolding add mul
add-mul_refine l r hl hr h = (omega arith, ground arith, ground arith, ground arith)

-- Where the sum of two finite weights is not below the largest value, the product is infinite if
-- the sum is exactly 2^32 - 1, and lighter than each factor beyond that.
pub mul_wraps :
    (l r : ℕ)
    → l < zero
    → r < zero
    → zero ≤ l + r
    → ((l + r ≡ zero) × (to_cost (mul l r) ≡ infinite)) ⊎ ((mul l r < l) × (mul l r < r))
unfolding mul
mul_wraps l r hl hr h = ground arith

-- `compare` says equal for equal weights only. It orders others as `less` does where they differ
-- by less than 2^31, and the other way round where they differ by more; where they differ by
-- exactly 2^31 it says less in both directions.
pub compare-less :
    (l r : ℕ)
    → IsWeight l
    → IsWeight r
    → compare_nmin l r ≡ (
        if l == r
        then Ordering.eq
        else if less l r
        then (if leb (r - l) (2 ^ 31) then Ordering.lt else Ordering.gt)
        else if ltb (l - r) (2 ^ 31)
        then Ordering.gt
        else Ordering.lt)
unfolding compare_nmin less
compare-less l r hl hr = ground arith

-- Where a finite weight is divided by one that is not heavier, the quotient times the divisor is
-- the dividend, the left division with the arguments exchanged is the same, and the star of the
-- quotient is 0.
pub rdivide-mul :
    (l r q : ℕ)
    → l < zero
    → r ≤ l
    → rdivide l r ≡ ok q
    → (mul q r ≡ l) × (ldivide r l ≡ ok q) × (star q ≡ ok one)
unfolding mul rdivide ldivide star
rdivide-mul l r q hl h e = (ground arith, ground arith, ground arith)
