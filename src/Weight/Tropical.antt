-- ===== src/Weight/Tropical.antt =====
-- Costs that are natural numbers or infinite, with minimum and sum: what the min-plus weightsets
-- stand for.
use vcsn.Base.{refl, ℕ, ◌+◌, min, arith, Bool, true, false, ok, ◌==◌}
use vcsn.Weight.{Weightset, IsSemiring}

pub data Cost : Type 0 where
  infinite : Cost
  cost : ℕ → Cost

abbrev pub cheaper : Cost → Cost → Cost
cheaper infinite r = r
cheaper (cost a) infinite = cost a
cheaper (cost a) (cost b) = cost (min a b)

abbrev pub chain : Cost → Cost → Cost
chain infinite r = infinite
chain (cost a) infinite = infinite
chain (cost a) (cost b) = cost (a + b)

abbrev is_infinite : Cost → Bool
is_infinite infinite = true
is_infinite (cost a) = false

abbrev is_free : Cost → Bool
is_free infinite = false
is_free (cost a) = a == 0

abbrev pub tropical : Weightset Cost
tropical = record {
  zero = infinite;
  one = cost 0;
  add = cheaper;
  mul = chain;
  star = λ _. ok (cost 0);
  transpose = λ a. a;
  is_zero = is_infinite;
  is_one = is_free;
  is_commutative = true;
  is_bool = false;
  is_b = false;
}

pub tropical-IsSemiring : IsSemiring tropical
tropical-IsSemiring = record {
  add_assoc = λ a b c. ground arith;
  add_comm = λ a b. ground arith;
  zero-add = λ a. refl;
  add-zero = λ a. ground arith;
  mul_assoc = λ a b c. ground arith;
  one-mul = λ a. ground arith;
  mul-one = λ a. ground arith;
  zero-mul = λ a. refl;
  mul-zero = λ a. ground arith;
  mul-add = λ a b c. ground arith;
  add-mul = λ a b c. ground arith;
  mul_comm = λ _ a b. ground arith;
  is_zero-zero = refl;
  eq_of_is_zero = λ a h. ground arith;
  eq_of_is_one = λ a h. ground arith;
  is_zero-one = refl;
  star-zero = refl;
  bool_values = λ h a. cc;
}
