-- ===== src/Base/Tests.antt =====
-- Boolean tests, the conditional, and three-way comparison (misc/military-order.hh).
use Prim.Native.Nat.{ℕ, ◌+◌, ◌-◌, ◌%◌, ◌^◌, compare, Ordering}
use mathlib.Core.Path.{◌≡◌, refl, sym, subst}
use mathlib.Core.Logic.{◌↔◌, ◌⊎◌, inl, inr}
use mathlib.Core.Bool.{Bool, true, false, ◌&&◌}
use native.Mathlib.Omega.{arith}

abbrev pub ltb : ℕ → ℕ → Bool
ltb a b = elim (compare a b) [ Ordering.lt ↦ true | _ ↦ false ]

abbrev pub leb : ℕ → ℕ → Bool
leb a b = elim (compare a b) [ Ordering.gt ↦ false | _ ↦ true ]

infix 50 ◌==◌
abbrev pub ◌==◌ : ℕ → ℕ → Bool
a == b = elim (compare a b) [ Ordering.eq ↦ true | _ ↦ false ]

infix 1 if◌then◌else◌
abbrev pub if◌then◌else◌ {ℓ} : {A : Type ℓ} → Bool → A → A → A
if true then x else y = x
if false then x else y = y

pub ==_iff : (a b : ℕ) → ((a == b) ≡ true) ↔ (a ≡ b)
==_iff a b = ground arith

-- To split on a computed value and keep the equation.
pub Bool-cases : (b : Bool) → (b ≡ true) ⊎ (b ≡ false)
Bool-cases true = inl refl
Bool-cases false = inr refl

-- The result of the comparison with its arguments exchanged.
abbrev pub flip : Ordering → Ordering
flip Ordering.lt = Ordering.gt
flip Ordering.eq = Ordering.eq
flip Ordering.gt = Ordering.lt

-- `if (auto res = a) return res; else return b;`
abbrev pub and_then : Ordering → Ordering → Ordering
and_then Ordering.lt b = Ordering.lt
and_then Ordering.eq b = b
and_then Ordering.gt b = Ordering.gt

abbrev pub is_lt : Ordering → Bool
is_lt Ordering.lt = true
is_lt Ordering.eq = false
is_lt Ordering.gt = false

abbrev pub is_eq : Ordering → Bool
is_eq Ordering.lt = false
is_eq Ordering.eq = true
is_eq Ordering.gt = false

pub flip-compare : (a b : ℕ) → compare b a ≡ flip (compare a b)
flip-compare a b = ground arith

pub eq_of_compare : (a b : ℕ) → compare a b ≡ Ordering.eq → a ≡ b
eq_of_compare a b h = ground arith

pub flip-and_then : (a b : Ordering) → flip (and_then a b) ≡ and_then (flip a) (flip b)
flip-and_then Ordering.lt b = refl
flip-and_then Ordering.eq b = refl
flip-and_then Ordering.gt b = refl

-- The sign of a difference of 32 bits, read as an `int`.
abbrev pub sign : ℕ → Ordering
sign d = if d == 0 then Ordering.eq else if ltb d (2 ^ 31) then Ordering.gt else Ordering.lt

-- The sign of `int(l) - int(r)`, where both conversions and the difference wrap around.
abbrev pub compare_int : ℕ → ℕ → Ordering
compare_int l r = sign ((l % 2 ^ 32 + 2 ^ 32 - r % 2 ^ 32) % 2 ^ 32)

abbrev pub is_int : ℕ → Bool
is_int n = ltb n (2 ^ 31)

-- The second comparison is the first with its arguments exchanged, but that both may say less where
-- the numbers are not `small`.
abbrev pub Reverses : Bool → Ordering → Ordering → Type 0
Reverses small Ordering.lt Ordering.gt = Unit
Reverses small Ordering.eq Ordering.eq = Unit
Reverses small Ordering.gt Ordering.lt = Unit
Reverses small Ordering.lt Ordering.lt = small ≡ false
Reverses small _ _ = ⊥

pub compare_int-Reverses :
    (l r : ℕ) → Reverses (is_int l && is_int r) (compare_int l r) (compare_int r l)
compare_int-Reverses l r = ground arith

pub and_then-Reverses :
    (small : Bool) (a b c d : Ordering)
    → Reverses small a b
    → Reverses small c d
    → Reverses small (and_then a c) (and_then b d)
and_then-Reverses small Ordering.lt Ordering.lt c d h k = h
and_then-Reverses small Ordering.lt Ordering.gt c d h k = tt
and_then-Reverses small Ordering.eq Ordering.eq c d h k = k
and_then-Reverses small Ordering.gt Ordering.lt c d h k = tt
and_then-Reverses small Ordering.lt Ordering.eq c d h k = absurd h
and_then-Reverses small Ordering.eq Ordering.lt c d h k = absurd h
and_then-Reverses small Ordering.eq Ordering.gt c d h k = absurd h
and_then-Reverses small Ordering.gt Ordering.eq c d h k = absurd h
and_then-Reverses small Ordering.gt Ordering.gt c d h k = absurd h

-- Where fewer numbers are taken for small, no less is allowed.
pub Reverses-weaken :
    (s t : Bool) (a b : Ordering) → (t ≡ true → s ≡ true) → Reverses s a b → Reverses t a b
Reverses-weaken s true Ordering.lt Ordering.lt w h = absurd (cc (w refl, h))
Reverses-weaken s false Ordering.lt Ordering.lt w h = refl
Reverses-weaken s t Ordering.lt Ordering.gt w h = tt
Reverses-weaken s t Ordering.eq Ordering.eq w h = tt
Reverses-weaken s t Ordering.gt Ordering.lt w h = tt
Reverses-weaken s t Ordering.lt Ordering.eq w h = absurd h
Reverses-weaken s t Ordering.eq Ordering.lt w h = absurd h
Reverses-weaken s t Ordering.eq Ordering.gt w h = absurd h
Reverses-weaken s t Ordering.gt Ordering.eq w h = absurd h
Reverses-weaken s t Ordering.gt Ordering.gt w h = absurd h

pub flip-Reverses : (small : Bool) (a b : Ordering) → b ≡ flip a → Reverses small a b
flip-Reverses small Ordering.lt b h = subst (Reverses small Ordering.lt) (sym h) tt
flip-Reverses small Ordering.eq b h = subst (Reverses small Ordering.eq) (sym h) tt
flip-Reverses small Ordering.gt b h = subst (Reverses small Ordering.gt) (sym h) tt

pub flip_of_Reverses : (a b : Ordering) → Reverses true a b → b ≡ flip a
flip_of_Reverses Ordering.lt Ordering.lt h = cc
flip_of_Reverses Ordering.lt Ordering.gt h = refl
flip_of_Reverses Ordering.eq Ordering.eq h = refl
flip_of_Reverses Ordering.gt Ordering.lt h = refl
flip_of_Reverses Ordering.lt Ordering.eq h = absurd h
flip_of_Reverses Ordering.eq Ordering.lt h = absurd h
flip_of_Reverses Ordering.eq Ordering.gt h = absurd h
flip_of_Reverses Ordering.gt Ordering.eq h = absurd h
flip_of_Reverses Ordering.gt Ordering.gt h = absurd h

-- Neither side is smaller only if the comparison says equal.
pub eq_of_not_lt :
    (small : Bool) (a b : Ordering)
    → Reverses small a b
    → is_lt a ≡ false
    → is_lt b ≡ false
    → a ≡ Ordering.eq
eq_of_not_lt small Ordering.lt Ordering.gt e h k = cc
eq_of_not_lt small Ordering.lt Ordering.lt e h k = cc
eq_of_not_lt small Ordering.eq Ordering.eq e h k = refl
eq_of_not_lt small Ordering.gt Ordering.lt e h k = cc
eq_of_not_lt small Ordering.lt Ordering.eq e h k = absurd e
eq_of_not_lt small Ordering.eq Ordering.lt e h k = absurd e
eq_of_not_lt small Ordering.eq Ordering.gt e h k = absurd e
eq_of_not_lt small Ordering.gt Ordering.eq e h k = absurd e
eq_of_not_lt small Ordering.gt Ordering.gt e h k = absurd e
