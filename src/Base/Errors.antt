-- ===== src/Base/Errors.antt =====
-- A value or an exception (misc/raise.hh), with the messages that the modelled code raises.
use mathlib.Core.Path.{◌≡◌, refl}
use mathlib.Core.Bool.{Bool, true, false}

pub data Error : Type 0 where
  not_starrable division_by_zero invalid_division invalid_lhs invalid_rhs : Error
  unsupported invalid_arguments : Error

pub data Result {ℓ} (A : Type ℓ) : Type ℓ where
  ok : A → Result A
  raise : Error → Result A

-- `require(b, ...)`, and what follows it.
abbrev pub require {ℓ} : {A : Type ℓ} → Bool → Error → Result A → Result A
require true what rest = rest
require false what rest = raise what

-- An exception skips what follows.
infixl 5 ◌>>=◌
abbrev pub ◌>>=◌ {ℓ κ} : {X : Type ℓ} {Y : Type κ} → Result X → (X → Result Y) → Result Y
raise what >>= next = raise what
ok x >>= next = next x

-- A successful bind has a successful first part.
pub >>=-eq-ok {ℓ κ} :
    {X : Type ℓ} {Y : Type κ} (first : Result X) (next : X → Result Y) {y : Y}
    → (first >>= next) ≡ ok y
    → (x : X) × (first ≡ ok x) × (next x ≡ ok y)
>>=-eq-ok (raise what) next h = cc
>>=-eq-ok (ok x) next h = (x, refl, h)
