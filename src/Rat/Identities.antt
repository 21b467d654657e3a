-- ===== src/Rat/Identities.antt =====
-- The sets of identities that an expression set implements (vcsn/core/rat/identities.hh and
-- lib/vcsn/rat/identities.cc).
use vcsn.Base.{ℕ, Bool, leb, ◌==◌, if◌then◌else◌}

pub data Identities : Type 0 where
  none trivial associative linear distributive agressive : Identities

-- The value of the enumerator.
abbrev pub ids : Identities → ℕ
ids Identities.none = 0
ids Identities.trivial = 1
ids Identities.associative = 2
ids Identities.linear = 3
ids Identities.distributive = 4
ids Identities.agressive = 5

abbrev pub is_agressive : Identities → Bool
is_agressive i = leb (ids Identities.agressive) (ids i)

abbrev pub is_associative : Identities → Bool
is_associative i = leb (ids Identities.associative) (ids i)

abbrev pub is_distributive : Identities → Bool
is_distributive i = ids i == ids Identities.distributive

abbrev pub is_linear : Identities → Bool
is_linear i = leb (ids Identities.linear) (ids i)

abbrev pub is_trivial : Identities → Bool
is_trivial i = leb (ids Identities.trivial) (ids i)

-- `std::max(i1, i2)`
abbrev pub meet : Identities → Identities → Identities
meet i j = if leb (ids j) (ids i) then i else j
