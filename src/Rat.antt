-- ===== src/Rat.antt =====
-- Rational expressions (vcsn/core/rat): the nodes of fwd.hh and expression.hh, their types, and the
-- queries of expressionset.hxx that look at one node. Multitape tuples are left out.
pub mod Identities
pub mod Order
pub mod Denote
pub mod Constant
pub mod Make
pub mod Derivation
pub mod Expansion
pub mod ToExpansion
pub mod Transpose
use vcsn.Base.{ℕ, List, Bool, true, false}
use vcsn.Weight.{Weightset}

-- `symbol`: the code points of a name.
abbrev pub Symbol : Type 0
Symbol = List ℕ

-- The types of `variadic`, `unary` and `weight_node` nodes.
pub data VariadicType : Type 0 where
  add mul conjunction shuffle infiltrate compose ldivide : VariadicType

pub data UnaryType : Type 0 where
  star complement transposition : UnaryType

pub data WeightType : Type 0 where
  lweight rweight : WeightType

mutual
  pub data Expr (L K : Type 0) : Type 0 where
    zero : Expr L K
    one : Expr L K
    atom : L → Expr L K
    name : Expr L K → Symbol → Expr L K
    variadic : VariadicType → Exprs L K → Expr L K
    unary : UnaryType → Expr L K → Expr L K
    weight_node : WeightType → K → Expr L K → Expr L K

  pub data Exprs (L K : Type 0) : Type 0 where
    nil : Exprs L K
    cons : Expr L K → Exprs L K → Exprs L K

module _ {L K : Type 0} where
  infixr 66 ◌+++◌
  -- `insert` of one range of children at the end of another.
  abbrev pub ◌+++◌ : Exprs L K → Exprs L K → Exprs L K
  Exprs.nil +++ fs = fs
  Exprs.cons e es +++ fs = Exprs.cons e (es +++ fs)

  abbrev pub is_zero : Expr L K → Bool
  is_zero Expr.zero = true
  is_zero _ = false

  abbrev pub is_one : Expr L K → Bool
  is_one Expr.one = true
  is_one _ = false

  abbrev pub is_atom : Expr L K → Bool
  is_atom (Expr.atom l) = true
  is_atom _ = false

  abbrev pub is_leaf : Expr L K → Bool
  is_leaf Expr.zero = true
  is_leaf Expr.one = true
  is_leaf (Expr.atom l) = true
  is_leaf _ = false

  abbrev pub is_lweight : Expr L K → Bool
  is_lweight (Expr.weight_node WeightType.lweight k e) = true
  is_lweight _ = false

  abbrev pub is_add : Expr L K → Bool
  is_add (Expr.variadic VariadicType.add es) = true
  is_add _ = false

  -- `0{c}`
  abbrev pub is_universal : Expr L K → Bool
  is_universal (Expr.unary UnaryType.complement e) = is_zero e
  is_universal _ = false

  abbrev pub unwrap_possible_lweight : Expr L K → Expr L K
  unwrap_possible_lweight (Expr.weight_node WeightType.lweight k e) = e
  unwrap_possible_lweight e = e

  abbrev pub possibly_implicit_lweight : ⦃ws : Weightset K⦄ → Expr L K → K
  possibly_implicit_lweight (Expr.weight_node WeightType.lweight k e) = k
  possibly_implicit_lweight ⦃ws⦄ e = ws.one
