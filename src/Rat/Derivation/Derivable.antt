-- ===== src/Rat/Derivation/Derivable.antt =====
-- The expressions that the derivation is proved for, and the labels it is for: letters.
use vcsn.Base.{◌≡◌, refl, ap, List, [], ◌∷◌, Bool, true, false, ◌&&◌, Eq, if◌then◌else◌}
use vcsn.Weight.{Weightset, IsSemiring}
use vcsn.Label.{Labelset}
use vcsn.Series.{unit, single}
use vcsn.Series.Hadamard.{single_nil}
use vcsn.Rat.{VariadicType, UnaryType, Expr, Exprs}
use vcsn.Rat.Constant.Laws.{IsProper, AreProper}

module _ {L K : Type 0} ⦃ws : Weightset K⦄ where
  -- Whether the expression has none of the operators that are not supported, no complement, no
  -- conjunction without operands, and no conjunction nor shuffle over weights that do not commute.
  abbrev mutual
    pub is_derivable : Expr L K → Bool
    is_derivable (Expr.name e s) = is_derivable e
    is_derivable (Expr.variadic VariadicType.conjunction Exprs.nil) = false
    is_derivable (Expr.variadic VariadicType.conjunction (Exprs.cons e es)) =
        ws.is_commutative && (is_derivable e && are_derivable es)
    is_derivable (Expr.variadic VariadicType.shuffle es) = ws.is_commutative && are_derivable es
    is_derivable (Expr.variadic VariadicType.infiltrate es) = false
    is_derivable (Expr.variadic VariadicType.compose es) = false
    is_derivable (Expr.variadic VariadicType.ldivide es) = false
    is_derivable (Expr.variadic t es) = are_derivable es
    is_derivable (Expr.unary UnaryType.star e) = is_derivable e
    is_derivable (Expr.unary t e) = false
    is_derivable (Expr.weight_node t w e) = is_derivable e
    is_derivable _ = true

    pub are_derivable : Exprs L K → Bool
    are_derivable Exprs.nil = true
    are_derivable (Exprs.cons e es) = is_derivable e && are_derivable es

pub cons_injective {ℓ} : {A : Type ℓ} (a b : A) → a ∷ [] ≡ b ∷ [] → a ≡ b
cons_injective a b h = cc

module _ {A K : Type 0} ⦃e : Eq A⦄ ⦃ws : Weightset K⦄ (sr : IsSemiring ws) where
  pub single_letter :
      (l a : A) (w : List A) → single (l ∷ []) (a ∷ w) ≡ (if e.beq l a then unit w else ws.zero)
  unfolding single
  single_letter l a w = ap (λ x. if e.beq l a then x else ws.zero) (single_nil sr w)

pub both_true : (a b : Bool) → (a && b) ≡ true → (a ≡ true) × (b ≡ true)
both_true true b h = (refl, h)
both_true false b h = cc

module _ {L K : Type 0} (ls : Labelset L) (free : (l : L) → ls.is_one l ≡ false) where
  mutual
    pub proper : (x : Expr L K) → IsProper ls x
    proper Expr.zero = tt
    proper Expr.one = tt
    proper (Expr.atom a) = free a
    proper (Expr.name e s) = proper e
    proper (Expr.variadic t es) = propers es
    proper (Expr.unary t e) = proper e
    proper (Expr.weight_node t w e) = proper e

    propers : (xs : Exprs L K) → AreProper ls xs
    propers Exprs.nil = tt
    propers (Exprs.cons e es) = (proper e, propers es)
