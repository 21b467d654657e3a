-- ===== src/Base/Lists.antt =====
-- Lists measured by native numbers, and the lexicographic comparison of misc/algorithm.hh.
use Prim.Native.Nat.{ℕ, suc, Ordering}
use mathlib.Core.Path.{◌≡◌, refl, ap, ap₂, sym, ◌∙◌}
use mathlib.Core.Bool.{Bool, true}
use mathlib.Core.Logic.{◌↔◌}
use mathlib.Core.List.{List, [], ◌∷◌}
use vcsn.Base.Tests.{flip, and_then, flip-and_then}

abbrev pub length {ℓ} : {A : Type ℓ} → List A → ℕ
length [] = 0
length (x ∷ xs) = suc (length xs)

-- Equality of letters.
pub record Eq {ℓ} (A : Type ℓ) : Type ℓ where
  pub beq : A → A → Bool
  pub beq_iff : (a b : A) → (beq a b ≡ true) ↔ (a ≡ b)

-- A comparison that is null on equal values only.
pub record Comparison {ℓ} (A : Type ℓ) : Type ℓ where
  pub cmp : A → A → Ordering
  pub eq_of_cmp : (a b : A) → cmp a b ≡ Ordering.eq → a ≡ b

-- A three-way comparison that is a lawful one.
pub record Compare {ℓ} (A : Type ℓ) : Type ℓ where
  pub cmp : A → A → Ordering
  pub eq_of_cmp : (a b : A) → cmp a b ≡ Ordering.eq → a ≡ b
  pub flip-cmp : (a b : A) → cmp b a ≡ flip (cmp a b)

module _ {ℓ} {A : Type ℓ} (o : Compare A) where
  pub flipped : (a b : A) (c : Ordering) → o.cmp a b ≡ c → o.cmp b a ≡ flip c
  flipped a b c h = o.flip-cmp a b ∙ ap flip h

-- `lexicographical_cmp(lhs, rhs, cmp)`
unfoldable pub lexicographical_cmp {ℓ} :
    {A : Type ℓ} → (A → A → Ordering) → List A → List A → Ordering
lexicographical_cmp cmp [] [] = Ordering.eq
lexicographical_cmp cmp [] (y ∷ ys) = Ordering.lt
lexicographical_cmp cmp (x ∷ xs) [] = Ordering.gt
lexicographical_cmp cmp (x ∷ xs) (y ∷ ys) = and_then (cmp x y) (lexicographical_cmp cmp xs ys)

pub eq_of_and_then :
    (a b : Ordering) → and_then a b ≡ Ordering.eq → (a ≡ Ordering.eq) × (b ≡ Ordering.eq)
eq_of_and_then Ordering.lt b h = cc
eq_of_and_then Ordering.eq b h = (refl, h)
eq_of_and_then Ordering.gt b h = cc

module _ {ℓ} {A : Type ℓ} (c : Compare A) where
  pub eq_of_lexicographical_cmp :
      (xs ys : List A) → lexicographical_cmp c.cmp xs ys ≡ Ordering.eq → xs ≡ ys
  unfolding lexicographical_cmp
  eq_of_lexicographical_cmp [] [] h = refl
  eq_of_lexicographical_cmp [] (y ∷ ys) h = cc
  eq_of_lexicographical_cmp (x ∷ xs) [] h = cc
  eq_of_lexicographical_cmp (x ∷ xs) (y ∷ ys) h =
      let both = eq_of_and_then (c.cmp x y) (lexicographical_cmp c.cmp xs ys) h in
      ap₂ ◌∷◌ (c.eq_of_cmp x y both.0) (eq_of_lexicographical_cmp xs ys both.1)

  pub flip-lexicographical_cmp :
      (xs ys : List A) → lexicographical_cmp c.cmp ys xs ≡ flip (lexicographical_cmp c.cmp xs ys)
  unfolding lexicographical_cmp
  flip-lexicographical_cmp [] [] = refl
  flip-lexicographical_cmp [] (y ∷ ys) = refl
  flip-lexicographical_cmp (x ∷ xs) [] = refl
  flip-lexicographical_cmp (x ∷ xs) (y ∷ ys) =
      rw (c.flip-cmp x y, flip-lexicographical_cmp xs ys) (sym (flip-and_then _ _))
