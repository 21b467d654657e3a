-- ===== src/Rat/Expansion/Loops.antt =====
-- A loop over the entries of a map, of which each changes one key of another map.
use vcsn.Base.{◌≡◌, refl, sym, ap, ◌∙◌, subst, [], ◌∷◌, Compare, Ordering}
use vcsn.Poly.{Monomial, Polynomial, Found, by_order, find, set}
use vcsn.Rat.{Expr}
use vcsn.Rat.Expansion.{Polys, for_each, found_or_empty, polynomial_at}
use vcsn.Rat.Expansion.Maps.{IsTransitive, IsBelow, IsSorted, IsBelow-trans, find-IsBelow, find-set}

module _ {L K : Type 0} (o : Compare L) where
  -- One round changes the polynomial at the key `l` as `h` says, and no other.
  abbrev pub IsUpdate :
      {P : Type 0}
      → (Polys L K → L → P → Polys L K)
      → (Polynomial (Expr L K) K → P → Polynomial (Expr L K) K)
      → Type 0
  IsUpdate {P} step h =
      (res : Polys L K) (l : L) (p : P) (a : L)
      → polynomial_at o (step res l p) a
        ≡ by_order (o.cmp a l) (polynomial_at o res a) (h (polynomial_at o res l) p)
            (polynomial_at o res a)

  abbrev pub KeepsSorted : {P : Type 0} → (Polys L K → L → P → Polys L K) → Type 0
  KeepsSorted {P} step =
      (res : Polys L K) (l : L) (p : P) → IsSorted o res → IsSorted o (step res l p)

module _ {L K : Type 0} where
  -- The polynomial after the loop, from what the loop's map holds at the key.
  abbrev pub updated :
      {P : Type 0}
      → (Polynomial (Expr L K) K → P → Polynomial (Expr L K) K)
      → Polynomial (Expr L K) K
      → Found P
      → Polynomial (Expr L K) K
  updated h x Found.absent = x
  updated h x (Found.present p) = h x p

module _ {L K P : Type 0} (o : Compare L) (trans : IsTransitive o)
    (step : Polys L K → L → P → Polys L K)
    (h : Polynomial (Expr L K) K → P → Polynomial (Expr L K) K) where
  pub for_each-IsSorted :
      KeepsSorted o step
      → (res : Polys L K) (v : Polynomial L P) → IsSorted o res
      → IsSorted o (for_each step res v)
  unfolding for_each
  for_each-IsSorted keeps res [] s = s
  for_each-IsSorted keeps res (p ∷ v) s =
      for_each-IsSorted keeps (step res p.label p.weight) v (keeps res p.label p.weight s)

  round_at :
      (c : Ordering) (res : Polys L K) (p : Monomial L P) (v : Polynomial L P) (a : L)
      → o.cmp a p.label ≡ c
      → IsSorted o (p ∷ v)
      → updated h
          (by_order c
            (polynomial_at o res a)
            (h (polynomial_at o res p.label) p.weight)
            (polynomial_at o res a))
          (find o.cmp v a)
        ≡ updated h
            (polynomial_at o res a)
            (by_order c Found.absent (Found.present p.weight) (find o.cmp v a))
  round_at Ordering.lt res p v a e s =
      ap (updated h (polynomial_at o res a))
        (find-IsBelow o trans a v (IsBelow-trans o trans a p.label v e s.0))
  round_at Ordering.eq res p v a e s =
      ap (updated h (h (polynomial_at o res p.label) p.weight))
        (find-IsBelow o trans a v (subst (λ x. IsBelow o x v) (sym (o.eq_of_cmp a p.label e)) s.0))
      ∙ ap (λ x. h (polynomial_at o res x) p.weight) (sym (o.eq_of_cmp a p.label e))
  round_at Ordering.gt res p v a e s = refl

  pub at-for_each :
      IsUpdate o step h
      → (res : Polys L K) (v : Polynomial L P) (a : L) → IsSorted o v
      → polynomial_at o (for_each step res v) a ≡ updated h (polynomial_at o res a) (find o.cmp v a)
  unfolding for_each find
  at-for_each sound res [] a s = refl
  at-for_each sound res (p ∷ v) a s =
      at-for_each sound (step res p.label p.weight) v a s.1
      ∙ ap (λ x. updated h x (find o.cmp v a)) (sound res p.label p.weight a)
      ∙ round_at _ res p v a refl s

module _ {L K : Type 0} (o : Compare L) (trans : IsTransitive o) where
  found_by_order :
      (c : Ordering) (x y z : Found (Polynomial (Expr L K) K))
      → found_or_empty (by_order c x y z)
        ≡ by_order c (found_or_empty x) (found_or_empty y) (found_or_empty z)
  found_by_order Ordering.lt x y z = refl
  found_by_order Ordering.eq x y z = refl
  found_by_order Ordering.gt x y z = refl

  pub at-set :
      (res : Polys L K) (l : L) (p : Polynomial (Expr L K) K) (a : L)
      → polynomial_at o (set o.cmp res l p) a
        ≡ by_order (o.cmp a l) (polynomial_at o res a) p (polynomial_at o res a)
  at-set res l p a =
      ap found_or_empty (find-set o trans res l a p) ∙ found_by_order (o.cmp a l) _ _ _
