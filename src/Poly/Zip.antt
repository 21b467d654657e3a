-- ===== src/Poly/Zip.antt =====
-- The traversal of the common keys of two maps (vcsn/misc/zip-maps.hh). A position is the entries of
-- each map from there on. The rounds of the loops are counted, and the result is none where they are
-- used up; Total.antt has the traversal without the count.
pub mod Pairs
pub mod Aligned
pub mod Total
use vcsn.Base.{ℕ, zero, suc, [], ◌∷◌, Compare, length, Option, none, some, bind}
use vcsn.Poly.{Monomial, Polynomial, by_order}

-- The loop of `align_<I>(k)`: skip the entries with a key below `k`.
unfoldable pub skip_below : {L P : Type 0} → Compare L → L → Polynomial L P → Polynomial L P
skip_below o k [] = []
skip_below o k (q ∷ r) =
    let rest = skip_below o k r in by_order (o.cmp q.label k) rest (q ∷ r) (q ∷ r)

-- `is_`: where the traversal stands in each map; at the end of both where it is done.
abbrev pub Positions : Type 0 → Type 0 → Type 0
Positions L P = Polynomial L P × Polynomial L P

-- `operator*`: the key of the first map, and both values.
abbrev pub dereference : {L P : Type 0} → Monomial L P → Monomial L P → Monomial L (P × P)
dereference p q = record { label = p.label; weight = (p.weight, q.weight) }

module _ {L P : Type 0} (o : Compare L) where
  -- `done_()`
  abbrev pub done : Positions L P
  done = ([], [])

  -- `align_<1>(k)`, the key found, and what the loop does with it.
  abbrev pub align_second :
      (L → Polynomial L P → Polynomial L P → Option (Positions L P))
      → L
      → Polynomial L P
      → Polynomial L P
      → Option (Positions L P)
  align_second again k l [] = some done
  align_second again k l (q ∷ r) =
      let next = again q.label l (q ∷ r) in by_order (o.cmp k q.label) next (some (l, q ∷ r)) next

  -- The same after `align_<0>(k)`.
  abbrev pub align_first :
      (L → Polynomial L P → Polynomial L P → Option (Positions L P))
      → L
      → Polynomial L P
      → Polynomial L P
      → Option (Positions L P)
  align_first again k [] r = some done
  align_first again k (p ∷ l) r = align_second again k (p ∷ l) (skip_below o p.label r)

  -- The loop of `align_()`.
  unfoldable pub align : ℕ → L → Polynomial L P → Polynomial L P → Option (Positions L P)
  align zero k l r = none
  align (suc n) k l r = align_first (λ k l r. align n k l r) k (skip_below o k l) r

  -- `align_()`
  abbrev pub align_at : Polynomial L P → Polynomial L P → Option (Positions L P)
  align_at [] r = some done
  align_at (p ∷ l) r = align (suc (suc (length r))) p.label (p ∷ l) r

  abbrev pub then_entry :
      Monomial L (P × P) → Option (Polynomial L (P × P)) → Option (Polynomial L (P × P))
  then_entry m none = none
  then_entry m (some v) = some (m ∷ v)

  -- The iterations, with `operator*` and `operator++`.
  unfoldable pub zip_from : ℕ → Positions L P → Option (Polynomial L (P × P))
  zip_from n ([], r) = some []
  zip_from n (p ∷ l, []) = some []
  zip_from zero (p ∷ l, q ∷ r) = none
  zip_from (suc n) (p ∷ l, q ∷ r) =
      then_entry (dereference p q) (bind (align_at l (q ∷ r)) (λ c. zip_from n c))

  -- `zip_maps(l, r)` from begin to end, or none where the rounds are used up before.
  unfoldable pub zip_rounds : Polynomial L P → Polynomial L P → Option (Polynomial L (P × P))
  zip_rounds l r = bind (align_at l r) (λ c. zip_from (length l) c)
