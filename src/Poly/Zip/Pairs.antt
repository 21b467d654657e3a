-- ===== src/Poly/Zip/Pairs.antt =====
-- What the traversal of two maps gives: the pairs of their common entries.
use vcsn.Base.{◌≡◌, ◌≢◌, refl, [], ◌∷◌, Compare, Ordering}
use vcsn.Poly.{Monomial, Polynomial, by_order}
use vcsn.Poly.Zip.{skip_below}

-- The entry for `p`, where `r` holds the entries from its key on.
abbrev pub pair_entry :
    {L P : Type 0}
    → Compare L
    → Monomial L P
    → Polynomial L P
    → Polynomial L (P × P)
    → Polynomial L (P × P)
pair_entry o p [] rest = []
pair_entry o p (q ∷ r) rest =
    by_order (o.cmp p.label q.label) rest
      (record { label = p.label; weight = (p.weight, q.weight) } ∷ rest) rest

-- Each entry of `l` with the entry of `r` that has its key.
unfoldable pub pairs :
    {L P : Type 0} → Compare L → Polynomial L P → Polynomial L P → Polynomial L (P × P)
pairs o [] r = []
pairs o (p ∷ l) r = pair_entry o p (skip_below o p.label r) (pairs o l (skip_below o p.label r))

module _ {L P : Type 0} (o : Compare L) where
  -- The first entry that is not skipped.
  abbrev pub IsFrom : L → Polynomial L P → Type 0
  IsFrom k [] = Unit
  IsFrom k (q ∷ r) = o.cmp q.label k ≢ Ordering.lt

  skip-IsFrom_by :
      (c : Ordering) (k : L) (q : Monomial L P) (r rest : Polynomial L P)
      → o.cmp q.label k ≡ c
      → IsFrom k rest
      → IsFrom k (by_order c rest (q ∷ r) (q ∷ r))
  skip-IsFrom_by Ordering.lt k q r rest h f = f
  skip-IsFrom_by Ordering.eq k q r rest h f = λ l. cc
  skip-IsFrom_by Ordering.gt k q r rest h f = λ l. cc

  pub skip_below-IsFrom : (k : L) (r : Polynomial L P) → IsFrom k (skip_below o k r)
  unfolding skip_below
  skip_below-IsFrom k [] = tt
  skip_below-IsFrom k (q ∷ r) = skip-IsFrom_by _ k q r _ refl (skip_below-IsFrom k r)
