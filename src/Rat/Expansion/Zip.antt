-- ===== src/Rat/Expansion/Zip.antt =====
-- The traversal of two sorted maps: what a search in its entries finds.
use vcsn.Base.{some, flipped, ◌≡◌, ◌≢◌, refl, sym, ap, subst, ◌∙◌, [], ◌∷◌, Compare, Ordering}
use vcsn.Poly.{Monomial, Polynomial, Found, by_order, find}
use vcsn.Poly.Zip.{skip_below, zip_rounds}
use vcsn.Poly.Zip.Pairs.{pair_entry, pairs, IsFrom, skip_below-IsFrom}
use vcsn.Poly.Zip.Total.{zip_maps, zip_rounds-zip_maps, zip_maps-pairs}
use vcsn.Rat.Expansion.Maps.{IsTransitive, IsBelow, IsSorted, IsBelow-trans, find-IsBelow}

-- Two searches that both succeed.
abbrev pub both_found : {P : Type 0} → Found P → Found P → Found (P × P)
both_found (Found.present p) (Found.present q) = Found.present (p, q)
both_found (Found.present p) Found.absent = Found.absent
both_found Found.absent r = Found.absent

module _ {P : Type 0} where
  both_found-absent : (r : Found P) → both_found r Found.absent ≡ Found.absent
  both_found-absent Found.absent = refl
  both_found-absent (Found.present p) = refl

module _ {L P : Type 0} (o : Compare L) (trans : IsTransitive o) where
  skip_below_by :
      (c : Ordering) (k : L) (q : Monomial L P) (r rest : Polynomial L P)
      → IsSorted o (q ∷ r)
      → IsSorted o rest
      → IsSorted o (by_order c rest (q ∷ r) (q ∷ r))
  skip_below_by Ordering.lt k q r rest s t = t
  skip_below_by Ordering.eq k q r rest s t = s
  skip_below_by Ordering.gt k q r rest s t = s

  skip_below-IsSorted : (k : L) (r : Polynomial L P) → IsSorted o r → IsSorted o (skip_below o k r)
  unfolding skip_below
  skip_below-IsSorted k [] s = tt
  skip_below-IsSorted k (q ∷ r) s =
      skip_below_by (o.cmp q.label k) k q r _ s (skip_below-IsSorted k r s.1)

  -- What is skipped is below `k`, and so is not found from `k` on.
  find_skip_by :
      (c d : Ordering) (k a : L) (q : Monomial L P) (r : Polynomial L P)
      → o.cmp q.label k ≡ c
      → o.cmp a q.label ≡ d
      → o.cmp a k ≢ Ordering.lt
      → find o.cmp (skip_below o k r) a ≡ find o.cmp r a
      → find o.cmp (by_order c (skip_below o k r) (q ∷ r) (q ∷ r)) a
        ≡ by_order d Found.absent (Found.present q.weight) (find o.cmp r a)
  unfolding find
  find_skip_by Ordering.lt Ordering.lt k a q r h i n ih = absurd (n (trans a q.label k i h))
  find_skip_by Ordering.lt Ordering.eq k a q r h i n ih =
      absurd (n (ap (λ x. o.cmp x k) (o.eq_of_cmp a q.label i) ∙ h))
  find_skip_by Ordering.lt Ordering.gt k a q r h i n ih = ih
  find_skip_by Ordering.eq d k a q r h i n ih = rw i
  find_skip_by Ordering.gt d k a q r h i n ih = rw i

  find-skip_below :
      (k a : L) (r : Polynomial L P)
      → o.cmp a k ≢ Ordering.lt
      → find o.cmp (skip_below o k r) a ≡ find o.cmp r a
  unfolding skip_below find
  find-skip_below k a [] n = refl
  find-skip_below k a (q ∷ r) n = find_skip_by _ _ k a q r refl refl n (find-skip_below k a r n)

  -- The keys of a zipped map are those of the first map.
  entry-IsBelow :
      (k : L) (p : Monomial L P) (r : Polynomial L P) (rest : Polynomial L (P × P))
      → o.cmp k p.label ≡ Ordering.lt
      → IsBelow o k rest
      → IsBelow o k (pair_entry o p r rest)
  entry-IsBelow k p [] rest h b = tt
  entry-IsBelow k p (q ∷ r) rest h b =
      elim (o.cmp p.label q.label)
        as (λ c. IsBelow o k (
          by_order c rest (record { label = p.label; weight = (p.weight, q.weight) } ∷ rest)
            rest)) [ Ordering.lt ↦ b | Ordering.eq ↦ h | Ordering.gt ↦ b ]

  pairs-IsBelow :
      (k : L) (l r : Polynomial L P) → IsBelow o k l → IsSorted o l → IsBelow o k (pairs o l r)
  unfolding pairs
  pairs-IsBelow k [] r b s = tt
  pairs-IsBelow k (p ∷ l) r b s =
      entry-IsBelow k p (skip_below o p.label r) _ b
        (pairs-IsBelow k l (skip_below o p.label r) (IsBelow-trans o trans k p.label l b s.0) s.1)

  entry-IsSorted :
      (p : Monomial L P) (r : Polynomial L P) (rest : Polynomial L (P × P))
      → IsBelow o p.label rest
      → IsSorted o rest
      → IsSorted o (pair_entry o p r rest)
  entry-IsSorted p [] rest b s = tt
  entry-IsSorted p (q ∷ r) rest b s =
      elim (o.cmp p.label q.label)
        as (λ c. IsSorted o (
          by_order c rest (record { label = p.label; weight = (p.weight, q.weight) } ∷ rest)
            rest)) [ Ordering.lt ↦ s | Ordering.eq ↦ (b, s) | Ordering.gt ↦ s ]

  pairs-IsSorted : (l r : Polynomial L P) → IsSorted o l → IsSorted o (pairs o l r)
  unfolding pairs
  pairs-IsSorted [] r s = tt
  pairs-IsSorted (p ∷ l) r s =
      entry-IsSorted p (skip_below o p.label r) _
        (pairs-IsBelow p.label l (skip_below o p.label r) s.0 s.1)
        (pairs-IsSorted l (skip_below o p.label r) s.1)

  find_common :
      (c : Ordering) (a : L) (p q : Monomial L P) (r : Polynomial L P) (rest : Polynomial L (P × P))
      → o.cmp p.label q.label ≡ c
      → o.cmp a p.label ≡ Ordering.eq
      → IsFrom o p.label (q ∷ r)
      → IsBelow o p.label rest
      → find o.cmp (pair_entry o p (q ∷ r) rest) a
        ≡ both_found (Found.present p.weight) (find o.cmp (q ∷ r) a)
  unfolding find
  find_common Ordering.lt a p q r rest hc h f b =
      rw (hc, ap (λ x. o.cmp x q.label) (o.eq_of_cmp a p.label h) ∙ hc)
        (find-IsBelow o trans a rest
          (subst (λ x. IsBelow o x rest) (sym (o.eq_of_cmp a p.label h)) b))
  find_common Ordering.eq a p q r rest hc h f b =
      rw (hc, h, ap (λ x. o.cmp x q.label) (o.eq_of_cmp a p.label h) ∙ hc)
  find_common Ordering.gt a p q r rest hc h f b =
      absurd (f (flipped o p.label q.label Ordering.gt hc))

  find_after :
      (c : Ordering) (a : L) (p q : Monomial L P) (r : Polynomial L P) (rest : Polynomial L (P × P))
      → o.cmp p.label q.label ≡ c
      → o.cmp a p.label ≡ Ordering.gt
      → find o.cmp (pair_entry o p (q ∷ r) rest) a ≡ find o.cmp rest a
  find_after Ordering.lt a p q r rest hc h = rw hc
  find_after Ordering.eq a p q r rest hc h = unfold find in rw (hc, h)
  find_after Ordering.gt a p q r rest hc h = rw hc

  -- A search in the entries from `p` on, where `rest` are those after `p`.
  find_entry :
      (d : Ordering) (a : L) (p : Monomial L P) (l r : Polynomial L P) (rest : Polynomial L (P × P))
      → o.cmp a p.label ≡ d
      → IsFrom o p.label r
      → IsBelow o p.label rest
      → find o.cmp rest a ≡ both_found (find o.cmp l a) (find o.cmp r a)
      → find o.cmp (pair_entry o p r rest) a
        ≡ both_found
            (by_order d Found.absent (Found.present p.weight) (find o.cmp l a))
            (find o.cmp r a)
  find_entry Ordering.lt a p l r rest h f b ih =
      find-IsBelow o trans a (pair_entry o p r rest)
        (entry-IsBelow a p r rest h (IsBelow-trans o trans a p.label rest h b))
  find_entry Ordering.eq a p l [] rest h f b ih = unfold find in refl
  find_entry Ordering.eq a p l (q ∷ r) rest h f b ih = find_common _ a p q r rest refl h f b
  find_entry Ordering.gt a p l [] rest h f b ih =
      unfold find in sym (both_found-absent (find o.cmp l a))
  find_entry Ordering.gt a p l (q ∷ r) rest h f b ih = find_after _ a p q r rest refl h ∙ ih

  both_skip :
      (d : Ordering) (a : L) (p : Monomial L P) (x : Found P) (r : Polynomial L P)
      → o.cmp a p.label ≡ d
      → both_found
          (by_order d Found.absent (Found.present p.weight) x)
          (find o.cmp (skip_below o p.label r) a)
        ≡ both_found (by_order d Found.absent (Found.present p.weight) x) (find o.cmp r a)
  both_skip Ordering.lt a p x r h = refl
  both_skip Ordering.eq a p x r h =
      ap (both_found (Found.present p.weight)) (find-skip_below p.label a r (λ l. cc))
  both_skip Ordering.gt a p x r h = ap (both_found x) (find-skip_below p.label a r (λ l. cc))

  -- A search finds the keys that both maps hold, with both values.
  find-pairs :
      (l r : Polynomial L P) (a : L)
      → IsSorted o l
      → find o.cmp (pairs o l r) a ≡ both_found (find o.cmp l a) (find o.cmp r a)
  unfolding pairs find
  find-pairs [] r a s = refl
  find-pairs (p ∷ l) r a s =
      find_entry _ a p l (skip_below o p.label r) _ refl (skip_below-IsFrom o p.label r)
        (pairs-IsBelow p.label l (skip_below o p.label r) s.0 s.1)
        (find-pairs l (skip_below o p.label r) a s.1)
      ∙ both_skip _ a p (find o.cmp l a) r refl

  pub zip_maps-IsSorted : (l r : Polynomial L P) → IsSorted o l → IsSorted o (zip_maps o l r)
  zip_maps-IsSorted l r s =
      subst (λ v. IsSorted o v) (sym (zip_maps-pairs o l r)) (pairs-IsSorted l r s)

  -- Where the order of the keys is transitive and the first map is sorted, the traversal of two
  -- maps ends before its rounds are used up, and a search in its entries finds a key if and only
  -- if both maps hold it, with both values.
  pub find-zip_maps :
      (l r : Polynomial L P) (a : L)
      → IsSorted o l
      → (zip_rounds o l r ≡ some (zip_maps o l r))
        × (find o.cmp (zip_maps o l r) a ≡ both_found (find o.cmp l a) (find o.cmp r a))
  find-zip_maps l r a s = (
    zip_rounds-zip_maps o l r,
    ap (λ v. find o.cmp v a) (zip_maps-pairs o l r) ∙ find-pairs l r a s,
  )
