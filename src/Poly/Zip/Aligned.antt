-- ===== src/Poly/Zip/Aligned.antt =====
-- The traversal of the common keys of two maps ends, and gives their pairs.
use vcsn.Base.{
  ◌≡◌, ◌≢◌, refl, sym, ap, subst, ◌∙◌, ℕ, zero, suc, ◌≤◌, [], ◌∷◌, Compare, flipped, Ordering,
  length, Option, some, bind, arith,
}
use vcsn.Poly.{Monomial, Polynomial, by_order}
use vcsn.Poly.Zip.{
  skip_below, Positions, done, align_second, align_first, align, align_at, dereference, then_entry,
  zip_from, zip_rounds,
}
use vcsn.Poly.Zip.Pairs.{pair_entry, pairs, IsFrom, skip_below-IsFrom}

-- The key of the first entry.
abbrev first_key : {L P : Type 0} → L → Polynomial L P → L
first_key k [] = k
first_key k (p ∷ l) = p.label

module _ {L : Type 0} (o : Compare L) where
  same_key : (k : L) → o.cmp k k ≡ Ordering.eq
  same_key k = by_result (o.cmp k k) refl
    where
      by_result : (c : Ordering) → o.cmp k k ≡ c → o.cmp k k ≡ Ordering.eq
      by_result Ordering.lt h = absurd (ground (arith, h, flipped o k k Ordering.lt h))
      by_result Ordering.eq h = h
      by_result Ordering.gt h = absurd (ground (arith, h, flipped o k k Ordering.gt h))

  not_below : (k : L) → o.cmp k k ≢ Ordering.lt
  not_below k e = ground (arith, same_key k, e)

  neither_below :
      (a b : L) → o.cmp a b ≢ Ordering.lt → o.cmp b a ≢ Ordering.lt → o.cmp a b ≡ Ordering.eq
  neither_below a b h k = by_result (o.cmp a b) refl
    where
      by_result : (c : Ordering) → o.cmp a b ≡ c → o.cmp a b ≡ Ordering.eq
      by_result Ordering.lt e = absurd (h e)
      by_result Ordering.eq e = e
      by_result Ordering.gt e = absurd (k (flipped o a b Ordering.gt e))

module _ {L P : Type 0} (o : Compare L) where
  -- Nothing is skipped where the first key is not below.
  skip-from : (k : L) (r : Polynomial L P) → IsFrom o k r → skip_below o k r ≡ r
  unfolding skip_below
  skip-from k [] f = refl
  skip-from k (q ∷ r) f = by_result (o.cmp q.label k) refl
    where
      by_result : (c : Ordering) → o.cmp q.label k ≡ c → skip_below o k (q ∷ r) ≡ q ∷ r
      by_result Ordering.lt h = absurd (f h)
      by_result Ordering.eq h = rw h
      by_result Ordering.gt h = rw h

  length-skip_below : (k : L) (r : Polynomial L P) → length (skip_below o k r) ≤ length r
  unfolding skip_below
  length-skip_below k [] = omega arith
  length-skip_below k (q ∷ r) = by_result (o.cmp q.label k) refl (length-skip_below k r)
    where
      by_result :
          (c : Ordering)
          → o.cmp q.label k ≡ c
          → length (skip_below o k r) ≤ length r
          → length (skip_below o k (q ∷ r)) ≤ suc (length r)
      by_result Ordering.lt h ih = rw h (omega (arith, ih))
      by_result Ordering.eq h ih = rw h (omega arith)
      by_result Ordering.gt h ih = rw h (omega arith)

  pairs-[] : (l : Polynomial L P) → pairs o l [] ≡ []
  unfolding pairs skip_below
  pairs-[] [] = refl
  pairs-[] (p ∷ l) = refl

  -- What is skipped in either map pairs with nothing.
  pairs-skip_first :
      (l r : Polynomial L P) (q : Monomial L P)
      → pairs o (skip_below o q.label l) (q ∷ r) ≡ pairs o l (q ∷ r)
  unfolding skip_below pairs
  pairs-skip_first [] r q = refl
  pairs-skip_first (p ∷ l) r q = by_result (o.cmp p.label q.label) refl (pairs-skip_first l r q)
    where
      by_result :
          (c : Ordering)
          → o.cmp p.label q.label ≡ c
          → pairs o (skip_below o q.label l) (q ∷ r) ≡ pairs o l (q ∷ r)
          → pairs o (skip_below o q.label (p ∷ l)) (q ∷ r) ≡ pairs o (p ∷ l) (q ∷ r)
      by_result Ordering.lt h ih = rw (h, flipped o p.label q.label Ordering.lt h, h) ih
      by_result Ordering.eq h ih = rw h refl
      by_result Ordering.gt h ih = rw h refl

  pairs-skip_second :
      (p : Monomial L P) (l r : Polynomial L P)
      → pairs o (p ∷ l) (skip_below o p.label r) ≡ pairs o (p ∷ l) r
  unfolding pairs
  pairs-skip_second p l r =
      ap (λ x. pair_entry o p x (pairs o l x))
        (skip-from p.label (skip_below o p.label r) (skip_below-IsFrom o p.label r))

  -- Where both positions have an entry, they have the same key.
  abbrev IsAligned : Polynomial L P → Polynomial L P → Type 0
  IsAligned (p ∷ l) (q ∷ r) = o.cmp p.label q.label ≡ Ordering.eq
  IsAligned [] r = Unit
  IsAligned (p ∷ l) [] = Unit

  -- The positions `c` are aligned, and no pair is lost from those of `l` and `r`.
  record Aligns (c : Positions L P) (l r : Polynomial L P) : Type 0 where
    same : pairs o c.0 c.1 ≡ pairs o l r
    shorter : length c.0 ≤ length l
    aligned : IsAligned c.0 c.1

  Aligns-trans :
      (c : Positions L P) (l r l' r' : Polynomial L P)
      → Aligns c l r
      → pairs o l r ≡ pairs o l' r'
      → length l ≤ length l'
      → Aligns c l' r'
  Aligns-trans c l r l' r' a h k = record {
    same = a.same ∙ h;
    shorter = omega (arith, a.shorter, k);
    aligned = a.aligned;
  }

  -- The loop ends, at such positions.
  abbrev Ends : Option (Positions L P) → Polynomial L P → Polynomial L P → Type 0
  Ends x l r = (c : Positions L P) × (x ≡ some c) × Aligns c l r

  Ends-trans :
      (x : Option (Positions L P)) (l r l' r' : Polynomial L P)
      → Ends x l r
      → pairs o l r ≡ pairs o l' r'
      → length l ≤ length l'
      → Ends x l' r'
  Ends-trans x l r l' r' (c, e, a) h k = (c, e, Aligns-trans c l r l' r' a h k)

  done-Aligns : (l r : Polynomial L P) → pairs o l r ≡ [] → Aligns (done o) l r
  unfolding pairs
  done-Aligns l r h = record { same = sym h; shorter = omega arith; aligned = tt }

  done-Ends : (l r : Polynomial L P) → pairs o l r ≡ [] → Ends (some (done o)) l r
  done-Ends l r h = (done o, refl, done-Aligns l r h)

  align_second-Ends :
      (again : L → Polynomial L P → Polynomial L P → Option (Positions L P)) (k : L)
      (p : Monomial L P) (l r : Polynomial L P)
      → o.cmp p.label k ≢ Ordering.lt
      → IsFrom o p.label r
      → ((q : Monomial L P) (r' : Polynomial L P)
          → r ≡ q ∷ r'
          → o.cmp k q.label ≢ Ordering.eq
          → Ends (again q.label (p ∷ l) (q ∷ r')) (p ∷ l) (q ∷ r'))
      → Ends (align_second o again k (p ∷ l) r) (p ∷ l) r
  align_second-Ends again k p l [] f g next = done-Ends (p ∷ l) [] (pairs-[] (p ∷ l))
  align_second-Ends again k p l (q ∷ r) f g next = by_result (o.cmp k q.label) refl
    where
      by_result :
          (c : Ordering)
          → o.cmp k q.label ≡ c
          → Ends (align_second o again k (p ∷ l) (q ∷ r)) (p ∷ l) (q ∷ r)
      by_result Ordering.lt h = rw h (next q r refl (λ e. cc))
      by_result Ordering.eq h = rw h (
        (p ∷ l, q ∷ r),
        refl,
        record {
          same = refl;
          shorter = omega arith;
          aligned =
              neither_below o p.label q.label
                (λ e. f (ap (o.cmp p.label) (o.eq_of_cmp k q.label h) ∙ e)) g;
        },
      )
      by_result Ordering.gt h = rw h (next q r refl (λ e. cc))

  align_first-Ends :
      (again : L → Polynomial L P → Polynomial L P → Option (Positions L P)) (k : L)
      (l r : Polynomial L P)
      → IsFrom o k l
      → ((p q : Monomial L P) (l' r' : Polynomial L P)
          → skip_below o p.label r ≡ q ∷ r'
          → o.cmp k q.label ≢ Ordering.eq
          → Ends (again q.label (p ∷ l') (q ∷ r')) (p ∷ l') (q ∷ r'))
      → Ends (align_first o again k l r) l r
  align_first-Ends again k [] r f next = done-Ends [] r (unfold pairs in refl)
  align_first-Ends again k (p ∷ l) r f next =
      Ends-trans _ (p ∷ l) (skip_below o p.label r) (p ∷ l) r
        (align_second-Ends again k p l (skip_below o p.label r) f (skip_below-IsFrom o p.label r)
          (λ q r' h n. next p q l r' h n))
        (pairs-skip_second p l r) (omega arith)

  -- Where the key found is not the one before, entries were skipped.
  length-skipped :
      (k : L) (q q' : Monomial L P) (r r' : Polynomial L P)
      → skip_below o k (q ∷ r) ≡ q' ∷ r'
      → o.cmp q.label q'.label ≢ Ordering.eq
      → suc (length r') ≤ length r
  unfolding skip_below
  length-skipped k q q' r r' h n = by_result (o.cmp q.label k) h
    where
      kept : q ∷ r ≡ q' ∷ r' → suc (length r') ≤ length r
      kept e =
          absurd (n (ap (λ x. o.cmp q.label (first_key q.label x)) (sym e) ∙ same_key o q.label))

      by_result :
          (c : Ordering)
          → by_order c (skip_below o k r) (q ∷ r) (q ∷ r) ≡ q' ∷ r'
          → suc (length r') ≤ length r
      by_result Ordering.lt e = omega (arith, length-skip_below k r, ap length e)
      by_result Ordering.eq e = kept e
      by_result Ordering.gt e = kept e

  -- The rounds after the first: each skips an entry of the second map.
  align-Ends :
      (n : ℕ) (q : Monomial L P) (l r : Polynomial L P)
      → suc (length r) ≤ n
      → Ends (align o n q.label l (q ∷ r)) l (q ∷ r)
  unfolding align
  align-Ends zero q l r h = absurd (omega (arith, h))
  align-Ends (suc n) q l r h =
      Ends-trans _ (skip_below o q.label l) (q ∷ r) l (q ∷ r)
        (align_first-Ends (λ k l r. align o n k l r) q.label (skip_below o q.label l) (q ∷ r)
          (skip_below-IsFrom o q.label l)
          (λ p q' l' r' e ne.
            align-Ends n q' (p ∷ l') r' (omega (arith, h, length-skipped p.label q q' r r' e ne))))
        (pairs-skip_first l r q) (length-skip_below q.label l)

  first_round :
      (p : Monomial L P) (l r : Polynomial L P)
      → align_first o (λ k l r'. align o (suc (length r)) k l r') p.label (p ∷ l) r
        ≡ align_at o (p ∷ l) r
  unfolding align
  first_round p l r =
      ap (λ x. align_first o (λ k l r'. align o (suc (length r)) k l r') p.label x r)
        (sym (skip-from p.label (p ∷ l) (not_below o p.label)))

  align_at-Ends : (l r : Polynomial L P) → Ends (align_at o l r) l r
  align_at-Ends [] r = done-Ends [] r (unfold pairs in refl)
  align_at-Ends (p ∷ l) r =
      subst (λ x. Ends x (p ∷ l) r) (first_round p l r)
        (align_first-Ends (λ k l r'. align o (suc (length r)) k l r') p.label (p ∷ l) r
          (not_below o p.label)
          (λ p' q l' r' e ne.
            align-Ends (suc (length r)) q (p' ∷ l') r'
              (omega (arith, length-skip_below p'.label r, ap length e))))

  zip_from-pairs :
      (n : ℕ) (c : Positions L P)
      → length c.0 ≤ n
      → IsAligned c.0 c.1
      → zip_from o n c ≡ some (pairs o c.0 c.1)
  unfolding zip_from pairs bind
  zip_from-pairs n ([], r) h a = refl
  zip_from-pairs n (p ∷ l, []) h a = ap some (sym (pairs-[] (p ∷ l)))
  zip_from-pairs zero (p ∷ l, q ∷ r) h a = absurd (omega (arith, h))
  zip_from-pairs (suc n) (p ∷ l, q ∷ r) h a =
      let (c, e, next) = align_at-Ends l (q ∷ r) in
      ap (λ x. then_entry o (dereference p q) (bind x (λ c. zip_from o n c))) e
      ∙ ap (then_entry o (dereference p q))
          (zip_from-pairs n c (omega (arith, h, next.shorter)) next.aligned ∙ ap some next.same)
      ∙ ap some (
          sym (
            rw
              (
                skip-from p.label (q ∷ r)
                    (λ e. ground (arith, flipped o p.label q.label Ordering.eq a, e)),
                a,
              )
              refl))

  -- The traversal ends, with the pairs of the two maps.
  pub zip_rounds-pairs : (l r : Polynomial L P) → zip_rounds o l r ≡ some (pairs o l r)
  unfolding zip_rounds bind
  zip_rounds-pairs l r =
      let (c, e, first) = align_at-Ends l r in
      ap (λ x. bind x (λ c. zip_from o (length l) c)) e
      ∙ zip_from-pairs (length l) c first.shorter first.aligned
      ∙ ap some first.same
