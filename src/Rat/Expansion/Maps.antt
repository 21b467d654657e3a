-- ===== src/Rat/Expansion/Maps.antt =====
-- The searches of a sorted map with one value for each key: what a lookup gives after an
-- assignment, after null values are erased, and where two maps are zipped.
use vcsn.Base.{flipped, ◌≡◌, refl, sym, ap, subst, ◌∙◌, [], ◌∷◌, Compare, Ordering}
use vcsn.Poly.{Monomial, Polynomial, Found, by_order, find, set}
use vcsn.Rat.Expansion.{map_values}

-- The order on the keys is transitive.
abbrev pub IsTransitive : {L : Type 0} → Compare L → Type 0
IsTransitive {L} o =
    (a b c : L) → o.cmp a b ≡ Ordering.lt → o.cmp b c ≡ Ordering.lt → o.cmp a c ≡ Ordering.lt

module _ {L P : Type 0} (o : Compare L) where
  -- The key is below those of the map.
  abbrev pub IsBelow : L → Polynomial L P → Type 0
  IsBelow k [] = Unit
  IsBelow k (p ∷ v) = o.cmp k p.label ≡ Ordering.lt

  -- The keys increase, as in a `std::map`.
  abbrev pub IsSorted : Polynomial L P → Type 0
  IsSorted [] = Unit
  IsSorted (p ∷ v) = IsBelow p.label v × IsSorted v

-- What a search finds, changed.
abbrev pub map_found : {P : Type 0} → (P → P) → Found P → Found P
map_found f Found.absent = Found.absent
map_found f (Found.present p) = Found.present (f p)

module _ {L P : Type 0} (o : Compare L) (trans : IsTransitive o) where
  pub IsBelow-trans :
      (k l : L) (v : Polynomial L P) → o.cmp k l ≡ Ordering.lt → IsBelow o l v → IsBelow o k v
  IsBelow-trans k l [] h b = tt
  IsBelow-trans k l (p ∷ v) h b = trans k l p.label h b

  pub find-IsBelow : (k : L) (v : Polynomial L P) → IsBelow o k v → find o.cmp v k ≡ Found.absent
  unfolding find
  find-IsBelow k [] b = refl
  find-IsBelow k (p ∷ v) b = rw b

  -- A lookup after an assignment.
  find-set_by :
      (p : Monomial L P) (v : Polynomial L P) (l a : L) (w : P) (c d e : Ordering)
      → o.cmp l p.label ≡ c
      → o.cmp a l ≡ d
      → o.cmp a p.label ≡ e
      → find o.cmp (set o.cmp v l w) a
        ≡ by_order d (find o.cmp v a) (Found.present w) (find o.cmp v a)
      → find o.cmp (set o.cmp (p ∷ v) l w) a
        ≡ by_order d (find o.cmp (p ∷ v) a) (Found.present w) (find o.cmp (p ∷ v) a)
  unfolding find set
  find-set_by p v l a w Ordering.lt Ordering.lt e hc hd he ih = rw (hc, hd, trans a l p.label hd hc)
  find-set_by p v l a w Ordering.lt Ordering.eq e hc hd he ih = rw (hc, hd)
  find-set_by p v l a w Ordering.lt Ordering.gt e hc hd he ih = rw (hc, hd)
  find-set_by p v l a w Ordering.eq Ordering.lt e hc hd he ih =
      rw (hc, hd, ap (o.cmp a) (sym (o.eq_of_cmp l p.label hc)) ∙ hd)
  find-set_by p v l a w Ordering.eq Ordering.eq e hc hd he ih = rw (hc, hd)
  find-set_by p v l a w Ordering.eq Ordering.gt e hc hd he ih =
      rw (hc, hd, ap (o.cmp a) (sym (o.eq_of_cmp l p.label hc)) ∙ hd)
  find-set_by p v l a w Ordering.gt d Ordering.lt hc hd he ih =
      rw (hc, he, sym hd ∙ trans a p.label l he (flipped o l p.label Ordering.gt hc))
  find-set_by p v l a w Ordering.gt d Ordering.eq hc hd he ih = rw (
    hc,
    he,
    sym hd ∙ ap (λ x. o.cmp x l) (o.eq_of_cmp a p.label he) ∙ flipped o l p.label Ordering.gt hc,
  )
  find-set_by p v l a w Ordering.gt d Ordering.gt hc hd he ih = rw (hc, he) ih

  pub find-set :
      (v : Polynomial L P) (l a : L) (w : P)
      → find o.cmp (set o.cmp v l w) a
        ≡ by_order (o.cmp a l) (find o.cmp v a) (Found.present w) (find o.cmp v a)
  find-set [] l a w = unfold find set in refl
  find-set (p ∷ v) l a w = find-set_by p v l a w _ _ _ refl refl refl (find-set v l a w)

  set-IsBelow :
      (k l : L) (v : Polynomial L P) (w : P)
      → o.cmp k l ≡ Ordering.lt
      → IsBelow o k v
      → IsBelow o k (set o.cmp v l w)
  unfolding set
  set-IsBelow k l [] w h b = h
  set-IsBelow k l (p ∷ v) w h b =
      elim (o.cmp l p.label)
        as (λ c. IsBelow o k (
          by_order c (record { label = l; weight = w } ∷ p ∷ v)
            (record { label = l; weight = w } ∷ v) (p ∷ set o.cmp v l w))) [
              | Ordering.lt ↦ h
              | Ordering.eq ↦ h
              | Ordering.gt ↦ b
            ]

  set-IsSorted_by :
      (p : Monomial L P) (v : Polynomial L P) (l : L) (w : P) (c : Ordering)
      → o.cmp l p.label ≡ c
      → IsSorted o (p ∷ v)
      → IsSorted o (set o.cmp v l w)
      → IsSorted o (
          by_order c
            (record { label = l; weight = w } ∷ p ∷ v)
            (record { label = l; weight = w } ∷ v)
            (p ∷ set o.cmp v l w))
  set-IsSorted_by p v l w Ordering.lt h s ih = (h, s)
  set-IsSorted_by p v l w Ordering.eq h s ih =
      (subst (λ x. IsBelow o x v) (sym (o.eq_of_cmp l p.label h)) s.0, s.1)
  set-IsSorted_by p v l w Ordering.gt h s ih =
      (set-IsBelow p.label l v w (flipped o l p.label Ordering.gt h) s.0, ih)

  pub set-IsSorted :
      (v : Polynomial L P) (l : L) (w : P) → IsSorted o v → IsSorted o (set o.cmp v l w)
  unfolding set
  set-IsSorted [] l w s = (tt, tt)
  set-IsSorted (p ∷ v) l w s = set-IsSorted_by p v l w _ refl s (set-IsSorted v l w s.1)

  pub map_values-IsSorted :
      (f : P → P) (v : Polynomial L P) → IsSorted o v → IsSorted o (map_values f v)
  unfolding map_values
  map_values-IsSorted f [] s = tt
  map_values-IsSorted f (p ∷ []) s = (tt, tt)
  map_values-IsSorted f (p ∷ q ∷ v) s = (s.0, map_values-IsSorted f (q ∷ v) s.1)

  pub find-map_values :
      (f : P → P) (v : Polynomial L P) (a : L)
      → find o.cmp (map_values f v) a ≡ map_found f (find o.cmp v a)
  unfolding find map_values
  find-map_values f [] a = refl
  find-map_values f (p ∷ v) a =
      elim (o.cmp a p.label)
        as (λ c.
          by_order c Found.absent (Found.present (f p.weight)) (find o.cmp (map_values f v) a)
          ≡ map_found f (by_order c Found.absent (Found.present p.weight) (find o.cmp v a))) [
            | Ordering.lt ↦ refl
            | Ordering.eq ↦ refl
            | Ordering.gt ↦ find-map_values f v a
          ]
