-- ===== src/Poly/Reduced.antt =====
-- The map of a polynomial holds no null weight.
use vcsn.Base.{◌≡◌, [], ◌∷◌, Ordering, Bool-cases, inl, inr, false}
use vcsn.Weight.{Weightset}
use vcsn.Poly.{
  Monomial, Polynomial, by_order, find, erase, set, Labels, set_weight, added_weight, add_here,
}

module _ {X K : Type 0} ⦃ws : Weightset K⦄ where
  -- The map holds no null weight.
  abbrev pub IsReduced : Polynomial X K → Type 0
  IsReduced [] = Unit
  IsReduced (m ∷ v) = (ws.is_zero m.weight ≡ false) × IsReduced v

  module _ (ps : Labels X) where
    erase-IsReduced_by :
        (c : Ordering) (m : Monomial X K) (v w : Polynomial X K)
        → IsReduced (m ∷ v)
        → IsReduced w
        → IsReduced (by_order c (m ∷ v) v (m ∷ w))
    erase-IsReduced_by Ordering.lt m v w h k = h
    erase-IsReduced_by Ordering.eq m v w h k = h.1
    erase-IsReduced_by Ordering.gt m v w h k = (h.0, k)

    erase-IsReduced :
        (v : Polynomial X K) (l : X) → IsReduced v → IsReduced (erase ps.order.cmp v l)
    unfolding erase
    erase-IsReduced [] l h = tt
    erase-IsReduced (m ∷ v) l h =
        erase-IsReduced_by (ps.order.cmp l m.label) m v (erase ps.order.cmp v l) h
          (erase-IsReduced v l h.1)

    set-IsReduced_by :
        (c : Ordering) (n m : Monomial X K) (v w : Polynomial X K)
        → ws.is_zero n.weight ≡ false
        → IsReduced (m ∷ v)
        → IsReduced w
        → IsReduced (by_order c (n ∷ m ∷ v) (n ∷ v) (m ∷ w))
    set-IsReduced_by Ordering.lt n m v w k h i = (k, h)
    set-IsReduced_by Ordering.eq n m v w k h i = (k, h.1)
    set-IsReduced_by Ordering.gt n m v w k h i = (h.0, i)

    set-IsReduced :
        (v : Polynomial X K) (l : X) (k : K)
        → ws.is_zero k ≡ false
        → IsReduced v
        → IsReduced (set ps.order.cmp v l k)
    unfolding set
    set-IsReduced [] l k n h = (n, tt)
    set-IsReduced (m ∷ v) l k n h =
        set-IsReduced_by (ps.order.cmp l m.label) (record { label = l; weight = k }) m v
          (set ps.order.cmp v l k) n h (set-IsReduced v l k n h.1)

    -- `add_here` keeps a polynomial free of null weights, also where the sum of two weights is
    -- null.
    pub add_here-IsReduced :
        (v : Polynomial X K) (l : X) (k : K) → IsReduced v → IsReduced (add_here ps v l k)
    unfolding add_here set_weight
    add_here-IsReduced v l k h = elim (Bool-cases (ps.label_is_zero l)) [
      | inl z ↦ rw z h
      | inr z ↦ elim (Bool-cases (ws.is_zero (added_weight ps (find ps.order.cmp v l) k))) [
        | inl n ↦ rw (z, n) (erase-IsReduced v l h)
        | inr n ↦ rw (z, n) (set-IsReduced v l _ n h)
      ]
    ]
