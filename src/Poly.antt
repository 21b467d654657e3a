-- ===== src/Poly.antt =====
-- Polynomials (vcsn/weightset/polynomialset.hh): a map from the labels to the weights that are not
-- zero. The map is the sorted container of vcsn/misc/wet.hh, here a list of monomials in the order
-- of the labels.
pub mod Laws
pub mod Reduced
pub mod Zip
use vcsn.Base.{List, [], ◌∷◌, Bool, true, false, Comparison, Ordering, if◌then◌else◌}
use vcsn.Weight.{Weightset, ◌⊕◌, ◌⊗◌}

pub record Monomial (X K : Type 0) : Type 0 where
  pub label : X
  pub weight : K

abbrev pub Polynomial : Type 0 → Type 0 → Type 0
Polynomial X K = List (Monomial X K)

-- What a search of the map finds.
pub data Found (K : Type 0) : Type 0 where
  absent : Found K
  present : K → Found K

-- The three results of a comparison.
abbrev pub by_order {ℓ} : {B : Type ℓ} → Ordering → B → B → B → B
by_order Ordering.lt before same after = before
by_order Ordering.eq before same after = same
by_order Ordering.gt before same after = after

module _ {X K : Type 0} where
  -- `v.find(l)`
  unfoldable pub find : (X → X → Ordering) → Polynomial X K → X → Found K
  find cmp [] l = Found.absent
  find cmp (m ∷ v) l = by_order (cmp l m.label) Found.absent (Found.present m.weight) (find cmp v l)

  -- `v.erase(l)`
  unfoldable pub erase : (X → X → Ordering) → Polynomial X K → X → Polynomial X K
  erase cmp [] l = []
  erase cmp (m ∷ v) l = by_order (cmp l m.label) (m ∷ v) v (m ∷ erase cmp v l)

  -- `v.set(l, w)`
  unfoldable pub set : (X → X → Ordering) → Polynomial X K → X → K → Polynomial X K
  set cmp [] l w = record { label = l; weight = w } ∷ []
  set cmp (m ∷ v) l w =
      by_order (cmp l m.label) (record { label = l; weight = w } ∷ m ∷ v)
        (record { label = l; weight = w } ∷ v) (m ∷ set cmp v l w)

-- What a polynomialset knows of its labelset.
pub record Labels (X : Type 0) : Type 0 where
  pub order : Comparison X
  pub label_is_zero : X → Bool

module _ {X K : Type 0} ⦃ws : Weightset K⦄ (ps : Labels X) where
  unfoldable pub set_weight : Polynomial X K → X → K → Polynomial X K
  set_weight v l w = if ws.is_zero w then erase ps.order.cmp v l else set ps.order.cmp v l w

  -- The weight to store once the search is done.
  abbrev pub added_weight : Found K → K → K
  added_weight Found.absent k = k
  added_weight (Found.present w) k = w ⊕ k

  -- `add_here(v, l, k)`
  unfoldable pub add_here : Polynomial X K → X → K → Polynomial X K
  add_here v l k =
      if ps.label_is_zero l then v else set_weight v l (added_weight (find ps.order.cmp v l) k)

  -- `for (const auto& m: r) add_here(l, m);`
  unfoldable pub add_all : Polynomial X K → Polynomial X K → Polynomial X K
  add_all l [] = l
  add_all l (m ∷ r) = add_all (add_here l m.label m.weight) r

  -- `for (const auto& m: v) add_here(res, f(label_of(m)), g(weight_of(m)));`
  unfoldable pub add_images : (X → X) → (K → K) → Polynomial X K → Polynomial X K → Polynomial X K
  add_images f g res [] = res
  add_images f g res (m ∷ v) = add_images f g (add_here res (f m.label) (g m.weight)) v

  unfoldable pub lweight : K → Polynomial X K → Polynomial X K
  lweight w v =
      if ws.is_one w then v else if ws.is_zero w then [] else add_images (λ l. l) (λ k. w ⊗ k) [] v

  -- `rweight`, where the labelset has a `rweight` of its own.
  unfoldable pub rweight : (X → K → X) → Polynomial X K → K → Polynomial X K
  rweight label_rweight v w =
      if ws.is_one w
      then v
      else if ws.is_zero w
      then []
      else add_images (λ l. label_rweight l w) (λ k. k) [] v

  unfoldable pub rmul_label : (X → X → X) → Polynomial X K → X → Polynomial X K
  rmul_label label_mul v rhs = add_images (λ l. label_mul l rhs) (λ k. k) [] v

  -- The loops of `conjunction` and of the general `mul`, over the monomials of both polynomials.
  unfoldable pub add_pairs :
      (X → X → X) → Polynomial X K → Polynomial X K → Polynomial X K → Polynomial X K
  add_pairs label_op res [] r = res
  add_pairs label_op res (m ∷ v) r =
      add_pairs label_op (add_images (label_op m.label) (λ k. m.weight ⊗ k) res r) v r

  unfoldable pub pairwise : (X → X → X) → Polynomial X K → Polynomial X K → Polynomial X K
  pairwise label_op l r = add_pairs label_op [] l r
