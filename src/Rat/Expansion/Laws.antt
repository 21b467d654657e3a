-- ===== src/Rat/Expansion/Laws.antt =====
-- What an expansion denotes, and the sums and the multiples of expansions.
use vcsn.Base.{
  ◌≡◌, ◌≢◌, refl, sym, ◌∙◌, ap, ap₂, subst, [], ◌∷◌, false, Eq, Result, Compare, Ordering, flip,
  fun_ext, Bool-cases, inl, inr, if◌then◌else◌,
}
use vcsn.Weight.{Weightset, IsSemiring, ◌⊕◌, ◌⊗◌}
use vcsn.Label.{IsLabelset}
use vcsn.Series.{Series, derive, zeros, unit, plus, left_scale, single}
use vcsn.Series.Linear.{plus-zeros, left_scale-one, left_scale-zero, left_scale-zeros}
use vcsn.Poly.{Polynomial, Found, by_order, find, add_all}
use vcsn.Poly.Laws.{value, value-add_all, value-lweight}
use vcsn.Rat.{Expr}
use vcsn.Rat.Denote.{Meaning, denote}
use vcsn.Rat.Make.{ExpressionSet}
use vcsn.Rat.Derivation.{expression_labels}
use vcsn.Rat.Derivation.Steps.{zero_label}
use vcsn.Rat.Derivation.Derivable.{single_letter}
use vcsn.Rat.Expansion.{
  Polys, Expansion, polynomial_at, found_or_empty, normalize, zero, one, atom, add_at, add_here,
  lweight, for_each, map_values,
}
use vcsn.Rat.Expansion.Maps.{
  IsTransitive, IsSorted, set-IsSorted, map_values-IsSorted, find-map_values, map_found,
}
use vcsn.Rat.Expansion.Erase.{erase_null-IsSorted, at-erase_null}
use vcsn.Rat.Expansion.Loops.{IsUpdate, updated, for_each-IsSorted, at-for_each, at-set}

module _ {A K : Type 0} ⦃e : Eq A⦄ ⦃ws : Weightset K⦄ (m : Meaning A A K) where
  -- The expansion of a series: the keys increase, the constant is the weight of the empty word, and
  -- the polynomial of each letter denotes the derivative by the letter.
  pub record Denotes (o : Compare A) (x : Expansion A K) (f : Series A K) : Type 0 where
    pub sorted : IsSorted o x.polynomials
    pub constant : x.constant ≡ f []
    pub at : (a : A) → value (denote m) (polynomial_at o x.polynomials a) ≡ derive a f

module _ {A K : Type 0} ⦃e : Eq A⦄ ⦃ws : Weightset K⦄ (m : Meaning A A K) (sr : IsSemiring ws)
    (rs : ExpressionSet A K) (trans : IsTransitive rs.keys.labels) (ldivide : K → K → Result K)
    (free : (l : A) → rs.labels.is_one l ≡ false) (letter : (l : A) → m.letters l ≡ l ∷ [])
    (sound : IsLabelset rs.labels m.letters) where
  abbrev pub den : Polynomial (Expr A K) K → Series A K
  den v = value (denote m) v

  abbrev pub den_at : Polys A K → A → Series A K
  den_at v a = den (polynomial_at rs.keys.labels v a)

  abbrev pub IsExpansion : Expansion A K → Series A K → Type 0
  IsExpansion x f = Denotes m rs.keys.labels x f

  pub normalize-Denotes :
      (x : Expansion A K) (f : Series A K) → IsExpansion x f → IsExpansion (normalize x) f
  unfolding normalize
  normalize-Denotes x f d = record {
    sorted = erase_null-IsSorted rs.keys.labels trans x.polynomials d.sorted;
    constant = d.constant;
    at = λ a. ap den (at-erase_null rs.keys.labels trans x.polynomials a d.sorted) ∙ d.at a;
  }

  pub zero-Denotes : IsExpansion (zero rs) zeros
  zero-Denotes = record { sorted = tt; constant = refl; at = λ a. unfold value find in refl }

  pub one-Denotes : IsExpansion (one rs) unit
  one-Denotes = record {
    sorted = tt;
    constant = unfold unit in refl;
    at = λ a. unfold value find unit in refl;
  }

  same_key : (a : A) → rs.keys.labels.cmp a a ≡ Ordering.eq
  same_key a = fixed _ (rs.keys.labels.flip-cmp a a)
    where
      fixed : (c : Ordering) → c ≡ flip c → c ≡ Ordering.eq
      fixed Ordering.lt h = cc
      fixed Ordering.eq h = refl
      fixed Ordering.gt h = cc

  unequal_key :
      (l a : A) (c : Ordering) → rs.keys.labels.cmp a l ≡ c → c ≢ Ordering.eq → e.beq l a ≡ false
  unequal_key l a c h n = elim (Bool-cases (e.beq l a)) [
    | inl t ↦ absurd (n (sym h ∙ ap (rs.keys.labels.cmp a) ((e.beq_iff l a).0 t) ∙ same_key a))
    | inr f ↦ f
  ]

  derive-letter :
      (l a : A) → (λ w. if e.beq l a then unit w else ws.zero) ≡ derive a (single (m.letters l))
  derive-letter l a =
      sym (fun_ext λ w. ap (λ u. single u (a ∷ w)) (letter l) ∙ single_letter sr l a w)

  atom_at :
      (c : Ordering) (l a : A)
      → rs.keys.labels.cmp a l ≡ c
      → den (
          found_or_empty (
            by_order c Found.absent
              (Found.present (record { label = Expr.one; weight = ws.one } ∷ []))
              Found.absent))
        ≡ (λ w. if e.beq l a then unit w else ws.zero)
  unfolding value denote
  atom_at Ordering.lt l a h = rw (unequal_key l a Ordering.lt h (λ p. cc))
  atom_at Ordering.eq l a h =
      plus-zeros sr _
      ∙ left_scale-one sr unit
      ∙ ap (λ b w. if b then unit w else ws.zero)
          (sym ((e.beq_iff l a).1 (sym (rs.keys.labels.eq_of_cmp a l h))))
  atom_at Ordering.gt l a h = rw (unequal_key l a Ordering.gt h (λ p. cc))

  pub atom-Denotes : (l : A) → IsExpansion (atom rs l) (single (m.letters l))
  atom-Denotes l = record {
    sorted = (tt, tt);
    constant = unfold single in sym (ap (λ u. single u []) (letter l));
    at = λ a. unfold find in (atom_at _ l a refl ∙ derive-letter l a);
  }

  den-updated :
      (h : Polynomial (Expr A K) K → Polynomial (Expr A K) K → Polynomial (Expr A K) K)
      (op : Series A K → Series A K)
      → op zeros ≡ zeros
      → ((x p : Polynomial (Expr A K) K) → den (h x p) ≡ plus (den x) (op (den p)))
      → (x : Polynomial (Expr A K) K) (r : Found (Polynomial (Expr A K) K))
      → den (updated h x r) ≡ plus (den x) (op (den (found_or_empty r)))
  den-updated h op op_zeros sum x Found.absent =
      unfold value in (sym (ap (plus (den x)) op_zeros ∙ plus-zeros sr (den x)))
  den-updated h op op_zeros sum x (Found.present p) = sum x p

  den_mapped :
      (f : Polynomial (Expr A K) K → Polynomial (Expr A K) K) (op : Series A K → Series A K)
      → op zeros ≡ zeros
      → ((p : Polynomial (Expr A K) K) → den (f p) ≡ op (den p))
      → (r : Found (Polynomial (Expr A K) K))
      → den (found_or_empty (map_found f r)) ≡ op (den (found_or_empty r))
  den_mapped f op op_zeros each Found.absent = unfold value in sym op_zeros
  den_mapped f op op_zeros each (Found.present p) = each p

  -- `map_values` applies an operation to the series of each letter.
  pub den_at-map_values :
      (f : Polynomial (Expr A K) K → Polynomial (Expr A K) K) (op : Series A K → Series A K)
      → op zeros ≡ zeros
      → ((p : Polynomial (Expr A K) K) → den (f p) ≡ op (den p))
      → (v : Polys A K) (a : A) → den_at (map_values f v) a ≡ op (den_at v a)
  den_at-map_values f op op_zeros each v a =
      ap (λ r. den (found_or_empty r)) (find-map_values rs.keys.labels trans f v a)
      ∙ den_mapped f op op_zeros each (find rs.keys.labels.cmp v a)

  -- A loop that adds the image of each polynomial.
  pub den_at-for_each :
      (step : Polys A K → A → Polynomial (Expr A K) K → Polys A K)
      (h : Polynomial (Expr A K) K → Polynomial (Expr A K) K → Polynomial (Expr A K) K)
      (op : Series A K → Series A K)
      → op zeros ≡ zeros
      → IsUpdate rs.keys.labels step h
      → ((x p : Polynomial (Expr A K) K) → den (h x p) ≡ plus (den x) (op (den p)))
      → (res v : Polys A K) (a : A) → IsSorted rs.keys.labels v
      → den_at (for_each step res v) a ≡ plus (den_at res a) (op (den_at v a))
  den_at-for_each step h op op_zeros update sum res v a s =
      ap den (at-for_each rs.keys.labels trans step h update res v a s)
      ∙ den-updated h op op_zeros sum (polynomial_at rs.keys.labels res a)
          (find rs.keys.labels.cmp v a)

  pub den-add_all :
      (x p : Polynomial (Expr A K) K)
      → den (add_all (expression_labels rs) x p) ≡ plus (den x) (den p)
  den-add_all x p =
      value-add_all sr (denote m) (expression_labels rs)
        (zero_label m sr rs ldivide free letter sound) x p

  -- `add_here` adds the series of two expansions.
  pub add_here-Denotes :
      (x y : Expansion A K) (f g : Series A K)
      → IsExpansion x f
      → IsExpansion y g
      → IsExpansion (add_here rs x y) (plus f g)
  unfolding add_here
  add_here-Denotes x y f g d c = normalize-Denotes _ (plus f g) (record {
    sorted =
        for_each-IsSorted rs.keys.labels trans (add_at rs) (add_all (expression_labels rs))
          (λ res l p s. set-IsSorted rs.keys.labels trans res l _ s) x.polynomials y.polynomials
          d.sorted;
    constant = ap₂ ◌⊕◌ d.constant c.constant;
    at = λ a.
        den_at-for_each (add_at rs) (add_all (expression_labels rs)) (λ f. f) refl
          (λ res l p a. at-set rs.keys.labels trans res l _ a) den-add_all x.polynomials
          y.polynomials a c.sorted
        ∙ ap₂ plus (d.at a) (c.at a);
  })

  pub lweight-Denotes :
      (w : K) (x : Expansion A K) (f : Series A K)
      → IsExpansion x f
      → IsExpansion (lweight rs w x) (left_scale w f)
  unfolding lweight
  lweight-Denotes w x f d = elim (Bool-cases (ws.is_zero w)) [
    | inl z ↦ rw z (
        subst IsZero (sym (ap (λ k. left_scale k f) (sr.eq_of_is_zero w z) ∙ left_scale-zero sr f))
          zero-Denotes)
    | inr n ↦ rw n (record {
      sorted = map_values-IsSorted rs.keys.labels trans _ x.polynomials d.sorted;
      constant = ap (λ k. w ⊗ k) d.constant;
      at = λ a.
          den_at-map_values _ (left_scale w) (left_scale-zeros sr w)
            (value-lweight sr (denote m) (expression_labels rs)
              (zero_label m sr rs ldivide free letter sound) w)
            x.polynomials a
          ∙ ap (left_scale w) (d.at a);
    })
  ]
    where
      IsZero : Series A K → Type 0
      IsZero g = IsExpansion (zero rs) g
