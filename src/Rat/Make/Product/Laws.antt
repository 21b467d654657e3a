-- ===== src/Rat/Make/Product/Laws.antt =====
-- The conjunction, the infiltration and the shuffle of expressions denote those of the series.
use vcsn.Base.{◌≡◌, refl, sym, ◌∙◌, ap, ap₂, subst, true, false, Eq, arith}
use vcsn.Weight.{Weightset, IsSemiring, ◌⊗◌}
use vcsn.Label.{IsLabelset}
use vcsn.Series.{
  Series, ones, unit, left_scale, right_scale, hadamard, shuffled, infiltrated, single,
  complemented,
}
use vcsn.Series.Hadamard.{
  zeros-hadamard, hadamard-zeros, ones-hadamard, hadamard-ones, complemented-zeros, hadamard-unit,
  hadamard-single, hadamard-single_ne, hadamard-unit-single, hadamard-single-unit,
}
use vcsn.Series.Interleave.{
  zeros-shuffled, shuffled-zeros, unit-shuffled, shuffled-unit, zeros-infiltrated,
  infiltrated-zeros, unit-infiltrated, infiltrated-unit,
}
use vcsn.Rat.{
  VariadicType, UnaryType, Expr, is_one, is_atom, is_universal, unwrap_possible_lweight,
  possibly_implicit_lweight,
}
use vcsn.Rat.Denote.{Meaning, denote}
use vcsn.Rat.Make.{ExpressionSet}
use vcsn.Rat.Make.Weights.{
  denote-is_zero, denote-is_one, denote-lweight, denote-rweight, denote-variadic,
}
use vcsn.Rat.Make.Add.{gather}
use vcsn.Rat.Make.Add.Laws.{denote-unwrap, denotes-gather}
use vcsn.Rat.Make.Mul.Laws.{weighted_one}
use vcsn.Rat.Make.Product.{equal_atoms, conjunction, conjunction_of_atoms, infiltrate, shuffle}

-- `atom` never makes an atom of a label that is one.
module _ {L K : Type 0} where
  abbrev pub IsProperAtom : ExpressionSet L K → Expr L K → Type 0
  IsProperAtom rs (Expr.atom a) = rs.labels.is_one a ≡ false
  IsProperAtom rs _ = Unit

module _ {A L K : Type 0} ⦃e : Eq A⦄ ⦃ws : Weightset K⦄ (m : Meaning A L K) (sr : IsSemiring ws)
    (rs : ExpressionSet L K) where
  shuffle_sound : (l r : Expr L K) → denote m (shuffle rs l r) ≡ shuffled (denote m l) (denote m r)
  unfolding shuffle
  shuffle_sound l r = ground (
    arith,
    denote-is_zero m l,
    denote-is_zero m r,
    denote-is_one m l,
    denote-is_one m r,
    zeros-shuffled sr (denote m r),
    shuffled-zeros sr (denote m l),
    unit-shuffled sr (denote m r),
    shuffled-unit sr (denote m l),
    denotes-gather m sr rs VariadicType.shuffle refl l r,
    denote-variadic m sr rs VariadicType.shuffle (gather rs VariadicType.shuffle l r),
  )

  infiltrate_sound :
      (l r : Expr L K) → denote m (infiltrate rs l r) ≡ infiltrated (denote m l) (denote m r)
  unfolding infiltrate
  infiltrate_sound l r = ground (
    arith,
    denote-is_zero m l,
    denote-is_zero m r,
    denote-is_one m l,
    denote-is_one m r,
    zeros-infiltrated sr (denote m r),
    infiltrated-zeros sr (denote m l),
    unit-infiltrated sr (denote m r),
    infiltrated-unit sr (denote m l),
    denotes-gather m sr rs VariadicType.infiltrate refl l r,
    denote-variadic m sr rs VariadicType.infiltrate (gather rs VariadicType.infiltrate l r),
  )

  -- Over any semiring of weights, `shuffle(l, r)` and `infiltrate(l, r)` denote the shuffle and
  -- the infiltration of the series of `l` and `r`, under every set of identities.
  pub denote-shuffle-infiltrate :
      (l r : Expr L K)
      → (denote m (shuffle rs l r) ≡ shuffled (denote m l) (denote m r))
        × (denote m (infiltrate rs l r) ≡ infiltrated (denote m l) (denote m r))
  denote-shuffle-infiltrate l r = (shuffle_sound l r, infiltrate_sound l r)

  denote-is_universal : (x : Expr L K) → is_universal x ≡ true → denote m x ≡ ones
  unfolding denote
  denote-is_universal (Expr.unary UnaryType.complement x) h =
      ap complemented (denote-is_zero m x h) ∙ complemented-zeros sr
  denote-is_universal (Expr.unary UnaryType.star x) h = cc
  denote-is_universal _ h = cc

  module _ (sound : IsLabelset rs.labels m.letters) where
    abbrev both : Expr L K → Expr L K → Series A K
    both l r = hadamard (denote m l) (denote m r)

    ones_both :
        (l r : Expr L K)
        → is_one (unwrap_possible_lweight l) ≡ true
        → is_one (unwrap_possible_lweight r) ≡ true
        → left_scale (possibly_implicit_lweight l ⊗ possibly_implicit_lweight r) unit ≡ both l r
    ones_both l r p q =
        sym (
          ap₂ hadamard (weighted_one m sr rs l p) (weighted_one m sr rs r q) ∙ hadamard-unit sr _ _)

    -- What a weighted atom denotes.
    atom_parts :
        (x : Expr L K)
        → is_atom (unwrap_possible_lweight x) ≡ true
        → (a : L) × (unwrap_possible_lweight x ≡ Expr.atom a)
          × (denote m x ≡ left_scale (possibly_implicit_lweight x) (single (m.letters a)))
    atom_parts x h = go (unwrap_possible_lweight x) h (denote-unwrap m sr rs x)
      where
        go :
            (y : Expr L K)
            → is_atom y ≡ true
            → denote m x ≡ left_scale (possibly_implicit_lweight x) (denote m y)
            → (a : L) × (y ≡ Expr.atom a)
              × (denote m x ≡ left_scale (possibly_implicit_lweight x) (single (m.letters a)))
        go (Expr.atom a) p q = (a, refl, unfold denote in q)
        go _ p q = cc

    atoms_equal :
        (l r : Expr L K)
        → is_atom (unwrap_possible_lweight l) ≡ true
        → is_atom (unwrap_possible_lweight r) ≡ true
        → equal_atoms rs (unwrap_possible_lweight l) (unwrap_possible_lweight r) ≡ true
        → right_scale (denote m l) (possibly_implicit_lweight r) ≡ both l r
    atoms_equal l r p q h =
        let (a, ea, da) = atom_parts l p in
        let (b, eb, db) = atom_parts r q in
        let same = sound.equal_words a b (sym (ap₂ (equal_atoms rs) ea eb) ∙ h) in
        sym (
          ap₂ hadamard da
            (db ∙ ap (λ u. left_scale (possibly_implicit_lweight r) (single u)) (sym same))
          ∙ hadamard-single sr _ _ (m.letters a)
          ∙ ap (λ f. right_scale f (possibly_implicit_lweight r)) (sym da))

    atoms_unequal :
        (l r : Expr L K)
        → is_atom (unwrap_possible_lweight l) ≡ true
        → is_atom (unwrap_possible_lweight r) ≡ true
        → equal_atoms rs (unwrap_possible_lweight l) (unwrap_possible_lweight r) ≡ false
        → denote m Expr.zero ≡ both l r
    atoms_unequal l r p q h =
        let (a, ea, da) = atom_parts l p in
        let (b, eb, db) = atom_parts r q in
        let differ = sound.unequal_words a b (sym (ap₂ (equal_atoms rs) ea eb) ∙ h) in
        denote-is_zero m Expr.zero refl
        ∙ sym (ap₂ hadamard da db ∙ hadamard-single_ne sr _ _ _ _ differ)

    one_atom :
        (l r : Expr L K)
        → IsProperAtom rs (unwrap_possible_lweight r)
        → is_one (unwrap_possible_lweight l) ≡ true
        → is_atom (unwrap_possible_lweight r) ≡ true
        → denote m Expr.zero ≡ both l r
    one_atom l r proper p q =
        let (b, eb, db) = atom_parts r q in
        denote-is_zero m Expr.zero refl
        ∙ sym (
            ap₂ hadamard (weighted_one m sr rs l p) db
            ∙ hadamard-unit-single sr _ _ _ (sound.ne_nil b (subst (IsProperAtom rs) eb proper)))

    atom_one :
        (l r : Expr L K)
        → IsProperAtom rs (unwrap_possible_lweight l)
        → is_atom (unwrap_possible_lweight l) ≡ true
        → is_one (unwrap_possible_lweight r) ≡ true
        → denote m Expr.zero ≡ both l r
    atom_one l r proper p q =
        let (a, ea, da) = atom_parts l p in
        denote-is_zero m Expr.zero refl
        ∙ sym (
            ap₂ hadamard da (weighted_one m sr rs r q)
            ∙ hadamard-single-unit sr _ _ _ (sound.ne_nil a (subst (IsProperAtom rs) ea proper)))

    denote-conjunction_of_atoms :
        (l r : Expr L K)
        → IsProperAtom rs (unwrap_possible_lweight l)
        → IsProperAtom rs (unwrap_possible_lweight r)
        → denote m (conjunction_of_atoms rs l r) ≡ both l r
    unfolding conjunction_of_atoms
    denote-conjunction_of_atoms l r pl pr = ground (
      arith,
      atoms_equal l r,
      atoms_unequal l r,
      one_atom l r pr,
      atom_one l r pl,
      denote-rweight m sr rs l (possibly_implicit_lweight r),
      denotes-gather m sr rs VariadicType.conjunction refl l r,
      denote-variadic m sr rs VariadicType.conjunction (gather rs VariadicType.conjunction l r),
    )

    -- Over any semiring of weights and any lawful labelset, `conjunction(l, r)` denotes the
    -- pointwise product of the series of `l` and `r`, under every set of identities, if neither is
    -- an atom labelled by one, under a left weight or not.
    pub denote-conjunction :
        (l r : Expr L K)
        → IsProperAtom rs (unwrap_possible_lweight l)
        → IsProperAtom rs (unwrap_possible_lweight r)
        → denote m (conjunction rs l r) ≡ hadamard (denote m l) (denote m r)
    unfolding conjunction
    denote-conjunction l r pl pr = ground (
      arith,
      denote-is_zero m l,
      denote-is_zero m r,
      denote-is_universal l,
      denote-is_universal r,
      zeros-hadamard sr (denote m r),
      hadamard-zeros sr (denote m l),
      ones-hadamard sr (denote m r),
      hadamard-ones sr (denote m l),
      ones_both l r,
      denote-lweight m sr rs (possibly_implicit_lweight l ⊗ possibly_implicit_lweight r) Expr.one,
      denote-is_one m Expr.one refl,
      denote-conjunction_of_atoms l r pl pr,
    )
