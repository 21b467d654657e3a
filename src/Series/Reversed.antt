-- ===== src/Series/Reversed.antt =====
-- The series of the reversed words, which is the transposed series where the weights are their own
-- transposition.
use vcsn.Base.{
  ◌≡◌, refl, sym, ◌∙◌, ap, ap₂, fun_ext, List, [], ◌∷◌, ◌++◌, reverse, reverse-append, true, false,
  Bool, Eq, if◌then◌else◌,
}
use vcsn.Weight.{Weightset, IsSemiring, ◌⊕◌, ◌⊗◌}
use vcsn.Series.{Series, derive, unit, product, shuffled, infiltrated, iterate, starred, single}
use vcsn.Series.Last.{derive_last, product_last, shuffled_last, infiltrated_last, starred_last}

reverse_cons : {A : Type 0} (a : A) (w : List A) → reverse (a ∷ w) ≡ reverse w ++ (a ∷ [])
reverse_cons a w = reverse-append (a ∷ []) w

module _ {A K : Type 0} where
  abbrev pub reversed : Series A K → Series A K
  reversed f w = f (reverse w)

  derive-reversed : (a : A) (f : Series A K) → derive a (reversed f) ≡ reversed (derive_last a f)
  derive-reversed a f = fun_ext λ w. ap f (reverse_cons a w)

module _ {A K : Type 0} ⦃ws : Weightset K⦄ (sr : IsSemiring ws) where
  unit_end : (w : List A) (a : A) → unit {K = K} (w ++ (a ∷ [])) ≡ ws.zero
  unfolding unit
  unit_end [] a = refl
  unit_end (b ∷ w) a = refl

  pub reversed-unit : (w : List A) → unit {K = K} (reverse w) ≡ unit w
  unfolding unit
  reversed-unit [] = refl
  reversed-unit (a ∷ w) = ap unit (reverse_cons a w) ∙ unit_end (reverse w) a

  shuffled_at :
      (f g : Series A K) (w : List A)
      → shuffled f g (reverse w) ≡ shuffled (reversed f) (reversed g) w
  unfolding shuffled
  shuffled_at f g [] = refl
  shuffled_at f g (a ∷ w) =
      ap (shuffled f g) (reverse_cons a w)
      ∙ shuffled_last sr f g a (reverse w)
      ∙ ap₂ ws.add
          (shuffled_at (derive_last a f) g w
            ∙ ap (λ x. shuffled x (reversed g) w) (sym (derive-reversed a f)))
          (shuffled_at f (derive_last a g) w
            ∙ ap (λ x. shuffled (reversed f) x w) (sym (derive-reversed a g)))

  infiltrated_at :
      (f g : Series A K) (w : List A)
      → infiltrated f g (reverse w) ≡ infiltrated (reversed f) (reversed g) w
  unfolding infiltrated
  infiltrated_at f g [] = refl
  infiltrated_at f g (a ∷ w) =
      ap (infiltrated f g) (reverse_cons a w)
      ∙ infiltrated_last sr f g a (reverse w)
      ∙ ap₂ ws.add
          (ap₂ ws.add
            (infiltrated_at (derive_last a f) g w
              ∙ ap (λ x. infiltrated x (reversed g) w) (sym (derive-reversed a f)))
            (infiltrated_at f (derive_last a g) w
              ∙ ap (λ x. infiltrated (reversed f) x w) (sym (derive-reversed a g))))
          (infiltrated_at (derive_last a f) (derive_last a g) w
            ∙ ap₂ (λ x y. infiltrated x y w) (sym (derive-reversed a f))
                (sym (derive-reversed a g)))

  pub reversed-shuffled :
      (f g : Series A K) → reversed (shuffled f g) ≡ shuffled (reversed f) (reversed g)
  reversed-shuffled f g = fun_ext (shuffled_at f g)

  pub reversed-infiltrated :
      (f g : Series A K) → reversed (infiltrated f g) ≡ infiltrated (reversed f) (reversed g)
  reversed-infiltrated f g = fun_ext (infiltrated_at f g)

  module _ (comm : ws.is_commutative ≡ true) where
    product_at :
        (f g : Series A K) (w : List A)
        → product f g (reverse w) ≡ product (reversed g) (reversed f) w
    unfolding product
    product_at f g [] = sr.mul_comm comm (f []) (g [])
    product_at f g (a ∷ w) =
        ap (product f g) (reverse_cons a w)
        ∙ product_last sr f g a (reverse w)
        ∙ sr.add_comm _ _
        ∙ ap₂ ws.add (sr.mul_comm comm _ _ ∙ ap (λ u. g [] ⊗ f u) (sym (reverse_cons a w))) (
            product_at f (derive_last a g) w
            ∙ ap (λ x. product x (reversed f) w) (sym (derive-reversed a g)))

    pub reversed-product :
        (f g : Series A K) → reversed (product f g) ≡ product (reversed g) (reversed f)
    reversed-product f g = fun_ext (product_at f g)

    -- The star is the only series that iterates so.
    module _ (g x : Series A K) (s : K) (start : x [] ≡ s)
        (next : (a : A) (w : List A) → x (a ∷ w) ≡ s ⊗ product (derive a g) x w) where
      iterates : (h : Series A K) (w : List A) → product h x w ≡ iterate g s h w
      unfolding product iterate
      iterates h [] = ap (λ k. h [] ⊗ k) start
      iterates h (a ∷ w) =
          ap₂ (λ y z. h [] ⊗ y ⊕ z) (next a w ∙ ap (λ k. s ⊗ k) (iterates (derive a g) w))
            (iterates (derive a h) w)

      star_unique : (w : List A) → x w ≡ starred g s w
      unfolding starred
      star_unique [] = start
      star_unique (a ∷ w) = next a w ∙ ap (λ k. s ⊗ k) (iterates (derive a g) w)

    pub reversed-starred :
        (f : Series A K) (s : K) → reversed (starred f s) ≡ starred (reversed f) s
    reversed-starred f s = fun_ext (star_unique (reversed f) (reversed (starred f s)) s start next)
      where
        start : starred f s [] ≡ s
        start = unfold starred in refl

        next :
            (a : A) (w : List A)
            → starred f s (reverse (a ∷ w))
              ≡ s ⊗ product (derive a (reversed f)) (reversed (starred f s)) w
        next a w =
            ap (starred f s) (reverse_cons a w)
            ∙ starred_last sr f s a (reverse w)
            ∙ sr.mul_comm comm _ _
            ∙ ap (λ k. s ⊗ k)
                (product_at (starred f s) (derive_last a f) w
                  ∙ ap (λ x. product x (reversed (starred f s)) w) (sym (derive-reversed a f)))

either_same {ℓ} : {X : Type ℓ} (t : Bool) (x : X) → (if t then x else x) ≡ x
either_same true x = refl
either_same false x = refl

module _ {A K : Type 0} ⦃e : Eq A⦄ ⦃ws : Weightset K⦄ where
  single_end : (w : List A) (a : A) → single {K = K} [] (w ++ (a ∷ [])) ≡ ws.zero
  unfolding single
  single_end [] a = refl
  single_end (b ∷ w) a = refl

  single_two :
      (l : A) (w : List A) (b a : A)
      → single {K = K} (l ∷ []) ((w ++ (b ∷ [])) ++ (a ∷ [])) ≡ ws.zero
  unfolding single
  single_two l [] b a = either_same (e.beq l b) ws.zero
  single_two l (c ∷ w) b a =
      ap (λ k. if e.beq l c then k else ws.zero) (single_end (w ++ (b ∷ [])) a)
      ∙ either_same (e.beq l c) ws.zero

  pub reversed-single :
      (l : A) → ◌≡◌ {A = Series A K} (reversed (single (l ∷ []))) (single (l ∷ []))
  reversed-single l = fun_ext at
    where
      at : (w : List A) → single {K = K} (l ∷ []) (reverse w) ≡ single (l ∷ []) w
      at [] = refl
      at (a ∷ []) = refl
      at (a ∷ b ∷ w) =
          ap (single (l ∷ [])) (reverse_cons a (b ∷ w) ∙ ap (λ u. u ++ (a ∷ [])) (reverse_cons b w))
          ∙ single_two l (reverse w) b a
          ∙ unfold single in sym (either_same (e.beq l a) ws.zero)
