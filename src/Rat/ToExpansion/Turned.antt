-- ===== src/Rat/ToExpansion/Turned.antt =====
-- The series that a visit computes: that of the node, or that of the reversed words.
use vcsn.Base.{
  ◌≡◌, refl, sym, ◌∙◌, ap, fun_ext, List, [], ◌∷◌, reverse, reverse-reverse, Bool, true, false, not,
  Eq, Result, ok, Bool-cases, inl, inr, if◌then◌else◌, arith,
}
use vcsn.Weight.{Weightset, IsSemiring}
use vcsn.Label.{IsLabelset}
use vcsn.Series.{
  Series, unit, zeros, ones, plus, hadamard, single, shuffled, infiltrated, transposed,
}
use vcsn.Series.Linear.{plus-zeros}
use vcsn.Series.Hadamard.{hadamard-ones}
use vcsn.Series.Reversed.{
  reversed, reversed-unit, reversed-single, reversed-shuffled, reversed-infiltrated,
}
use vcsn.Rat.{UnaryType, Expr, is_zero, is_one, is_atom}
use vcsn.Rat.Identities.{is_agressive}
use vcsn.Rat.Denote.{Meaning, denote}
use vcsn.Rat.Make.{ExpressionSet, make_atom}
use vcsn.Rat.Make.Weights.{denote-is_zero, denote-is_one}
use vcsn.Rat.Make.Transposition.{make_transposition, transposed_atom}

-- Where the weights commute, each is its own transposition, as in every set of numbers.
abbrev pub IsPlain : {K : Type 0} → Weightset K → Type 0
IsPlain {K} ws = ws.is_commutative ≡ true → (k : K) → ws.transpose k ≡ k

-- Where the visit is transposed the weights commute.
abbrev pub MayTurn : {K : Type 0} → Weightset K → Bool → Type 0
MayTurn ws t = t ≡ true → ws.is_commutative ≡ true

module _ {A K : Type 0} where
  abbrev pub turned : Bool → Series A K → Series A K
  turned true f = reversed f
  turned false f = f

-- The deep transpositions that are computed, which are used under the agressive identities only,
-- denote the series of the reversed words.
abbrev pub IsReversing :
    {A K : Type 0} ⦃e : Eq A⦄ ⦃ws : Weightset K⦄
    → Meaning A A K
    → ExpressionSet A K
    → (Expr A K → Result (Expr A K))
    → Type 0
IsReversing {A} {K} m rs transpose =
    is_agressive rs.identities ≡ true
    → (x y : Expr A K) → transpose x ≡ ok y
    → denote m y ≡ reversed (denote m x)

module _ {A K : Type 0} ⦃ws : Weightset K⦄ (plain : IsPlain ws)
    (comm : ws.is_commutative ≡ true) where
  pub transposed-reversed : (f : Series A K) → transposed f ≡ reversed f
  transposed-reversed f = fun_ext λ w. plain comm (f (reverse w))

  -- A transposition visited in either way.
  pub turned-transposed : (t : Bool) (f : Series A K) → turned (not t) f ≡ turned t (transposed f)
  turned-transposed true f =
      fun_ext λ w. sym (plain comm (f (reverse (reverse w))) ∙ ap f (reverse-reverse w))
  turned-transposed false f = sym (transposed-reversed f)

module _ {A K : Type 0} ⦃ws : Weightset K⦄ (sr : IsSemiring ws) where
  pub turned-unit : (t : Bool) → (λ (w : List A). turned t (unit {K = K}) w) ≡ unit
  turned-unit true = fun_ext (reversed-unit sr)
  turned-unit false = refl

  pub turned-plus :
      (t : Bool) (f g : Series A K) → turned t (plus f g) ≡ plus (turned t f) (turned t g)
  turned-plus true f g = refl
  turned-plus false f g = refl

  pub turned-hadamard :
      (t : Bool) (f g : Series A K) → turned t (hadamard f g) ≡ hadamard (turned t f) (turned t g)
  turned-hadamard true f g = refl
  turned-hadamard false f g = refl

  -- A sum with what a loop has not yet reached.
  pub plus-turned-zeros : (t : Bool) (f : Series A K) → plus f (turned t zeros) ≡ f
  plus-turned-zeros true f = plus-zeros sr f
  plus-turned-zeros false f = plus-zeros sr f

  pub hadamard-turned-ones : (t : Bool) (f : Series A K) → hadamard f (turned t ones) ≡ f
  hadamard-turned-ones true f = hadamard-ones sr f
  hadamard-turned-ones false f = hadamard-ones sr f

  pub turned-shuffled :
      (t : Bool) (f g : Series A K) → turned t (shuffled f g) ≡ shuffled (turned t f) (turned t g)
  turned-shuffled true f g = reversed-shuffled sr f g
  turned-shuffled false f g = refl

  pub turned-infiltrated :
      (t : Bool) (f g : Series A K)
      → turned t (infiltrated f g) ≡ infiltrated (turned t f) (turned t g)
  turned-infiltrated true f g = reversed-infiltrated sr f g
  turned-infiltrated false f g = refl

module _ {A K : Type 0} ⦃e : Eq A⦄ ⦃ws : Weightset K⦄ (m : Meaning A A K) (sr : IsSemiring ws)
    (rs : ExpressionSet A K) (free : (l : A) → rs.labels.is_one l ≡ false)
    (letter : (l : A) → m.letters l ≡ l ∷ []) (sound : IsLabelset rs.labels m.letters) where
  -- A letter is its own transposition.
  transpose_letter : (l : A) → m.letters (rs.labels.transpose l) ≡ m.letters l
  transpose_letter l = sound.letters-transpose l ∙ ap reverse (letter l) ∙ sym (letter l)

  pub turned-single :
      (t : Bool) (l : A) → turned t (single (m.letters l)) ≡ single {K = K} (m.letters l)
  turned-single true l =
      ap (λ u. reversed (single u)) (letter l)
      ∙ reversed-single l
      ∙ ap (λ u. single u) (sym (letter l))
  turned-single false l = refl

  pub visited_letter :
      (t : Bool) (l : A)
      → single {K = K} (m.letters (if t then rs.labels.transpose l else l))
        ≡ turned t (single (m.letters l))
  visited_letter true l = ap (λ u. single u) (transpose_letter l) ∙ sym (turned-single true l)
  visited_letter false l = refl

  turned_zero : (x : Expr A K) → is_zero x ≡ true → denote m x ≡ reversed (denote m x)
  turned_zero x h = denote-is_zero m x h ∙ sym (ap reversed (denote-is_zero m x h))

  turned_one : (x : Expr A K) → is_one x ≡ true → denote m x ≡ reversed (denote m x)
  turned_one x h =
      denote-is_one m x h
      ∙ sym (fun_ext (reversed-unit sr))
      ∙ sym (ap reversed (denote-is_one m x h))

  turned_atom :
      (x : Expr A K) → is_atom x ≡ true → denote m (transposed_atom rs x) ≡ reversed (denote m x)
  unfolding denote make_atom
  turned_atom (Expr.atom l) h = rw (free (rs.labels.transpose l)) (visited_letter true l)
  turned_atom Expr.zero h = cc
  turned_atom Expr.one h = cc
  turned_atom (Expr.name x s) h = cc
  turned_atom (Expr.variadic t xs) h = cc
  turned_atom (Expr.unary t x) h = cc
  turned_atom (Expr.weight_node t k x) h = cc

  module _ (plain : IsPlain ws) (comm : ws.is_commutative ≡ true) where
    turned_node :
        (x : Expr A K) → denote m (Expr.unary UnaryType.transposition x) ≡ reversed (denote m x)
    unfolding denote
    turned_node x = transposed-reversed plain comm (denote m x)

    -- The constructor, where the deep transposition is sound.
    pub denote-make_transposition :
        (deep : Result (Expr A K)) (x y : Expr A K)
        → (is_agressive rs.identities ≡ true
            → (z : Expr A K) → deep ≡ ok z
            → denote m z ≡ reversed (denote m x))
        → make_transposition rs deep x ≡ ok y
        → denote m y ≡ reversed (denote m x)
    unfolding make_transposition
    denote-make_transposition deep x y h made = elim (Bool-cases (is_agressive rs.identities)) [
      | inl a ↦ h a y (ground (arith, a, made))
      | inr n ↦ ground (arith, n, made, turned_zero x, turned_one x, turned_atom x, turned_node x)
    ]
