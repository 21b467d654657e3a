-- ===== src/Rat/Transpose/Laws.antt =====
-- The deep transposition denotes the series of the reversed words.
use vcsn.Base.{
  ◌≡◌, refl, sym, ◌∙◌, ap, ap₂, fun_ext, [], ◌∷◌, Bool, true, false, ◌||◌, ◌&&◌, Eq, Result, ok,
  raise, Error, >>=-eq-ok, if◌then◌else◌,
}
use vcsn.Weight.{Weightset, IsSemiring}
use vcsn.Label.{IsLabelset}
use vcsn.Series.{
  Series, plus, product, hadamard, shuffled, infiltrated, left_scale, right_scale, starred,
  transposed,
}
use vcsn.Series.Linear.{right_scale_comm}
use vcsn.Series.Reversed.{
  reversed, reversed-unit, reversed-product, reversed-shuffled, reversed-infiltrated,
  reversed-starred,
}
use vcsn.Rat.{VariadicType, UnaryType, WeightType, Expr, Exprs}
use vcsn.Rat.Identities.{is_agressive}
use vcsn.Rat.Denote.{Meaning, denote, denotes, star_or, combine}
use vcsn.Rat.Denote.Variadic.{is_lawful, combine_assoc, combine-neutral, denotes-cons}
use vcsn.Rat.Constant.Laws.{ok_eq}
use vcsn.Rat.Make.{ExpressionSet, make_atom, lweight, rweight}
use vcsn.Rat.Make.Weights.{denote-lweight, denote-rweight}
use vcsn.Rat.Make.Add.Laws.{denote-add}
use vcsn.Rat.Make.Mul.Laws.{denote-mul}
use vcsn.Rat.Make.Product.Laws.{denote-conjunction, denote-shuffle-infiltrate}
use vcsn.Rat.Make.Unary.{make_star}
use vcsn.Rat.Make.Unary.Laws.{denote-make_star}
use vcsn.Rat.Make.Transposition.{is_transposition}
use vcsn.Rat.Derivation.Derivable.{both_true}
use vcsn.Rat.Derivation.Steps.{proper_atom}
use vcsn.Rat.ToExpansion.Turned.{
  IsPlain, transposed-reversed, turned-transposed, denote-make_transposition, visited_letter,
}
use vcsn.Rat.Transpose.{is_ldivide, binary, transpose, transpose_operands, transpose_tail, shallow}

module _ {L K : Type 0} where
  -- Whether the expression has no complement.
  abbrev mutual
    pub is_positive : Expr L K → Bool
    is_positive (Expr.name e s) = is_positive e
    is_positive (Expr.variadic t es) = are_positive es
    is_positive (Expr.unary UnaryType.complement e) = false
    is_positive (Expr.unary t e) = is_positive e
    is_positive (Expr.weight_node t w e) = is_positive e
    is_positive _ = true

    pub are_positive : Exprs L K → Bool
    are_positive Exprs.nil = true
    are_positive (Exprs.cons e es) = is_positive e && are_positive es

module _ {A K : Type 0} ⦃e : Eq A⦄ ⦃ws : Weightset K⦄ (m : Meaning A A K) (sr : IsSemiring ws)
    (rs : ExpressionSet A K) (ldivide : K → K → Result K)
    (free : (l : A) → rs.labels.is_one l ≡ false) (letter : (l : A) → m.letters l ≡ l ∷ [])
    (sound : IsLabelset rs.labels m.letters) (plain : IsPlain ws) (comm : ws.is_commutative ≡ true)
    (gentle : is_agressive rs.identities ≡ false) where
  abbrev reversal : Expr A K → Series A K
  reversal x = reversed (denote m x)

  shallow_sound : (x y : Expr A K) → shallow rs x ≡ ok y → denote m y ≡ reversal x
  shallow_sound x y h =
      denote-make_transposition m sr rs free letter sound plain comm (raise Error.unsupported) x y
        (λ a z k. cc) h

  reversed_twice : (x : Expr A K) → denote m x ≡ reversal (Expr.unary UnaryType.transposition x)
  unfolding denote
  reversed_twice x = turned-transposed plain comm true (denote m x)

  unary_sound :
      (b : Bool) (x y : Expr A K)
      → (if b then ok x else shallow rs (Expr.unary UnaryType.transposition x)) ≡ ok y
      → denote m y ≡ reversal (Expr.unary UnaryType.transposition x)
  unary_sound true x y h = ap (denote m) (sym (ok_eq x y h)) ∙ reversed_twice x
  unary_sound false x y h = shallow_sound (Expr.unary UnaryType.transposition x) y h

  star_sound :
      (x y z : Expr A K)
      → denote m y ≡ reversal x
      → make_star rs y ≡ ok z
      → denote m z ≡ reversal (Expr.unary UnaryType.star x)
  unfolding denote
  star_sound x y z h k =
      denote-make_star m sr rs y z gentle k
      ∙ ap (λ f. starred f (star_or ws (ws.star (f [])))) h
      ∙ sym (reversed-starred sr comm (denote m x) _)

  atom_sound : (l : A) → denote m (make_atom rs (rs.labels.transpose l)) ≡ reversal (Expr.atom l)
  unfolding denote make_atom
  atom_sound l = rw (free (rs.labels.transpose l)) (visited_letter m sr rs free letter sound true l)

  lweight_sound :
      (k : K) (x y : Expr A K)
      → denote m y ≡ reversal x
      → denote m (rweight rs y (ws.transpose k))
        ≡ reversal (Expr.weight_node WeightType.lweight k x)
  unfolding denote
  lweight_sound k x y h =
      denote-rweight m sr rs y (ws.transpose k)
      ∙ ap₂ right_scale h (plain comm k)
      ∙ right_scale_comm sr comm (reversal x) k

  rweight_sound :
      (k : K) (x y : Expr A K)
      → denote m y ≡ reversal x
      → denote m (lweight rs (ws.transpose k) y)
        ≡ reversal (Expr.weight_node WeightType.rweight k x)
  unfolding denote
  rweight_sound k x y h =
      denote-lweight m sr rs (ws.transpose k) y
      ∙ ap₂ left_scale (plain comm k) h
      ∙ sym (right_scale_comm sr comm (reversal x) k)

  -- One more operand.
  binary_sound :
      (t : VariadicType) (r c : Expr A K) (f g : Series A K)
      → is_lawful t ≡ true
      → denote m r ≡ reversed f
      → denote m c ≡ reversed g
      → denote m (binary rs t r c) ≡ reversed (combine m t f g)
  binary_sound VariadicType.add r c f g l hr hc = denote-add m sr rs r c ∙ ap₂ plus hr hc
  binary_sound VariadicType.mul r c f g l hr hc =
      denote-mul m sr rs c r ∙ ap₂ product hc hr ∙ sym (reversed-product sr comm f g)
  binary_sound VariadicType.conjunction r c f g l hr hc =
      denote-conjunction m sr rs sound r c (proper_atom m sr rs ldivide free letter sound _)
        (proper_atom m sr rs ldivide free letter sound _)
      ∙ ap₂ hadamard hr hc
  binary_sound VariadicType.shuffle r c f g l hr hc =
      (denote-shuffle-infiltrate m sr rs r c).0
      ∙ ap₂ shuffled hr hc
      ∙ sym (reversed-shuffled sr f g)
  binary_sound VariadicType.infiltrate r c f g l hr hc =
      (denote-shuffle-infiltrate m sr rs r c).1
      ∙ ap₂ infiltrated hr hc
      ∙ sym (reversed-infiltrated sr f g)
  binary_sound VariadicType.compose r c f g l hr hc = cc
  binary_sound VariadicType.ldivide r c f g l hr hc = cc

  mutual
    unfolding transpose transpose_operands transpose_tail denote denotes

    transpose_at :
        (x y : Expr A K)
        → is_positive x ≡ true
        → transpose rs (shallow rs) x ≡ ok y
        → denote m y ≡ reversal x
    transpose_at Expr.zero y d h = ap (denote m) (sym (ok_eq _ _ h))
    transpose_at Expr.one y d h =
        ap (denote m) (sym (ok_eq _ _ h)) ∙ sym (fun_ext (reversed-unit sr))
    transpose_at (Expr.atom l) y d h = ap (denote m) (sym (ok_eq _ _ h)) ∙ atom_sound l
    transpose_at (Expr.name x s) y d h =
        let (z, hz, hy) = >>=-eq-ok (transpose rs (shallow rs) x) _ h in
        ap (denote m) (sym (ok_eq _ _ hy)) ∙ transpose_at x z d hz
    transpose_at (Expr.variadic VariadicType.compose xs) y d h = cc
    transpose_at (Expr.variadic VariadicType.ldivide xs) y d h =
        shallow_sound (Expr.variadic VariadicType.ldivide xs) y h
    transpose_at (Expr.variadic VariadicType.add xs) y d h =
        variadic_at VariadicType.add xs y refl d h
    transpose_at (Expr.variadic VariadicType.mul xs) y d h =
        variadic_at VariadicType.mul xs y refl d h
    transpose_at (Expr.variadic VariadicType.conjunction xs) y d h =
        variadic_at VariadicType.conjunction xs y refl d h
    transpose_at (Expr.variadic VariadicType.shuffle xs) y d h =
        variadic_at VariadicType.shuffle xs y refl d h
    transpose_at (Expr.variadic VariadicType.infiltrate xs) y d h =
        variadic_at VariadicType.infiltrate xs y refl d h
    transpose_at (Expr.unary UnaryType.star x) y d h =
        let (z, hz, hy) = >>=-eq-ok (transpose rs (shallow rs) x) _ h in
        star_sound x z y (transpose_at x z d hz) hy
    transpose_at (Expr.unary UnaryType.complement x) y d h = cc
    transpose_at (Expr.unary UnaryType.transposition x) y d h =
        unary_sound (is_transposition x || is_ldivide x) x y h
    transpose_at (Expr.weight_node WeightType.lweight k x) y d h =
        let (z, hz, hy) = >>=-eq-ok (transpose rs (shallow rs) x) _ h in
        ap (denote m) (sym (ok_eq _ _ hy)) ∙ lweight_sound k x z (transpose_at x z d hz)
    transpose_at (Expr.weight_node WeightType.rweight k x) y d h =
        let (z, hz, hy) = >>=-eq-ok (transpose rs (shallow rs) x) _ h in
        ap (denote m) (sym (ok_eq _ _ hy)) ∙ rweight_sound k x z (transpose_at x z d hz)

    variadic_at :
        (t : VariadicType) (xs : Exprs A K) (y : Expr A K)
        → is_lawful t ≡ true
        → are_positive xs ≡ true
        → transpose_operands rs (shallow rs) t xs ≡ ok y
        → denote m y ≡ reversed (denotes m t xs)
    variadic_at t Exprs.nil y l d h = cc
    variadic_at t (Exprs.cons x xs) y l d h =
        let (z, hz, hy) = >>=-eq-ok (transpose rs (shallow rs) x) _ h in
        let (dx, dxs) = both_true (is_positive x) (are_positive xs) d in
        tail_at t xs z y (denote m x) l dxs (transpose_at x z dx hz) hy
        ∙ ap reversed (sym (denotes-cons m sr t l x xs))

    tail_at :
        (t : VariadicType) (xs : Exprs A K) (r y : Expr A K) (f : Series A K)
        → is_lawful t ≡ true
        → are_positive xs ≡ true
        → denote m r ≡ reversed f
        → transpose_tail rs (shallow rs) t r xs ≡ ok y
        → denote m y ≡ reversed (combine m t f (denotes m t xs))
    tail_at t Exprs.nil r y f l d hr h =
        ap (denote m) (sym (ok_eq _ _ h)) ∙ hr ∙ ap reversed (sym (combine-neutral m sr t l f))
    tail_at t (Exprs.cons x xs) r y f l d hr h =
        let (z, hz, hy) = >>=-eq-ok (transpose rs (shallow rs) x) _ h in
        let (dx, dxs) = both_true (is_positive x) (are_positive xs) d in
        tail_at t xs (binary rs t r z) y (combine m t f (denote m x)) l dxs
          (binary_sound t r z f (denote m x) l hr (transpose_at x z dx hz)) hy
        ∙ ap reversed (
            combine_assoc m sr t l f (denote m x) (denotes m t xs)
            ∙ ap (combine m t f) (sym (denotes-cons m sr t l x xs)))

  -- Over any semiring of weights whose product commutes and which transposition does not change,
  -- with letters as labels, and if the identities are not `agressive`: where the deep
  -- transposition of an expression is computed, it denotes the transposed series, if the
  -- expression has no complement.
  pub transpose-denote :
      (x y : Expr A K)
      → is_positive x ≡ true
      → transpose rs (shallow rs) x ≡ ok y
      → denote m y ≡ transposed (denote m x)
  transpose-denote x y d h =
      transpose_at x y d h ∙ sym (transposed-reversed plain comm (denote m x))
