-- ===== src/Examples/Expansions.antt =====
-- Expansions and transpositions of concrete expressions over characters, and the theorems on them.
use vcsn.Base.{some, bind, ◌≡◌, refl, ℕ, List, [], ◌∷◌, Bool, true, false, Result, ok, arith}
use vcsn.Weight.B as B
use vcsn.Series.{infiltrated, transposed}
use vcsn.Label.Letters.{letters_eq, letterset-IsLabelset, letters_compare}
use vcsn.Poly as Poly
use vcsn.Poly.{set, add_all, rmul_label, add_images, add_here, set_weight, find}
use vcsn.Poly.{lweight as lweight_poly}
use vcsn.Poly.Laws as PolyLaws
use vcsn.Rat.{VariadicType, UnaryType, Expr, Exprs}
use vcsn.Rat.Denote.{denote}
use vcsn.Rat.Constant.{constant_term}
use vcsn.Rat.Make.{lweight, make_atom}
use vcsn.Rat.Make.Add.{gather, gathered}
use vcsn.Rat.Make.Mul.{mul, mul_right}
use vcsn.Rat.Make.Unary.{make_star}
use vcsn.Rat.Make.Transposition.{make_transposition}
use vcsn.Rat.Expansion.{
  for_each, rmul_label_here, map_values, Expansion, atom, infiltrate, polynomial_at,
}
use vcsn.Rat.Expansion.Maps.{IsTransitive}
use vcsn.Poly.Zip.{skip_below, align, zip_from, zip_rounds}
use vcsn.Poly.Zip.Total.{zip_maps}
use vcsn.Rat.Expansion.Zip.{both_found, find-zip_maps}
use vcsn.Rat.Expansion.Laws.{Denotes, atom-Denotes}
use vcsn.Rat.Expansion.Products.{infiltrate-Denotes}
use vcsn.Rat.ToExpansion.{visit, add_factor, with_rest, star_expansion, to_expansion}
use vcsn.Rat.ToExpansion.Laws.{to_expansion-denote}
use vcsn.Rat.ToExpansion.Total.{to_expansion_total}
use vcsn.Rat.ToExpansion.Derived.{to_expansion-derivation}
use vcsn.Rat.ToExpansion.Turned.{IsReversing}
use vcsn.Rat.Transpose.{transpose, shallow}
use vcsn.Rat.Transpose.Laws.{transpose-denote}
use vcsn.Examples.{
  booleans, Exp, words, linear, a, b, a_star, a_star_b, one_is_free, poly_one, derivation-a_star_b,
}

abbrev deep : Exp → Result Exp
deep x = transpose linear (shallow linear) x

deep-IsReversing : IsReversing words linear deep
deep-IsReversing g x y h = cc

letters_trans : IsTransitive letters_compare
letters_trans a b c h k = ground (arith, h, k)

abbrev letters : List ℕ
letters = 97 ∷ 98 ∷ []

-- (a*b){T}
abbrev mirrored : Exp
mirrored = Expr.unary UnaryType.transposition a_star_b

-- b⊙[a*{T}]
abbrev mirrored_expansion : Expansion ℕ Bool
mirrored_expansion = record {
  constant = false;
  polynomials =
      record {
        label = 98;
        weight = record { label = Expr.unary UnaryType.transposition a_star; weight = true } ∷ [];
      }
      ∷ [];
}

to_expansion-mirrored : to_expansion linear B.ldivide letters deep mirrored ≡ ok mirrored_expansion
unfolding to_expansion visit make_transposition add_factor with_rest star_expansion for_each
    rmul_label_here map_values set find add_all lweight_poly rmul_label add_images add_here
    set_weight mul mul_right gather gathered lweight
to_expansion-mirrored = refl

to_expansion-denote_example :
    Denotes words letters_compare mirrored_expansion (denote words mirrored)
to_expansion-denote_example =
    to_expansion-denote words B.b-IsSemiring linear letters_trans B.ldivide one_is_free (λ l. refl)
      letterset-IsLabelset (λ c k. refl) letters deep deep-IsReversing mirrored mirrored_expansion
      refl to_expansion-mirrored

constant_mirrored : constant_term mirrored ≡ ok false
unfolding constant_term
constant_mirrored = refl

to_expansion_total_example :
    (v : Expansion ℕ Bool) × (to_expansion linear B.ldivide letters deep mirrored ≡ ok v)
to_expansion_total_example =
    to_expansion_total words B.b-IsSemiring linear letters_trans B.ldivide one_is_free (λ l. refl)
      letterset-IsLabelset (λ c k. refl) letters refl deep mirrored false refl constant_mirrored

-- The expansion of a*b: b⊙[1] ⊕ a⊙[a*b].
abbrev starred_expansion : Expansion ℕ Bool
starred_expansion = record {
  constant = false;
  polynomials =
      record { label = 97; weight = record { label = a_star_b; weight = true } ∷ [] }
      ∷ record { label = 98; weight = poly_one }
      ∷ [];
}

to_expansion-a_star_b : to_expansion linear B.ldivide letters deep a_star_b ≡ ok starred_expansion
unfolding to_expansion visit make_transposition add_factor with_rest star_expansion for_each
    rmul_label_here map_values set find add_all lweight_poly rmul_label add_images add_here
    set_weight mul mul_right gather gathered lweight
to_expansion-a_star_b = refl

constant_a_star_b : constant_term a_star_b ≡ ok false
unfolding constant_term
constant_a_star_b = refl

to_expansion-derivation_example :
    (false ≡ false)
    × (PolyLaws.value
          (denote words)
          (polynomial_at letters_compare starred_expansion.polynomials 98)
        ≡ PolyLaws.value (denote words) poly_one)
to_expansion-derivation_example =
    to_expansion-derivation words B.b-IsSemiring linear letters_trans B.ldivide one_is_free
      (λ l. refl) letterset-IsLabelset (λ c k. refl) letters deep deep-IsReversing a_star_b
      starred_expansion 98 poly_one false refl refl to_expansion-a_star_b constant_a_star_b
      derivation-a_star_b

-- ba*
abbrev b_a_star : Exp
b_a_star = Expr.variadic VariadicType.mul (Exprs.cons b (Exprs.cons a_star Exprs.nil))

transpose-a_star_b : transpose linear (shallow linear) a_star_b ≡ ok b_a_star
unfolding transpose make_star make_atom mul mul_right gather gathered
transpose-a_star_b = refl

transpose-denote_example : denote words b_a_star ≡ transposed (denote words a_star_b)
transpose-denote_example =
    transpose-denote words B.b-IsSemiring linear B.ldivide one_is_free (λ l. refl)
      letterset-IsLabelset (λ c k. refl) refl refl a_star_b b_a_star refl transpose-a_star_b

atom_expansion :
    (l : ℕ) → Denotes words letters_compare (atom linear l) (denote words (Expr.atom l))
unfolding denote
atom_expansion l =
    atom-Denotes words B.b-IsSemiring linear letters_trans B.ldivide one_is_free (λ l. refl)
      letterset-IsLabelset l

infiltrate-Denotes_example :
    Denotes words letters_compare
      (infiltrate linear (atom linear 97) a (atom linear 98) b)
      (infiltrated (denote words a) (denote words b))
infiltrate-Denotes_example =
    infiltrate-Denotes words B.b-IsSemiring linear letters_trans B.ldivide one_is_free (λ l. refl)
      letterset-IsLabelset refl (atom linear 97) (atom linear 98) a b (atom_expansion 97)
      (atom_expansion 98)

-- {97 ↦ 1, 98 ↦ 2} and {98 ↦ 3, 99 ↦ 4}
abbrev left_map : Poly.Polynomial ℕ ℕ
left_map = record { label = 97; weight = 1 } ∷ record { label = 98; weight = 2 } ∷ []

abbrev right_map : Poly.Polynomial ℕ ℕ
right_map = record { label = 98; weight = 3 } ∷ record { label = 99; weight = 4 } ∷ []

zip_maps_runs :
    zip_maps letters_compare left_map right_map ≡ record { label = 98; weight = (2, 3) } ∷ []
unfolding zip_maps zip_rounds zip_from align skip_below bind
zip_maps_runs = refl

find-zip_maps_example :
    (zip_rounds letters_compare left_map right_map
      ≡ some (zip_maps letters_compare left_map right_map))
    × (Poly.find letters_compare.cmp (zip_maps letters_compare left_map right_map) 98
        ≡ both_found
            (Poly.find letters_compare.cmp left_map 98)
            (Poly.find letters_compare.cmp right_map 98))
find-zip_maps_example =
    find-zip_maps letters_compare letters_trans left_map right_map 98 (refl, (tt, tt))
