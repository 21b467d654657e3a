-- ===== src/Rat/Expansion.antt =====
-- Expansions (vcsn/core/rat/expansionset.hh): a constant and a map from the first labels to
-- polynomials of expressions. The labelset is letterized and has no label one, as `lal`. The map is a
-- `std::map`, here a list of keys and values in the order of the keys, with the searches of Poly.antt.
pub mod Maps
pub mod Zip
pub mod Erase
pub mod Loops
pub mod Laws
pub mod Scale
pub mod Products
use vcsn.Base.{
  List, [], ◌∷◌, Bool, true, false, Compare, Ordering, Result, ok, raise, Error, ◌>>=◌,
  if◌then◌else◌,
}
use vcsn.Weight.{Weightset, ◌⊕◌, ◌⊗◌}
use vcsn.Poly.{Monomial, Polynomial, Found, by_order, find, set, add_all, rmul_label, pairwise}
use vcsn.Poly.{add_here as add_monomial, lweight as weighted_polynomial}
use vcsn.Poly.Zip.Total.{zip_maps}
use vcsn.Rat.{Expr}
use vcsn.Rat.Make.{ExpressionSet}
use vcsn.Rat.Make.{rweight as right_weighted}
use vcsn.Rat.Make.Mul.{mul}
use vcsn.Rat.Make.Product.{conjunction as make_conjunction}
use vcsn.Rat.Make.Product.{shuffle as make_shuffle}
use vcsn.Rat.Make.Product.{infiltrate as make_infiltrate}
use vcsn.Rat.Derivation.{expression_labels}
use vcsn.Rat.Derivation.{complement as complement_polynomial}

-- `polys_t`
abbrev pub Polys : Type 0 → Type 0 → Type 0
Polys L K = Polynomial L (Polynomial (Expr L K) K)

pub record Expansion (L K : Type 0) : Type 0 where
  pub constant : K
  pub polynomials : Polys L K

-- `for (const auto& p: v) step(res, p.first, p.second);`
unfoldable pub for_each : {L P R : Type 0} → (R → L → P → R) → R → Polynomial L P → R
for_each step res [] = res
for_each step res (p ∷ v) = for_each step (step res p.label p.weight) v

-- `for (auto& p: v) p.second = f(p.second);`
unfoldable pub map_values : {L P : Type 0} → (P → P) → Polynomial L P → Polynomial L P
map_values f [] = []
map_values f (p ∷ v) = record { label = p.label; weight = f p.weight } ∷ map_values f v

module _ {L K : Type 0} where
  -- The polynomial that `operator[]` finds, or makes.
  abbrev pub found_or_empty : Found (Polynomial (Expr L K) K) → Polynomial (Expr L K) K
  found_or_empty Found.absent = []
  found_or_empty (Found.present p) = p

  -- `v[l]`
  abbrev pub polynomial_at : Compare L → Polys L K → L → Polynomial (Expr L K) K
  polynomial_at o v l = found_or_empty (find o.cmp v l)

  abbrev is_null : Polynomial (Expr L K) K → Bool
  is_null [] = true
  is_null (m ∷ p) = false

  -- `erase_if(res.polynomials, [](auto& p) { return ps_.is_zero(p.second); })`
  unfoldable pub erase_null : Polys L K → Polys L K
  erase_null [] = []
  erase_null (p ∷ v) = let rest = erase_null v in if is_null p.weight then rest else p ∷ rest

  -- `normalize(res)`, where there is no label one.
  unfoldable pub normalize : Expansion L K → Expansion L K
  normalize x = record x { polynomials = erase_null x.polynomials }

module _ {L K : Type 0} ⦃ws : Weightset K⦄ (rs : ExpressionSet L K) where
  abbrev pub zero : Expansion L K
  zero = record { constant = ws.zero; polynomials = [] }

  abbrev pub one : Expansion L K
  one = record { constant = ws.one; polynomials = [] }

  abbrev pub atom : L → Expansion L K
  atom l = record {
    constant = ws.zero;
    polynomials =
        record { label = l; weight = record { label = Expr.one; weight = ws.one } ∷ [] } ∷ [];
  }

  -- `ps_.add_here(res[l], p);`
  abbrev pub add_at : Polys L K → L → Polynomial (Expr L K) K → Polys L K
  add_at res l p =
      set rs.keys.labels.cmp res l
        (add_all (expression_labels rs) (polynomial_at rs.keys.labels res l) p)

  -- `for (const auto& m: p) ps_.add_here(res[l], f(label_of(m)), weight_of(m));`
  unfoldable pub add_images_at :
      (Expr L K → Expr L K) → Polys L K → L → Polynomial (Expr L K) K → Polys L K
  add_images_at f res l [] = res
  add_images_at f res l (m ∷ p) =
      add_images_at f
        (set rs.keys.labels.cmp res l (
          add_monomial (expression_labels rs) (polynomial_at rs.keys.labels res l) (f m.label)
            m.weight))
        l p

  -- `add_here(lhs, rhs)`
  unfoldable pub add_here : Expansion L K → Expansion L K → Expansion L K
  add_here lhs rhs = normalize (record {
    constant = lhs.constant ⊕ rhs.constant;
    polynomials = for_each add_at lhs.polynomials rhs.polynomials;
  })

  -- `lweight(w, res)`
  unfoldable pub lweight : K → Expansion L K → Expansion L K
  lweight w res = if ws.is_zero w then zero else record {
    constant = w ⊗ res.constant;
    polynomials = map_values (weighted_polynomial (expression_labels rs) w) res.polynomials;
  }

  -- `rweight(lhs, w)`
  unfoldable pub rweight : Expansion L K → K → Expansion L K
  rweight lhs w = record {
    constant = lhs.constant ⊗ w;
    polynomials =
        if ws.is_zero w
        then []
        else for_each (add_images_at (λ x. right_weighted rs x w)) [] lhs.polynomials;
  }

  -- `rmul_label_here(res, rhs)`, which requires a null constant.
  unfoldable pub rmul_label_here : Expansion L K → Expr L K → Expansion L K
  rmul_label_here res rhs = record res {
    polynomials =
        map_values (λ p. rmul_label (expression_labels rs) (mul rs) p rhs) res.polynomials;
  }

  -- `ps_.conjunction(l, r)` and `ps_.infiltrate(l, r)`
  abbrev pub conjunction_polynomials :
      Polynomial (Expr L K) K × Polynomial (Expr L K) K → Polynomial (Expr L K) K
  conjunction_polynomials p = pairwise (expression_labels rs) (make_conjunction rs) p.0 p.1

  abbrev pub infiltrate_polynomials :
      Polynomial (Expr L K) K × Polynomial (Expr L K) K → Polynomial (Expr L K) K
  infiltrate_polynomials p = pairwise (expression_labels rs) (make_infiltrate rs) p.0 p.1

  -- `conjunction_(l, r, conjunction)`
  unfoldable pub conjunction_with :
      (Polynomial (Expr L K) K × Polynomial (Expr L K) K → Polynomial (Expr L K) K)
      → Expansion L K
      → Expansion L K
      → Expansion L K
  conjunction_with op l r = normalize (record {
    constant = l.constant ⊗ r.constant;
    polynomials =
        for_each (λ res k p. set rs.keys.labels.cmp res k (op p)) []
          (zip_maps rs.keys.labels l.polynomials r.polynomials);
  })

  -- `conjunction(l, r)`
  abbrev pub conjunction : Expansion L K → Expansion L K → Expansion L K
  conjunction l r = conjunction_with conjunction_polynomials l r

  -- `shuffle_(res, lhs_xpn, lhs_xpr, rhs_xpn, rhs_xpr, shuffle)`
  unfoldable pub shuffle_with :
      (Expr L K → Expr L K → Expr L K)
      → Expansion L K
      → Expansion L K
      → Expr L K
      → Expansion L K
      → Expr L K
      → Expansion L K
  shuffle_with op res de e df f = record res {
    polynomials =
        for_each (add_images_at (λ x. op e x))
          (for_each (add_images_at (λ x. op x f)) res.polynomials de.polynomials) df.polynomials;
  }

  -- `shuffle(de, e, df, f)`
  unfoldable pub shuffle : Expansion L K → Expr L K → Expansion L K → Expr L K → Expansion L K
  shuffle de e df f =
      shuffle_with (make_shuffle rs)
        (record { constant = de.constant ⊗ df.constant; polynomials = [] }) de e df f

  -- `infiltrate(de, e, df, f)`
  unfoldable pub infiltrate : Expansion L K → Expr L K → Expansion L K → Expr L K → Expansion L K
  infiltrate de e df f =
      shuffle_with (make_infiltrate rs) (conjunction_with infiltrate_polynomials de df) de e df f

  -- `transpose(v)`, which refuses every label, as none is one.
  abbrev transposed_constant : K → Polys L K → Result (Expansion L K)
  transposed_constant k [] = ok (record { constant = ws.transpose k; polynomials = [] })
  transposed_constant k (p ∷ v) = raise Error.invalid_arguments

  unfoldable pub transpose : Expansion L K → Result (Expansion L K)
  transpose v = transposed_constant v.constant v.polynomials

module _ {L K : Type 0} ⦃ws : Weightset K⦄ (rs : ExpressionSet L K)
    (ldivide : K → K → Result K) where
  -- The loop of `complement_` over the letters of the labelset.
  unfoldable pub complement_letters : Polys L K → Polys L K → List L → Result (Polys L K)
  complement_letters v res [] = ok res
  complement_letters v res (l ∷ generators) =
      complement_polynomial rs ldivide (polynomial_at rs.keys.labels v l) >>= λ p.
      complement_letters v (set rs.keys.labels.cmp res l p) generators

  -- `complement(v)`
  unfoldable pub complement : List L → Expansion L K → Result (Expansion L K)
  complement generators v = complement_letters v.polynomials [] generators >>= λ polys.
      ok (record {
        constant = if ws.is_zero v.constant then ws.one else ws.zero;
        polynomials = polys;
      })
