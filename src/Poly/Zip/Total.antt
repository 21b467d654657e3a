-- ===== src/Poly/Zip/Total.antt =====
-- The traversal of the common keys of two maps, which always ends.
use vcsn.Base.{◌≡◌, ◌≢◌, refl, sym, ◌∙◌, Compare, Option, none, some}
use vcsn.Poly.{Polynomial}
use vcsn.Poly.Zip.{zip_rounds}
use vcsn.Poly.Zip.Pairs.{pairs}
use vcsn.Poly.Zip.Aligned.{zip_rounds-pairs}

-- The value of a result that is not none.
abbrev from_some : {A : Type 0} → (x : Option A) → x ≢ none → A
from_some none h = absurd (h refl)
from_some (some a) h = a

module _ {A : Type 0} where
  some-from_some : (x : Option A) (h : x ≢ none) → x ≡ some (from_some x h)
  some-from_some none h = absurd (h refl)
  some-from_some (some a) h = refl

  the_value : (x y : A) → some x ≡ some y → x ≡ y
  the_value x y h = cc

module _ {L P : Type 0} (o : Compare L) where
  pub zip_rounds-ends : (l r : Polynomial L P) → zip_rounds o l r ≢ none
  zip_rounds-ends l r h = cc (sym (zip_rounds-pairs o l r) ∙ h)

  -- `zip_maps(l, r)`: the common keys, each with both values.
  unfoldable pub zip_maps : Polynomial L P → Polynomial L P → Polynomial L (P × P)
  zip_maps l r = from_some (zip_rounds o l r) (zip_rounds-ends l r)

  pub zip_rounds-zip_maps : (l r : Polynomial L P) → zip_rounds o l r ≡ some (zip_maps l r)
  unfolding zip_maps
  zip_rounds-zip_maps l r = some-from_some (zip_rounds o l r) (zip_rounds-ends l r)

  pub zip_maps-pairs : (l r : Polynomial L P) → zip_maps l r ≡ pairs o l r
  zip_maps-pairs l r = the_value _ _ (sym (zip_rounds-zip_maps l r) ∙ zip_rounds-pairs o l r)
