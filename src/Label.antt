-- ===== src/Label.antt =====
-- A labelset (vcsn/labelset/*.hh): the operations on labels that the expressions call, and what
-- they mean on the words that the labels stand for.
pub mod Letters
pub mod Chars
use vcsn.Base.{◌≡◌, ◌≢◌, ◌↔◌, List, [], ◌++◌, reverse, Bool, true, false}

pub record Labelset (L : Type 0) : Type 0 where
  pub is_one : L → Bool
  pub equal : L → L → Bool
  pub transpose : L → L

-- `letters` gives the word of a label.
pub record IsLabelset {A L : Type 0} (ls : Labelset L) (letters : L → List A) : Type 0 where
  pub nil_of_is_one : (l : L) → ls.is_one l ≡ true → letters l ≡ []
  pub equal_words : (l m : L) → ls.equal l m ≡ true → letters l ≡ letters m
  pub unequal_words : (l m : L) → ls.equal l m ≡ false → letters l ≢ letters m
  pub ne_nil : (l : L) → ls.is_one l ≡ false → letters l ≢ []
  pub letters-transpose : (l : L) → letters (ls.transpose l) ≡ reverse (letters l)
