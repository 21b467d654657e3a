-- ===== src/Label/Chars.antt =====
-- The products of characters and words (vcsn/alphabets/char.hh). The letter 0 stands for the empty
-- word, and the letter 255, which is -1 as a char, for the ends of a word.
use vcsn.Base.{
  ℕ, zero, suc, ◌-◌, ◌≡◌, refl, ◌∙◌, ap, List, [], ◌∷◌, ◌++◌, not, ◌&&◌, ◌==◌, if◌then◌else◌,
  length, arith, append-nil,
}

abbrev pub one_letter : ℕ
one_letter = 0

abbrev pub special_letter : ℕ
special_letter = 255

-- `mul(letter_t, letter_t)`
unfoldable pub mul_letters : ℕ → ℕ → List ℕ
mul_letters l r =
    if l == one_letter
    then if r == one_letter then [] else l ∷ []
    else if r == one_letter
    then l ∷ []
    else l ∷ r ∷ []

-- `mul(word_t, letter_t)`
unfoldable pub mul_word_letter : List ℕ → ℕ → List ℕ
mul_word_letter l r = if r == one_letter then l else l ++ (r ∷ [])

-- `mul(letter_t, word_t)`
unfoldable pub mul_letter_word : ℕ → List ℕ → List ℕ
mul_letter_word l r = if l == one_letter then r else l ∷ r

unfoldable pub delimit : List ℕ → List ℕ
unfolding mul_word_letter mul_letter_word
delimit w = mul_word_letter (mul_letter_word special_letter w) special_letter

-- The first `n` letters.
abbrev take : ℕ → List ℕ → List ℕ
take zero w = []
take (suc n) [] = []
take (suc n) (a ∷ w) = a ∷ take n w

abbrev tail : List ℕ → List ℕ
tail [] = []
tail (a ∷ w) = w

-- `w.substr(1, s-2)`
unfoldable pub undelimit : List ℕ → List ℕ
undelimit w = take (length w - 2) (tail w)

-- The word of a letter.
abbrev pub word_of : ℕ → List ℕ
word_of l = if l == one_letter then [] else l ∷ []

-- The products by a letter append its word, but the product of two letters is the word of the
-- letter 0 where the first is 0 and the second is not.
pub mul-append :
    (l r : ℕ) (w : List ℕ)
    → (mul_letters l r ≡ (
        if (l == one_letter) && not (r == one_letter)
        then one_letter ∷ []
        else word_of l ++ word_of r))
      × (mul_letter_word l w ≡ word_of l ++ w)
      × (mul_word_letter w r ≡ w ++ word_of r)
unfolding mul_letters mul_letter_word mul_word_letter
mul-append l r w = (ground arith, ground arith, ground (arith, append-nil w))

take-append : (w v : List ℕ) → take (length w) (w ++ v) ≡ w
take-append [] v = refl
take-append (a ∷ w) v = ap (λ u. a ∷ u) (take-append w v)

two_less : (n : ℕ) → suc (suc n) - 2 ≡ n
two_less n = omega arith

length-snoc : (w : List ℕ) (a : ℕ) → length (w ++ (a ∷ [])) ≡ suc (length w)
length-snoc [] a = refl
length-snoc (b ∷ w) a = ap suc (length-snoc w a)

-- Removing the ends that were added gives the word back.
undelimit-delimit : (w : List ℕ) → undelimit (delimit w) ≡ w
unfolding undelimit delimit mul_word_letter mul_letter_word
undelimit-delimit w =
    ap (λ n. take (suc n - 2) (w ++ (special_letter ∷ []))) (length-snoc w special_letter)
    ∙ ap (λ n. take n (w ++ (special_letter ∷ []))) (two_less (length w))
    ∙ take-append w (special_letter ∷ [])
