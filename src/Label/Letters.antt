-- ===== src/Label/Letters.antt =====
-- The labelsets over characters (vcsn/alphabets/char.hh): letterset (vcsn/labelset/letterset.hh),
-- whose labels are letters, and wordset (vcsn/labelset/wordset.hh), whose labels are words. A
-- character is the number of its unsigned byte.
use vcsn.Base.{
  ℕ, ◌≡◌, ◌≢◌, refl, sym, ◌∙◌, ap, List, [], ◌∷◌, reverse, Bool, true, false, ◌==◌, ltb, length, Eq,
  Compare, compare, Ordering, is_lt, and_then, flip, flip-and_then, eq_of_and_then, arith,
  if◌then◌else◌, ==_iff, flip-compare, eq_of_compare, lexicographical_cmp,
  eq_of_lexicographical_cmp, flip-lexicographical_cmp, ◌&&◌,
}
use vcsn.Label.{Labelset, IsLabelset}

-- `char_letters::equal(l, r)` on letters
instance abbrev pub letters_eq : Eq ℕ
letters_eq = record { beq = λ l r. l == r; beq_iff = ==_iff }

-- `char_letters::compare(l, r)` on letters
abbrev pub letters_compare : Compare ℕ
letters_compare = record { cmp = compare; eq_of_cmp = eq_of_compare; flip-cmp = flip-compare }

-- `l == r` on words
unfoldable pub equal_word : List ℕ → List ℕ → Bool
equal_word [] [] = true
equal_word [] (b ∷ v) = false
equal_word (a ∷ u) [] = false
equal_word (a ∷ u) (b ∷ v) = (a == b) && equal_word u v

-- `char_letters::compare(l, r)` on words
abbrev pub compare_word : List ℕ → List ℕ → Ordering
compare_word l r = lexicographical_cmp compare l r

abbrev pub letterset : Labelset ℕ
letterset = record { is_one = λ l. false; equal = λ l r. l == r; transpose = λ l. l }

abbrev is_empty_word : List ℕ → Bool
is_empty_word [] = true
is_empty_word (a ∷ u) = false

abbrev pub wordset : Labelset (List ℕ)
wordset = record { is_one = is_empty_word; equal = equal_word; transpose = reverse }

-- `wordset::less(l, r)`: the shorter word first.
unfoldable pub less_word : List ℕ → List ℕ → Bool
less_word l r =
    if ltb (length l) (length r)
    then true
    else if ltb (length r) (length l)
    then false
    else is_lt (compare_word l r)

head_eq : (l m : ℕ) → l ∷ [] ≡ m ∷ [] → l ≡ m
head_eq l m p = cc

cons_ne : (l m : ℕ) → (l == m) ≡ false → l ∷ [] ≢ m ∷ []
cons_ne l m h p = true_ne (sym ((==_iff l m).1 (head_eq l m p)) ∙ h)
  where
    true_ne : true ≢ false
    true_ne h = cc

-- The tests, the equality and the transposition of a letterset are those of the words of one
-- letter.
pub letterset-IsLabelset : IsLabelset letterset (λ l. l ∷ [])
letterset-IsLabelset = record {
  nil_of_is_one = λ l h. cc;
  equal_words = λ l m h. ap (λ x. x ∷ []) ((==_iff l m).0 h);
  unequal_words = λ l m h. cons_ne l m h;
  ne_nil = λ l h p. cc;
  letters-transpose = λ l. refl;
}

word_eq : (u v : List ℕ) → equal_word u v ≡ true → u ≡ v
unfolding equal_word
word_eq [] [] h = refl
word_eq [] (b ∷ v) h = cc
word_eq (a ∷ u) [] h = cc
word_eq (a ∷ u) (b ∷ v) h = ground (arith, word_eq u v)

equal_word_refl : (u : List ℕ) → equal_word u u ≡ true
unfolding equal_word
equal_word_refl [] = refl
equal_word_refl (a ∷ u) = ground (arith, equal_word_refl u)

-- The tests, the equality and the transposition of a wordset are those of its words.
wordset-IsLabelset : IsLabelset wordset (λ u. u)
wordset-IsLabelset = record {
  nil_of_is_one = nil_of;
  equal_words = word_eq;
  unequal_words = λ u v h p. true_ne (sym (equal_word_refl u) ∙ ap (equal_word u) p ∙ h);
  ne_nil = λ u h p. true_ne (sym (ap is_empty_word p) ∙ h);
  letters-transpose = λ u. refl;
}
  where
    nil_of : (u : List ℕ) → is_empty_word u ≡ true → u ≡ []
    nil_of [] h = refl
    nil_of (a ∷ u) h = cc

    true_ne : true ≢ false
    true_ne h = cc

less_word_by :
    (l r : List ℕ)
    → less_word l r ≡ is_lt (and_then (compare (length l) (length r)) (compare_word l r))
unfolding less_word
less_word_by l r = ground arith

-- Shortlex.
abbrev shortlex : List ℕ → List ℕ → Ordering
shortlex l r = and_then (compare (length l) (length r)) (compare_word l r)

less_word-flip : (l r : List ℕ) → less_word r l ≡ is_lt (flip (shortlex l r))
less_word-flip l r = less_word_by r l ∙ ap is_lt flipped
  where
    flipped : shortlex r l ≡ flip (shortlex l r)
    flipped =
        rw (flip-compare (length l) (length r), flip-lexicographical_cmp letters_compare l r)
          (sym (flip-and_then _ _))

eq_of_shortlex : (l r : List ℕ) → shortlex l r ≡ Ordering.eq → l ≡ r
eq_of_shortlex l r h =
    eq_of_lexicographical_cmp letters_compare l r
      (eq_of_and_then (compare (length l) (length r)) (compare_word l r) h).1

eq_of_neither : (o : Ordering) → is_lt o ≡ false → is_lt (flip o) ≡ false → o ≡ Ordering.eq
eq_of_neither Ordering.lt h k = cc
eq_of_neither Ordering.eq h k = refl
eq_of_neither Ordering.gt h k = cc

not_both : (o : Ordering) → is_lt o ≡ true → is_lt (flip o) ≡ false
not_both Ordering.lt h = refl
not_both Ordering.eq h = cc
not_both Ordering.gt h = cc

-- Two words neither of which is less than the other are equal.
pub less_word_total : (l r : List ℕ) → less_word l r ≡ false → less_word r l ≡ false → l ≡ r
less_word_total l r h k =
    eq_of_shortlex l r
      (eq_of_neither (shortlex l r) (sym (less_word_by l r) ∙ h) (sym (less_word-flip l r) ∙ k))

-- Of two words at most one is less than the other.
pub less_word_asym : (l r : List ℕ) → less_word l r ≡ true → less_word r l ≡ false
less_word_asym l r h = less_word-flip l r ∙ not_both (shortlex l r) (sym (less_word_by l r) ∙ h)
