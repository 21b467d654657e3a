-- ===== src/Algos/Checks.antt =====
-- The checks that an automaton is deterministic (vcsn/algos/is-deterministic.hh) and that it is
-- complete (vcsn/algos/is-complete.hh).
pub mod Members
pub mod Deterministic
pub mod Complete
use vcsn.Base.{
  ℕ, ◌+◌, ◌==◌, ltb, List, [], ◌∷◌, Bool, true, false, not, ◌||◌, if◌then◌else◌, length, Eq,
}
use vcsn.Automaton.{MutableAutomaton, pre, label_of}
use vcsn.Automaton.Queries.{num_initials}
use vcsn.Automaton.Ranges.{all_out, states}

-- Whether a set of labels, kept as a list, has the label.
abbrev pub has {ℓ} : {L : Type ℓ} → ⦃e : Eq L⦄ → L → List L → Bool
has l [] = false
has ⦃e = e⦄ l (k ∷ ks) = e.beq l k || has l ks

-- `for (auto s: us) if (!p(s)) return false; return true;`
abbrev pub for_all : (ℕ → Bool) → List ℕ → Bool
for_all p [] = true
for_all p (u ∷ us) = if p u then for_all p us else false

abbrev pub to_int : Bool → ℕ
to_int true = 1
to_int false = 0

-- `missing_letters.erase(l)`
abbrev pub erase_label {ℓ} : {L : Type ℓ} → ⦃e : Eq L⦄ → List L → L → List L
erase_label [] l = []
erase_label ⦃e = e⦄ (k ∷ ks) l = let rest = erase_label ks l in if e.beq k l then rest else k ∷ rest

abbrev pub is_empty {ℓ} : {L : Type ℓ} → List L → Bool
is_empty [] = true
is_empty (k ∷ ks) = false

module _ {L K : Type 0} ⦃e : Eq L⦄ where
  -- The loop of `is_deterministic(aut, s)`, with the labels seen so far.
  unfoldable pub distinct_labels : MutableAutomaton L K → List L → List ℕ → Bool
  distinct_labels a seen [] = true
  distinct_labels a seen (t ∷ ts) =
      let rest = distinct_labels a (label_of a t ∷ seen) ts in
      if has (label_of a t) seen then false else rest

  -- `is_deterministic(aut, s)`
  unfoldable pub is_deterministic_state : MutableAutomaton L K → ℕ → Bool
  is_deterministic_state a s = distinct_labels a [] (all_out a s)

  -- The loop of `num_deterministic_states`.
  unfoldable pub count_deterministic : MutableAutomaton L K → List ℕ → ℕ
  count_deterministic a [] = 0
  count_deterministic a (s ∷ ss) = to_int (is_deterministic_state a s) + count_deterministic a ss

  unfoldable pub num_deterministic_states : MutableAutomaton L K → ℕ
  num_deterministic_states a = count_deterministic a (states a)

  unfoldable pub is_deterministic : MutableAutomaton L K → Bool
  is_deterministic a =
      if ltb 1 (length (all_out a pre))
      then false
      else for_all (is_deterministic_state a) (states a)

  -- `for (auto tr : ts) missing_letters.erase(aut->label_of(tr));`
  unfoldable pub missing_after : MutableAutomaton L K → List L → List ℕ → List L
  missing_after a missing [] = missing
  missing_after a missing (t ∷ ts) = missing_after a (erase_label missing (label_of a t)) ts

  -- The generators of the labelset are given.
  unfoldable pub is_complete : MutableAutomaton L K → List L → Bool
  is_complete a letters =
      if num_initials a == 0
      then false
      else for_all (λ s. is_empty (missing_after a letters (all_out a s))) (states a)
