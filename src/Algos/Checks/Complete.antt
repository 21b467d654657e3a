-- ===== src/Algos/Checks/Complete.antt =====
-- `is_complete` (vcsn/algos/is-complete.hh) decides that there is an initial state, and that each
-- letter labels a transition from each state.
use vcsn.Base.{
  ℕ, ◌≤◌, ◌<◌, ◌==◌, ◌≡◌, ◌↔◌, List, [], ◌∷◌, Bool, true, false, not, ◌||◌, ◌&&◌, arith, refl, Eq,
  length, Bool-cases, inl, inr, sym, ap, ◌∙◌,
}
use vcsn.Automaton.{MutableAutomaton, post, label_of, succ_of}
use vcsn.Automaton.Queries.{has_state, num_initials}
use vcsn.Automaton.Ranges.{all_out, out, filter_range, states}
use vcsn.Automaton.Consistent.{IsConsistent, has_state_lt}
use vcsn.Algos.Checks.{has, erase_label, is_empty, missing_after, is_complete}
use vcsn.Algos.Checks.Members.{for_all_iff, states_iff}

some : (n : ℕ) → 1 ≤ n → (n == 0) ≡ false
some n h = ground arith

erased : (p q r : Bool) → (p ≡ true → q ≡ true) → (r && not q) ≡ ((p || r) && not q)
erased true q r h = ground (arith, h refl)
erased false q r h = refl

kept : (p q r : Bool) → (p ≡ true → q ≡ false) → (p || (r && not q)) ≡ ((p || r) && not q)
kept true q r h = ground (arith, h refl)
kept false q r h = refl

module _ {L : Type 0} ⦃e : Eq L⦄ where
  has-erase_label :
      (l k : L) (ks : List L) → has l (erase_label ks k) ≡ (has l ks && not (e.beq l k))
  has-erase_label l k [] = refl
  has-erase_label l k (m ∷ ms) = elim (Bool-cases (e.beq m k)) [
    | inl x ↦ rw x (
        has-erase_label l k ms
        ∙ erased (e.beq l m) (e.beq l k) (has l ms)
            (λ y. ap (λ z. e.beq z k) ((e.beq_iff l m).0 y) ∙ x))
    | inr x ↦ rw x (
        ap (λ r. e.beq l m || r) (has-erase_label l k ms)
        ∙ kept (e.beq l m) (e.beq l k) (has l ms)
            (λ y. ap (λ z. e.beq z k) ((e.beq_iff l m).0 y) ∙ x))
  ]

  has_none : (ks : List L) → is_empty ks ≡ true → (l : L) → has l ks ≡ false
  has_none [] h l = refl
  has_none (k ∷ ks) h l = ground (arith, h)

  none_has : (ks : List L) → ((l : L) → has l ks ≡ false) → is_empty ks ≡ true
  none_has [] h = refl
  none_has (k ∷ ks) h = ground (arith, h k, (e.beq_iff k k).1 refl)

  beq_flip : (l k : L) → e.beq k l ≡ false → e.beq l k ≡ false
  beq_flip l k h = elim (Bool-cases (e.beq l k)) [
    | inl x ↦ ground (arith, h, (e.beq_iff k l).1 (sym ((e.beq_iff l k).0 x)))
    | inr x ↦ x
  ]

  beq_swap : (l k : L) → e.beq k l ≡ true → e.beq l k ≡ true
  beq_swap l k h = (e.beq_iff l k).1 (sym ((e.beq_iff k l).0 h))

module _ {L K : Type 0} ⦃e : Eq L⦄ where
  -- There is an initial state, and each letter leaves each state.
  pub record IsComplete (a : MutableAutomaton L K) (letters : List L) : Type 0 where
    pub has_initial : 1 ≤ num_initials a
    pub each_letter :
        (s : ℕ) (l : L)
        → post < s
        → has_state a s ≡ true
        → has l letters ≡ true
        → 1 ≤ length (out a s l)

  abbrev labelled : MutableAutomaton L K → L → List ℕ → List ℕ
  labelled a l ts = filter_range (λ t. e.beq (label_of a t) l) ts

  -- The letters that are missing after the loop are those of no transition.
  has-missing_after :
      (a : MutableAutomaton L K) (l : L) (ts : List ℕ) (missing : List L)
      → has l (missing_after a missing ts) ≡ (has l missing && (length (labelled a l ts) == 0))
  unfolding missing_after filter_range
  has-missing_after a l [] missing = ground arith
  has-missing_after a l (t ∷ ts) missing =
      has-missing_after a l ts (erase_label missing (label_of a t))
      ∙ ap (λ p. p && (length (labelled a l ts) == 0)) (has-erase_label l (label_of a t) missing)
      ∙ elim (Bool-cases (e.beq (label_of a t) l)) [
        | inl x ↦ rw (x, beq_swap l (label_of a t) x) (ground arith)
        | inr x ↦ rw (x, beq_flip l (label_of a t) x) (ground arith)
      ]

  state_iff :
      (a : MutableAutomaton L K) (letters : List L) (s : ℕ)
      → (is_empty (missing_after a letters (all_out a s)) ≡ true)
        ↔ ((l : L) → has l letters ≡ true → 1 ≤ length (out a s l))
  unfolding out all_out
  state_iff a letters s = (
    λ h l k. ground (
      arith,
      has_none (missing_after a letters (succ_of a s)) h l,
      has-missing_after a l (succ_of a s) letters,
      k,
    ),
    λ h. none_has (missing_after a letters (succ_of a s)) (λ l. elim (Bool-cases (has l letters)) [
      | inl k ↦ ground (arith, has-missing_after a l (succ_of a s) letters, h l k)
      | inr k ↦ ground (arith, has-missing_after a l (succ_of a s) letters, k)
    ]),
  )

  -- On consistent tables, `is_complete` answers true if and only if there is an initial transition
  -- and each letter of the alphabet labels a transition from each state other than `pre` and
  -- `post`.
  pub is_complete_iff :
      (a : MutableAutomaton L K) (letters : List L)
      → IsConsistent a
      → (is_complete a letters ≡ true) ↔ IsComplete a letters
  unfolding is_complete
  is_complete_iff a letters c =
      let lt = has_state_lt a post c.post_live in
      let checked =
        for_all_iff (λ s. is_empty (missing_after a letters (all_out a s))) (states a) in
      (
        λ h. elim (Bool-cases (num_initials a == 0)) [
          | inl x ↦ ground (arith, h, x)
          | inr x ↦ record {
            has_initial = ground arith;
            each_letter = λ s l le live k.
                (state_iff a letters s).0
                  (checked.0 (sym (rw x refl) ∙ h) s ((states_iff a s lt).1 (le, live))) l k;
          }
        ],
        λ d. rw (some (num_initials a) d.has_initial) (
            checked.1 (λ s k.
              let this = (states_iff a s lt).0 k in
              (state_iff a letters s).1 (λ l m. d.each_letter s l this.0 this.1 m))),
      )
