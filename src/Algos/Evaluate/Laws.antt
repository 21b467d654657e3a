-- ===== src/Algos/Evaluate/Laws.antt =====
-- The evaluation of a word (vcsn/algos/evaluate.hh) sums the weights of the paths of the automaton
-- from pre to post that the word labels.
use vcsn.Base.{
  ℕ, zero, suc, ◌+◌, ◌≤◌, ◌==◌, ◌≡◌, ltb, List, [], ◌∷◌, ◌++◌, Bool, true, false, Eq, arith,
  if◌then◌else◌, refl, Bool-cases, inl, inr, sym, ap, ap₂, ◌∙◌, fun_ext,
}
use vcsn.Weight.{Weightset, IsSemiring, ◌⊕◌, ◌⊗◌}
use vcsn.Automaton.{MutableAutomaton, pre, post, dst_of, weight_of, label_of, succ_of}
use vcsn.Automaton.Handles.{count}
use vcsn.Automaton.Queries.{has_state}
use vcsn.Automaton.Ranges.{filter_range, all_out, out}
use vcsn.Automaton.Consistent.{IsConsistent, has_state_lt, apart}
use vcsn.Algos.Evaluate.{
  Vectors, zeros, write, visit_state, visit_states, read_letter, read_letters, evaluate,
}
use vcsn.Algos.Evaluate.Sums.{
  sum_from, sum_of, sum_from-zero, sum_from-write, sum_of-mul, sum_from-pick,
}
use vcsn.Algos.Evaluate.Turns.{
  Fits, FitPair, dot, before as apart_lt, take_transitions-FitPair, dot-take_transitions,
}

count-filter_range : (p : ℕ → Bool) (t : ℕ) (us : List ℕ) → count t (filter_range p us) ≤ count t us
unfolding filter_range
count-filter_range p t [] = omega arith
count-filter_range p t (u ∷ us) = elim (Bool-cases (p u)) [
  | inl e ↦ rw e (omega (arith, count-filter_range p t us))
  | inr e ↦ rw e (omega (arith, count-filter_range p t us))
]

add_nothing :
    {K : Type 0} → ⦃ws : Weightset K⦄ → IsSemiring ws → (p x q : K) → x ≡ ws.zero → p ⊕ x ⊗ q ≡ p
add_nothing sr p x q h = ap (λ z. p ⊕ z ⊗ q) h ∙ rw (sr.zero-mul q) (sr.add-zero p)

module _ {L K : Type 0} ⦃e : Eq L⦄ ⦃ws : Weightset K⦄ where
  -- The weight of the paths from `s` to post labelled by the letters.
  unfoldable pub behaviour : MutableAutomaton L K → List L → ℕ → K
  behaviour a [] s = if s == post then ws.one else ws.zero
  behaviour a (l ∷ ls) s = sum_of (λ t. weight_of a t ⊗ behaviour a ls (dst_of a t)) (out a s l)

  abbrev carry : MutableAutomaton L K → L → (ℕ → K) → ℕ → K
  carry a l g s = sum_of (λ t. weight_of a t ⊗ g (dst_of a t)) (out a s l)

  out_live :
      (a : MutableAutomaton L K) (l : L) (s : ℕ)
      → IsConsistent a
      → has_state a s ≡ true
      → (t : ℕ) → 1 ≤ count t (out a s l)
      → has_state a (dst_of a t) ≡ true
  unfolding out all_out
  out_live a l s c hs t h = c.dst_live t (
      ground (
        arith,
        c.succ_count s t hs,
        count-filter_range (λ t. e.beq (label_of a t) l) t (succ_of a s),
        h,
      ))

  module _ (a : MutableAutomaton L K) (c : IsConsistent a) (sr : IsSemiring ws) (l : L) where
    factor :
        (x : K) (g : ℕ → K) (ts : List ℕ)
        → sum_of (λ t. (x ⊗ weight_of a t) ⊗ g (dst_of a t)) ts
          ≡ x ⊗ sum_of (λ t. weight_of a t ⊗ g (dst_of a t)) ts
    factor x g ts =
        ap (λ h. sum_of h ts) (fun_ext (λ t. sr.mul_assoc x (weight_of a t) (g (dst_of a t))))
        ∙ sum_of-mul sr x (λ t. weight_of a t ⊗ g (dst_of a t)) ts

    -- A weight that is not zero is that of a state.
    visited :
        (s : ℕ) (vs : Vectors K)
        → FitPair a vs
        → ws.is_zero (vs.0.at s) ≡ false
        → has_state a s ≡ true
    visited s vs f z = elim (Bool-cases (has_state a s)) [
      | inl h ↦ h
      | inr h ↦ ground (arith, ap ws.is_zero (f.left.dead s h), sr.is_zero-zero, z)
    ]

    visit_state-FitPair :
        (s : ℕ) (vs : Vectors K)
        → FitPair a vs
        → FitPair a (visit_state a l s vs)
          × ((visit_state a l s vs).0.at ≡ vs.0.at)
          × ((g : ℕ → K)
              → dot a (visit_state a l s vs).1.at g ≡ dot a vs.1.at g ⊕ vs.0.at s ⊗ carry a l g s)
    unfolding visit_state
    visit_state-FitPair s vs f = elim (Bool-cases (ws.is_zero (vs.0.at s))) [
      | inl z ↦ rw z (f, refl, λ g. sym (add_nothing sr _ _ _ (sr.eq_of_is_zero _ z)))
      | inr z ↦
          let live = out_live a l s c (visited s vs f z) in
          let fit = take_transitions-FitPair a s (out a s l) vs f live in
          rw z (
            fit.0,
            fit.1,
            λ g.
                dot-take_transitions a s sr (out a s l) vs g f live
                ∙ ap (λ x. dot a vs.1.at g ⊕ x) (factor (vs.0.at s) g (out a s l)),
          )
    ]

    visit_states-FitPair :
        (n s : ℕ) (vs : Vectors K)
        → s + n ≡ a.states_size
        → FitPair a vs
        → FitPair a (visit_states a l n s vs)
          × ((visit_states a l n s vs).0.at ≡ vs.0.at)
          × ((g : ℕ → K)
              → dot a (visit_states a l n s vs).1.at g
                ≡ dot a vs.1.at g ⊕ sum_from (λ i. vs.0.at i ⊗ carry a l g i) s n)
    unfolding visit_states
    visit_states-FitPair zero s vs h f = (f, refl, λ g. sym (sr.add-zero _))
    visit_states-FitPair (suc n) s vs h f = elim (Bool-cases (ltb s vs.0.size)) [
      | inl lt ↦
          let one = visit_state-FitPair s vs f in
          let rest =
            visit_states-FitPair n (s + 1) (visit_state a l s vs) (omega (arith, h)) one.0 in
          rw lt (
            rest.0,
            rest.1 ∙ one.1,
            λ g.
                rest.2 g
                ∙ ap₂ (λ p q. p ⊕ sum_from (λ i. q i ⊗ carry a l g i) (s + 1) n) (one.2 g) one.1
                ∙ sr.add_assoc _ _ _,
          )
      | inr lt ↦ rw lt (
        f,
        refl,
        λ g. sym (
            ap (λ x. dot a vs.1.at g ⊕ x)
              (sum_from-zero sr _ s (suc n)
                (λ i le. rw (f.left.beyond i (ground arith)) (sr.zero-mul _)))
            ∙ sr.add-zero _),
      )
    ]

    read_letter-FitPair :
        (vs : Vectors K)
        → FitPair a vs
        → FitPair a (read_letter a l vs)
          × ((g : ℕ → K) → dot a (read_letter a l vs).0.at g ≡ dot a vs.0.at (carry a l g))
    unfolding read_letter
    read_letter-FitPair vs f =
        let all =
          visit_states-FitPair a.states_size 0 (vs.0, zeros vs.1.size) (omega arith)
            (record {
              left = f.left;
              right = record {
                size_le = f.right.size_le;
                beyond = λ i le. refl;
                dead = λ i h. refl;
              };
              same_size = f.same_size;
            }) in
        (
          record { left = all.0.right; right = all.0.left; same_size = sym all.0.same_size },
          λ g.
              all.2 g
              ∙ ap (λ x. x ⊕ dot a vs.0.at (carry a l g))
                  (sum_from-zero sr _ 0 a.states_size (λ i le. sr.zero-mul (g i)))
              ∙ sr.zero-add _,
        )

  module _ (a : MutableAutomaton L K) (c : IsConsistent a) (sr : IsSemiring ws) where
    dot-read_letters :
        (ls : List L) (vs : Vectors K)
        → FitPair a vs
        → dot a (read_letters a ls vs).0.at (behaviour a []) ≡ dot a vs.0.at (behaviour a ls)
    unfolding read_letters behaviour
    dot-read_letters [] vs f = refl
    dot-read_letters (l ∷ ls) vs f =
        let one = read_letter-FitPair a c sr l vs f in
        dot-read_letters ls (read_letter a l vs) one.0 ∙ one.1 (behaviour a ls)

  start-Fits : (a : MutableAutomaton L K) → IsConsistent a → Fits a (write (zeros 2) pre ws.one)
  start-Fits a c = record {
    size_le = omega (arith, has_state_lt a post c.post_live);
    beyond = λ i le. rw (apart_lt pre 2 i (omega arith) le) refl;
    dead = λ i h. rw (apart a pre i c.pre_live h) refl;
  }

  start-FitPair :
      (a : MutableAutomaton L K)
      → IsConsistent a
      → FitPair a (write (zeros 2) pre ws.one, write (zeros 2) pre ws.one)
  start-FitPair a c = record { left = start-Fits a c; right = start-Fits a c; same_size = refl }

  dot-start :
      (a : MutableAutomaton L K)
      → IsConsistent a
      → IsSemiring ws
      → (g : ℕ → K) → dot a (write (zeros 2) pre ws.one).at g ≡ g pre
  dot-start a c sr g =
      ap (λ o. sum_from (λ i. (if pre == i then o else ws.zero) ⊗ g i) 0 a.states_size)
        (sym (sr.zero-add ws.one))
      ∙ sum_from-write sr (λ i. ws.zero) g pre ws.one 0 a.states_size (omega arith)
          (omega (arith, has_state_lt a pre c.pre_live))
      ∙ ap (λ x. x ⊕ ws.one ⊗ g pre)
          (sum_from-zero sr _ 0 a.states_size (λ i le. sr.zero-mul (g i)))
      ∙ sr.zero-add _
      ∙ sr.one-mul (g pre)

  -- Over any semiring of weights, the evaluation of a word by an automaton with consistent tables
  -- is the sum of the weights of the paths from `pre` to `post` that the delimited word labels,
  -- summed letter by letter from the end.
  pub evaluate-behaviour :
      (special : L) (a : MutableAutomaton L K) (word : List L)
      → IsSemiring ws
      → IsConsistent a
      → evaluate special a word ≡ behaviour a (special ∷ (word ++ (special ∷ []))) pre
  unfolding evaluate behaviour
  evaluate-behaviour special a word sr c =
      let ls = special ∷ (word ++ (special ∷ [])) in
      let start = write (zeros 2) pre ws.one in
      sym (
        sum_from-pick sr (read_letters a ls (start, start)).0.at post 0 a.states_size (omega arith)
          (omega (arith, has_state_lt a post c.post_live)))
      ∙ dot-read_letters a c sr ls (start, start) (start-FitPair a c)
      ∙ dot-start a c sr (behaviour a ls)
