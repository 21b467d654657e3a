-- ===== src/Algos/Evaluate.antt =====
-- The evaluation of a word by an automaton (vcsn/algos/evaluate.hh), on a free labelset: a weight
-- for each state, which each letter carries over to the next states.
pub mod Sums
pub mod Turns
pub mod Laws
use vcsn.Base.{
  ℕ, zero, suc, ◌+◌, ◌==◌, ltb, leb, List, [], ◌∷◌, ◌++◌, Bool, true, false, if◌then◌else◌, Eq,
}
use vcsn.Weight.{Weightset, ◌⊕◌, ◌⊗◌}
use vcsn.Automaton.{MutableAutomaton, pre, post, dst_of, weight_of}
use vcsn.Automaton.Ranges.{out}

-- `weights_t`, a vector: what stands at an index from `size` on is never read.
pub record Weights (K : Type 0) : Type 0 where
  pub size : ℕ
  pub at : ℕ → K

-- The two vectors `v1` and `v2`.
abbrev pub Vectors : Type 0 → Type 0
Vectors K = Weights K × Weights K

module _ {K : Type 0} ⦃ws : Weightset K⦄ where
  -- `weights_t(n, zero)`, and `v.assign(n, zero)`
  abbrev pub zeros : ℕ → Weights K
  zeros n = record { size = n; at = λ i. ws.zero }

  -- `v.resize(n, zero)`
  abbrev pub resize : Weights K → ℕ → Weights K
  resize v n = record { size = n; at = λ i. if ltb i v.size then v.at i else ws.zero }

  -- `v[i] = x`
  abbrev pub write : Weights K → ℕ → K → Weights K
  write v i x = record v { at = λ j. if i == j then x else v.at j }

  -- "Make sure the vectors are large enough for dst".
  unfoldable pub make_room : Vectors K → ℕ → Vectors K
  make_room vs dst =
      if leb vs.1.size dst then (resize vs.0 (dst + 1), resize vs.1 (dst + 1)) else vs

module _ {L K : Type 0} ⦃ws : Weightset K⦄ where
  -- The body of the loop on the transitions from `s`.
  unfoldable pub take_transition : MutableAutomaton L K → ℕ → Vectors K → ℕ → Vectors K
  take_transition a s vs t =
      let dst = dst_of a t in
      let big = make_room vs dst in
      (big.0, write big.1 dst (big.1.at dst ⊕ big.0.at s ⊗ weight_of a t))

  unfoldable pub take_transitions : MutableAutomaton L K → ℕ → List ℕ → Vectors K → Vectors K
  take_transitions a s [] vs = vs
  take_transitions a s (t ∷ ts) vs = take_transitions a s ts (take_transition a s vs t)

module _ {L K : Type 0} ⦃e : Eq L⦄ ⦃ws : Weightset K⦄ where
  unfoldable pub visit_state : MutableAutomaton L K → L → ℕ → Vectors K → Vectors K
  visit_state a l s vs = if ws.is_zero (vs.0.at s) then vs else take_transitions a s (out a s l) vs

  -- `for (s = 0; s < v1.size(); ++s)`, with at most `n` turns from `s` on.
  unfoldable pub visit_states : MutableAutomaton L K → L → ℕ → ℕ → Vectors K → Vectors K
  visit_states a l zero s vs = vs
  visit_states a l (suc n) s vs =
      let rest = visit_states a l n (s + 1) (visit_state a l s vs) in
      if ltb s vs.0.size then rest else vs

  -- One letter: `v2` is cleared, filled, and the vectors are exchanged.
  unfoldable pub read_letter : MutableAutomaton L K → L → Vectors K → Vectors K
  read_letter a l vs =
      let end = visit_states a l a.states_size 0 (vs.0, zeros vs.1.size) in (end.1, end.0)

  unfoldable pub read_letters : MutableAutomaton L K → List L → Vectors K → Vectors K
  read_letters a [] vs = vs
  read_letters a (l ∷ ls) vs = read_letters a ls (read_letter a l vs)

  -- `evaluator::operator()(word)` of a free labelset, whose special label is given.
  unfoldable pub evaluate : L → MutableAutomaton L K → List L → K
  evaluate special a word =
      let start = write (zeros 2) pre ws.one in
      let end = read_letters a (special ∷ (word ++ (special ∷ []))) (start, start) in end.0.at post
