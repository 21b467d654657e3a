-- ===== src/Automaton/Ranges.antt =====
-- The ranges of states and transitions: `state_range` and those built on it in
-- vcsn/core/mutable-automaton.hh, and the ranges of vcsn/core/automaton.hh.
use vcsn.Base.{
  ℕ, zero, suc, ◌+◌, ◌-◌, ◌==◌, List, [], ◌∷◌, Bool, true, not, ◌&&◌, if◌then◌else◌, Eq,
}
use vcsn.Automaton.{
  MutableAutomaton, pre, post, null_state, null_transition, succ_of, pred_of, src_of, dst_of,
  label_of,
}
use vcsn.Automaton.Edit.{del_handle}
use vcsn.Automaton.Queries.{starts_with}

-- `make_container_filter_range(us, p)`
unfoldable pub filter_range : (ℕ → Bool) → List ℕ → List ℕ
filter_range p [] = []
filter_range p (u ∷ us) = if p u then u ∷ filter_range p us else filter_range p us

-- `boost::irange(b, b + n)`
unfoldable pub irange : ℕ → ℕ → List ℕ
irange b zero = []
irange b (suc n) = b ∷ irange (b + 1) n

module _ {L K : Type 0} where
  unfoldable pub state_range : MutableAutomaton L K → ℕ → ℕ → (ℕ → Bool) → List ℕ
  state_range a b e p =
      filter_range (λ s. not (starts_with (succ_of a s) null_transition) && p s) (irange b (e - b))

  unfoldable pub all_states : MutableAutomaton L K → List ℕ
  all_states a = state_range a 0 a.states_size (λ s. true)

  unfoldable pub states : MutableAutomaton L K → List ℕ
  states a = state_range a (post + 1) a.states_size (λ s. true)

  unfoldable pub all_transitions : MutableAutomaton L K → List ℕ
  all_transitions a =
      filter_range (λ t. not (src_of a t == null_state)) (irange 0 a.transitions_size)

  -- `all_out` and `all_in`
  unfoldable pub all_out : MutableAutomaton L K → ℕ → List ℕ
  all_out a s = succ_of a s

  unfoldable pub all_in : MutableAutomaton L K → ℕ → List ℕ
  all_in a s = pred_of a s

module _ {L K : Type 0} ⦃e : Eq L⦄ where
  -- The transitions from `s` labelled by `l`, `out(aut, s, l)`.
  unfoldable pub out : MutableAutomaton L K → ℕ → L → List ℕ
  out a s l = filter_range (λ t. e.beq (label_of a t) l) (all_out a s)

module _ {L K : Type 0} where
  -- The visible transitions from `s`, `out(aut, s)`, and to `s`, `in(aut, s)`.
  unfoldable pub out_visible : MutableAutomaton L K → ℕ → List ℕ
  out_visible a s = filter_range (λ t. not (dst_of a t == post)) (all_out a s)

  unfoldable pub in_visible : MutableAutomaton L K → ℕ → List ℕ
  in_visible a s = filter_range (λ t. not (src_of a t == pre)) (all_in a s)

  unfoldable pub initial_transitions : MutableAutomaton L K → List ℕ
  initial_transitions a = all_out a pre

  unfoldable pub final_transitions : MutableAutomaton L K → List ℕ
  final_transitions a = all_in a post

  -- The transitions from `s` to `d`.
  unfoldable pub outin : MutableAutomaton L K → ℕ → ℕ → List ℕ
  outin a s d = filter_range (λ t. dst_of a t == d) (all_out a s)

  -- `del_transition(aut, s, d)`, on a copy of the indexes.
  unfoldable pub del_each : MutableAutomaton L K → List ℕ → MutableAutomaton L K
  del_each a [] = a
  del_each a (t ∷ ts) = del_each (del_handle a t) ts

  unfoldable pub del_between : MutableAutomaton L K → ℕ → ℕ → MutableAutomaton L K
  del_between a s d = del_each a (outin a s d)

  unfoldable pub is_special : MutableAutomaton L K → ℕ → Bool
  is_special a t = not (src_of a t == pre) && not (dst_of a t == post)

  -- The transitions between visible states.
  unfoldable pub transitions : MutableAutomaton L K → List ℕ
  transitions a = filter_range (is_special a) (all_transitions a)

module _ {L K : Type 0} ⦃e : Eq L⦄ where
  -- The transitions to `s` labelled by `l`, `in(aut, s, l)`.
  unfoldable pub in_label : MutableAutomaton L K → ℕ → L → List ℕ
  in_label a s l = filter_range (λ t. e.beq (label_of a t) l) (all_in a s)
