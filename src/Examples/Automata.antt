-- ===== src/Examples/Automata.antt =====
-- A small automaton over the Booleans, built by the editions of the code, and the theorems on
-- automata applied to it.
use vcsn.Base.{
  some, List, ok, ltb, length, ◌+◌, ℕ, ◌<◌, ◌≤◌, ◌≡◌, ◌↔◌, refl, [], ◌∷◌, ◌++◌, Bool, true, false,
  not, ◌&&◌, ◌==◌, arith, if◌then◌else◌,
}
use vcsn.Weight.{Weightset, ◌⊕◌}
use vcsn.Weight.B as B
use vcsn.Label.Letters.{letters_eq}
use vcsn.Automaton.{
  MutableAutomaton, pre, post, lazy_transition, null_state, src_of, dst_of, label_of,
}
use vcsn.Automaton.Handles.{count, swap_pop}
use vcsn.Automaton.Queries.{has_state, has_handle, find_transition, get_transition, num_initials}
use vcsn.Automaton.Edit.{
  set_lazy, new_state, del_state, set_transition, add_transition, new_transition, set_final,
  unset_final, store_transition, del_incoming, del_outgoing, erase_all, erase_one,
  del_transition_from_src, del_transition_from_dst,
}
use vcsn.Automaton.Ranges.{out, all_out, filter_range, states, state_range, irange, del_between}
use vcsn.Automaton.Between.{has_handle-del_between}
use vcsn.Automaton.Lookup.{same_key}
use vcsn.Automaton.Weights.{IsWellFormed, weight_at}
use vcsn.Automaton.Bury.{has_handle-del_state}
use vcsn.Automaton.States.{has_state-del_state}
use vcsn.Automaton.Grow.{HasNewState, new_state-HasNewState}
use vcsn.Automaton.Table.{get_transition_iff, weight_at-set_transition, weight_at-add_transition}
use vcsn.Automaton.Reach.{
  make_automaton, Reachable, start, next, step_new_state, step_set_transition, step_add_transition,
  Reachable-IsWellFormed,
}
use vcsn.Algos.Accessible.{accessible_states, default_credit}
use vcsn.Algos.Accessible.Laws.{Accessible, set_lazy-IsExplorable, accessible_states_iff}
use vcsn.Algos.Checks.{
  is_deterministic, is_complete, is_deterministic_state, distinct_labels, missing_after,
}
use vcsn.Algos.Checks.Deterministic.{IsDeterministic, is_deterministic_iff}
use vcsn.Algos.Checks.Complete.{IsComplete, is_complete_iff}
use vcsn.Algos.Complement.{final_states, complement_state, complement_states, complement_here}
use vcsn.Algos.Complement.Laws.{flipped, weight_at-complement_here}
use vcsn.Algos.Evaluate.{
  evaluate, read_letters, read_letter, visit_states, visit_state, take_transitions, take_transition,
  make_room,
}
use vcsn.Algos.Evaluate.Laws.{behaviour, evaluate-behaviour}

instance abbrev booleans : Weightset Bool
booleans = B.b

-- pre and post, then two more states, 2 and 3.
abbrev two_states : MutableAutomaton ℕ Bool
two_states = (new_state (new_state (make_automaton 0)).0).0

-- 2 is initial.
abbrev with_initial : MutableAutomaton ℕ Bool
with_initial = (set_transition two_states pre 2 0 true).0

-- From 2 to 3 by the letter 97.
abbrev with_letter : MutableAutomaton ℕ Bool
with_letter = (add_transition with_initial 2 3 97 true).0

-- 3 is final.
abbrev one_letter : MutableAutomaton ℕ Bool
one_letter = (set_transition with_letter 3 post 0 true).0

states_live :
    (has_state two_states 0 ≡ true)
    × (has_state two_states 2 ≡ true)
    × (has_state with_initial 2 ≡ true)
    × (has_state with_initial 3 ≡ true)
    × (has_state with_letter 3 ≡ true)
    × (has_state with_letter 1 ≡ true)
unfolding has_state new_state make_automaton set_transition add_transition get_transition
    find_transition new_transition store_transition
states_live = (refl, refl, refl, refl, refl, refl)

rooms :
    (two_states.transitions_size < lazy_transition)
    × (with_initial.transitions_size < lazy_transition)
    × (with_letter.transitions_size < lazy_transition)
unfolding has_state new_state make_automaton set_transition add_transition get_transition
    find_transition new_transition store_transition
rooms = (omega arith, omega arith, omega arith)

two_states-Reachable : Reachable 0 two_states
unfolding make_automaton new_state
two_states-Reachable =
    next (new_state (make_automaton 0)).0 two_states
      (next (make_automaton 0) (new_state (make_automaton 0)).0 start
        (step_new_state (omega arith)))
      (step_new_state (omega arith))

with_initial-Reachable : Reachable 0 with_initial
with_initial-Reachable =
    next two_states with_initial two_states-Reachable
      (step_set_transition 0 2 0 true states_live.0 states_live.1 rooms.0)

with_letter-Reachable : Reachable 0 with_letter
with_letter-Reachable =
    next with_initial with_letter with_initial-Reachable
      (step_add_transition 2 3 97 true states_live.2 states_live.3 rooms.1)

one_letter-Reachable : Reachable 0 one_letter
one_letter-Reachable =
    next with_letter one_letter with_letter-Reachable
      (step_set_transition 3 1 0 true states_live.4 states_live.5 rooms.2)

one_letter-IsWellFormed : IsWellFormed one_letter
one_letter-IsWellFormed = Reachable-IsWellFormed 0 one_letter B.b-IsSemiring one_letter-Reachable

Reachable-IsWellFormed_example : IsWellFormed one_letter
Reachable-IsWellFormed_example =
    Reachable-IsWellFormed 0 one_letter B.b-IsSemiring one_letter-Reachable

-- The automaton recognizes the word of one letter 97, and not that of one letter 98.
recognized :
    (evaluate 0 one_letter (97 ∷ []) ≡ true)
    × (evaluate 0 one_letter (98 ∷ []) ≡ false)
    × (weight_at one_letter 2 3 97 ≡ true)
    × (has_handle (del_state one_letter 3) 1 ≡ false)
unfolding has_state new_state make_automaton set_transition add_transition get_transition
    find_transition new_transition store_transition weight_at evaluate read_letters read_letter
    visit_states visit_state take_transitions take_transition make_room out all_out filter_range
    del_state del_incoming del_outgoing erase_all erase_one has_handle del_transition_from_src
    del_transition_from_dst swap_pop
recognized = (refl, refl, refl, refl)

evaluate-behaviour_example :
    evaluate 0 one_letter (97 ∷ []) ≡ behaviour one_letter (0 ∷ ((97 ∷ []) ++ (0 ∷ []))) pre
evaluate-behaviour_example =
    evaluate-behaviour 0 one_letter (97 ∷ []) B.b-IsSemiring one_letter-IsWellFormed.is_consistent

live_in_one_letter :
    (has_state one_letter 2 ≡ true)
    × (has_state one_letter 3 ≡ true)
    × (has_handle one_letter 1 ≡ true)
    × (has_state with_letter 2 ≡ true)
unfolding has_state new_state make_automaton set_transition add_transition get_transition
    find_transition new_transition store_transition has_handle
live_in_one_letter = (refl, refl, refl, refl)

get_transition_iff_example :
    (get_transition one_letter 2 3 97 ≡ 1)
    ↔ (same_key (src_of one_letter 1) (dst_of one_letter 1) (label_of one_letter 1) 2 3 97 ≡ true)
get_transition_iff_example =
    get_transition_iff one_letter 2 3 97 1 one_letter-IsWellFormed live_in_one_letter.0
      live_in_one_letter.1 live_in_one_letter.2

weight_at-set_transition_example :
    weight_at (set_transition with_letter 3 1 0 true).0 2 3 97
    ≡ (if same_key {L = ℕ} 3 1 0 2 3 97 then true else weight_at with_letter 2 3 97)
weight_at-set_transition_example =
    weight_at-set_transition with_letter 3 1 0 true 2 3 97 B.b-IsSemiring
      (Reachable-IsWellFormed 0 with_letter B.b-IsSemiring with_letter-Reachable) rooms.2
      states_live.4 states_live.5 live_in_one_letter.3 states_live.4

weight_at-add_transition_example : weight_at (add_transition with_initial 2 3 97 true).0 2 3 97 ≡ (
    if same_key {L = ℕ} 2 3 97 2 3 97
    then weight_at with_initial 2 3 97 ⊕ true
    else weight_at with_initial 2 3 97)
weight_at-add_transition_example =
    weight_at-add_transition with_initial 2 3 97 true 2 3 97 B.b-IsSemiring
      (Reachable-IsWellFormed 0 with_initial B.b-IsSemiring with_initial-Reachable) rooms.1
      states_live.2 states_live.3 states_live.2 states_live.3

has_handle-del_state_example : has_handle (del_state one_letter 3) 1 ≡ (
    (has_handle one_letter 1 && not (dst_of one_letter 1 == 3)) && not (src_of one_letter 1 == 3))
has_handle-del_state_example =
    has_handle-del_state one_letter 3 one_letter-IsWellFormed.is_consistent live_in_one_letter.1 1

has_state-del_state_example :
    has_state (del_state one_letter 3) 2 ≡ (has_state one_letter 2 && not (3 == 2))
has_state-del_state_example =
    has_state-del_state one_letter 3 one_letter-IsWellFormed.is_consistent live_in_one_letter.1 2

new_state-HasNewState_example : HasNewState two_states (new_state two_states)
new_state-HasNewState_example =
    new_state-HasNewState two_states
      (Reachable-IsWellFormed 0 two_states B.b-IsSemiring two_states-Reachable).is_consistent room
  where
    room : two_states.states_size < null_state
    room = unfold new_state make_automaton in omega arith

-- The state 3 is lazy.
abbrev lazy_letter : MutableAutomaton ℕ Bool
lazy_letter = set_lazy one_letter 3 true

accessible_states_iff_example :
    (seen : List ℕ) × (accessible_states lazy_letter false default_credit ≡ some seen)
    × ((q : ℕ) → (1 ≤ count q seen) ↔ Accessible lazy_letter false q)
accessible_states_iff_example =
    accessible_states_iff lazy_letter false
      (set_lazy-IsExplorable one_letter one_letter-IsWellFormed.is_consistent 3) default_credit room
  where
    room : lazy_letter.states_size ≤ default_credit
    room = unfold set_lazy in one_letter-IsWellFormed.is_consistent.states_bound

is_deterministic_iff_example : (is_deterministic one_letter ≡ true) ↔ IsDeterministic one_letter
is_deterministic_iff_example = is_deterministic_iff one_letter one_letter-IsWellFormed.is_consistent

is_complete_iff_example :
    (is_complete one_letter (97 ∷ []) ≡ true) ↔ IsComplete one_letter (97 ∷ [])
is_complete_iff_example = is_complete_iff one_letter (97 ∷ []) one_letter-IsWellFormed.is_consistent

-- One letter at most leaves each state, and none leaves the final one.
checked : (is_deterministic one_letter ≡ true) × (is_complete one_letter (97 ∷ []) ≡ false)
unfolding has_state new_state make_automaton set_transition add_transition get_transition
    is_deterministic is_complete is_deterministic_state distinct_labels missing_after all_out states
    state_range filter_range irange num_initials find_transition new_transition store_transition
checked = (refl, refl)

-- One state, 2, which is initial, with a loop by the letter 97: it is deterministic and complete.
abbrev one_state : MutableAutomaton ℕ Bool
one_state = (new_state (make_automaton 0)).0

abbrev initial_state : MutableAutomaton ℕ Bool
initial_state = (set_transition one_state pre 2 0 true).0

abbrev looped : MutableAutomaton ℕ Bool
looped = (add_transition initial_state 2 2 97 true).0

abbrev complemented : MutableAutomaton ℕ Bool
complemented = complement_states (final_states looped) (states looped) looped

looped_live :
    (has_state one_state 0 ≡ true)
    × (has_state one_state 2 ≡ true)
    × (has_state initial_state 2 ≡ true)
    × (has_state looped 2 ≡ true)
    × (has_state looped 1 ≡ true)
    × (one_state.transitions_size < lazy_transition)
    × (initial_state.transitions_size < lazy_transition)
    × (looped.transitions_size + length (states looped) ≤ lazy_transition)
    × (complement_here looped (97 ∷ []) ≡ ok complemented)
    × (evaluate 0 complemented (97 ∷ []) ≡ true)
unfolding has_state new_state make_automaton set_transition add_transition get_transition
    find_transition new_transition store_transition complement_here complement_states
    complement_state is_deterministic is_complete is_deterministic_state distinct_labels
    missing_after all_out states state_range filter_range irange num_initials final_states set_final
    unset_final evaluate read_letters read_letter visit_states visit_state take_transitions
    take_transition make_room out
looped_live = (refl, refl, refl, refl, refl, omega arith, omega arith, omega arith, refl, refl)

looped-Reachable : Reachable 0 looped
unfolding make_automaton new_state
looped-Reachable =
    next initial_state looped
      (next one_state initial_state
        (next (make_automaton 0) one_state start (step_new_state (omega arith)))
        (step_set_transition 0 2 0 true looped_live.0 looped_live.1 looped_live.5))
      (step_add_transition 2 2 97 true looped_live.2 looped_live.2 looped_live.6)

weight_at-complement_here_example : weight_at complemented 2 1 0 ≡ (
    if ltb post 2 && ((post == 1) && letters_eq.beq looped.prepost_label 0)
    then flipped (final_states looped) 2
    else weight_at looped 2 1 0)
weight_at-complement_here_example =
    weight_at-complement_here looped complemented (97 ∷ []) 2 1 0 B.b-IsSemiring
      (Reachable-IsWellFormed 0 looped B.b-IsSemiring looped-Reachable) looped_live.7 looped_live.3
      looped_live.4 looped_live.8

has_handle-del_between_example :
    has_handle (del_between one_letter 2 3) 1
    ≡ (has_handle one_letter 1 && not ((src_of one_letter 1 == 2) && (dst_of one_letter 1 == 3)))
has_handle-del_between_example =
    has_handle-del_between one_letter 2 3 1 one_letter-IsWellFormed.is_consistent
      live_in_one_letter.0
