-- ===== src/Automaton/Edit.antt =====
-- The edition of states and transitions (vcsn/core/mutable-automaton.hh). A method that changes the
-- automaton returns the changed one, with the handle that it returns.
use vcsn.Base.{ℕ, ◌+◌, ◌==◌, List, [], ◌∷◌, ◌++◌, Bool, true, false, if◌then◌else◌, Eq}
use vcsn.Weight.{Weightset, ◌⊕◌, ◌⊗◌}
use vcsn.Automaton.{
  MutableAutomaton, pre, post, null_transition, lazy_transition, succ_of, pred_of, src_of, dst_of,
  label_of, weight_of, put_succ, put_pred, put_transition, invalidate,
}
use vcsn.Automaton.Handles.{push_back, back, pop_back, swap_pop}
use vcsn.Automaton.Queries.{get_transition}

module _ {L K : Type 0} where
  unfoldable pub del_transition_from_src : MutableAutomaton L K → ℕ → MutableAutomaton L K
  del_transition_from_src a t = put_succ a (src_of a t) (swap_pop (succ_of a (src_of a t)) t)

  unfoldable pub del_transition_from_dst : MutableAutomaton L K → ℕ → MutableAutomaton L K
  del_transition_from_dst a t = put_pred a (dst_of a t) (swap_pop (pred_of a (dst_of a t)) t)

  -- One turn of the loop of `del_transition_container`, whose parameter is `from_succ`.
  unfoldable pub erase_one : Bool → MutableAutomaton L K → ℕ → MutableAutomaton L K
  erase_one true a t = invalidate (del_transition_from_dst a t) t
  erase_one false a t = invalidate (del_transition_from_src a t) t

  unfoldable pub erase_all : Bool → MutableAutomaton L K → List ℕ → MutableAutomaton L K
  erase_all from_succ a [] = a
  erase_all from_succ a (t ∷ ts) = erase_all from_succ (erase_one from_succ a t) ts

  abbrev pub free_transitions : MutableAutomaton L K → List ℕ → MutableAutomaton L K
  free_transitions a ts = record a { transitions_fs = a.transitions_fs ++ ts }

  -- `del_transition_container(states_[s].pred, false)`
  unfoldable pub del_incoming : MutableAutomaton L K → ℕ → MutableAutomaton L K
  del_incoming a s =
      put_pred (free_transitions (erase_all false a (pred_of a s)) (pred_of a s)) s []

  -- `del_transition_container(states_[s].succ, true)`
  unfoldable pub del_outgoing : MutableAutomaton L K → ℕ → MutableAutomaton L K
  del_outgoing a s = put_succ (free_transitions (erase_all true a (succ_of a s)) (succ_of a s)) s []

  -- The two branches of `new_state`: append a state, or take the last free one.
  abbrev pub append_state : MutableAutomaton L K → MutableAutomaton L K × ℕ
  append_state a = (
    record (put_pred (put_succ a a.states_size []) a.states_size []) {
      states_size = a.states_size + 1;
    },
    a.states_size,
  )

  abbrev pub reuse_state : MutableAutomaton L K → ℕ → List ℕ → MutableAutomaton L K × ℕ
  reuse_state a u us = (record (put_succ a (back u us) []) { states_fs = pop_back u us }, back u us)

  unfoldable pub new_state : MutableAutomaton L K → MutableAutomaton L K × ℕ
  new_state a = elim a.states_fs [ [] ↦ append_state a | u ∷ us ↦ reuse_state a u us ]

  -- `ss.succ.emplace_back(null_transition()); states_fs_.emplace_back(s);`
  abbrev pub bury : MutableAutomaton L K → ℕ → MutableAutomaton L K
  bury a s = record (put_succ a s (push_back (succ_of a s) null_transition)) {
    states_fs = push_back a.states_fs s;
  }

  unfoldable pub del_state : MutableAutomaton L K → ℕ → MutableAutomaton L K
  del_state a s = bury (del_outgoing (del_incoming a s) s) s

  unfoldable pub set_lazy : MutableAutomaton L K → ℕ → Bool → MutableAutomaton L K
  set_lazy a s lazy = put_succ a s (if lazy then lazy_transition ∷ [] else [])

  unfoldable pub set_lazy_in : MutableAutomaton L K → ℕ → Bool → MutableAutomaton L K
  set_lazy_in a s lazy = put_pred a s (if lazy then lazy_transition ∷ [] else [])

  -- `del_transition(t)`
  unfoldable pub del_handle : MutableAutomaton L K → ℕ → MutableAutomaton L K
  del_handle a t =
      let b = invalidate (del_transition_from_dst (del_transition_from_src a t) t) t in
      record b { transitions_fs = push_back b.transitions_fs t }

  -- `states_[src].succ.emplace_back(t); states_[dst].pred.emplace_back(t);`
  abbrev pub attach : MutableAutomaton L K → ℕ → ℕ → ℕ → MutableAutomaton L K
  attach a src dst t =
      let b = put_succ a src (push_back (succ_of a src) t) in
      put_pred b dst (push_back (pred_of b dst) t)

  -- `new_transition` of a weight that is not zero: in a new slot, or in the last free one.
  abbrev pub append_transition : MutableAutomaton L K → ℕ → ℕ → L → K → MutableAutomaton L K × ℕ
  append_transition a src dst l w =
      let t = a.transitions_size in
      let b = record (put_transition a t src dst l w) { transitions_size = t + 1 } in
      (attach b src dst t, t)

  abbrev pub reuse_transition :
      MutableAutomaton L K → ℕ → List ℕ → ℕ → ℕ → L → K → MutableAutomaton L K × ℕ
  reuse_transition a u us src dst l w =
      let t = back u us in
      let b = record (put_transition a t src dst l w) { transitions_fs = pop_back u us } in
      (attach b src dst t, t)

  unfoldable pub store_transition : MutableAutomaton L K → ℕ → ℕ → L → K → MutableAutomaton L K × ℕ
  store_transition a src dst l w = elim a.transitions_fs [
    | [] ↦ append_transition a src dst l w
    | u ∷ us ↦ reuse_transition a u us src dst l w
  ]

  -- `st.set_label(l); st.set_weight(w);`
  abbrev pub overwrite_transition : MutableAutomaton L K → ℕ → L → K → MutableAutomaton L K
  overwrite_transition a t l w = put_transition a t (src_of a t) (dst_of a t) l w

module _ {L K : Type 0} ⦃ws : Weightset K⦄ where
  unfoldable pub new_transition : MutableAutomaton L K → ℕ → ℕ → L → K → MutableAutomaton L K × ℕ
  new_transition a src dst l w =
      if ws.is_zero w then (a, null_transition) else store_transition a src dst l w

  unfoldable pub set_weight : MutableAutomaton L K → ℕ → K → MutableAutomaton L K × ℕ
  set_weight a t w =
      if ws.is_zero w
      then (del_handle a t, null_transition)
      else (overwrite_transition a t (label_of a t) w, t)

  -- `add_weight`, `lweight` and `rweight` of a transition: the automaton after them.
  unfoldable pub add_weight : MutableAutomaton L K → ℕ → K → MutableAutomaton L K
  add_weight a t w = (set_weight a t (weight_of a t ⊕ w)).0

  unfoldable pub lweight_transition : MutableAutomaton L K → ℕ → K → MutableAutomaton L K
  lweight_transition a t w = (set_weight a t (w ⊗ weight_of a t)).0

  unfoldable pub rweight_transition : MutableAutomaton L K → ℕ → K → MutableAutomaton L K
  rweight_transition a t w = (set_weight a t (weight_of a t ⊗ w)).0

module _ {L K : Type 0} ⦃e : Eq L⦄ ⦃ws : Weightset K⦄ where
  -- `del_transition(src, dst, l)`
  unfoldable pub del_transition : MutableAutomaton L K → ℕ → ℕ → L → MutableAutomaton L K
  del_transition a src dst l =
      let t = get_transition a src dst l in if t == null_transition then a else del_handle a t

  unfoldable pub set_transition : MutableAutomaton L K → ℕ → ℕ → L → K → MutableAutomaton L K × ℕ
  set_transition a src dst l w =
      let t = get_transition a src dst l in
      if t == null_transition
      then new_transition a src dst l w
      else if ws.is_zero w
      then (del_handle a t, null_transition)
      else (overwrite_transition a t l w, t)

  unfoldable pub add_transition : MutableAutomaton L K → ℕ → ℕ → L → K → MutableAutomaton L K × ℕ
  add_transition a src dst l w =
      let t = get_transition a src dst l in
      if t == null_transition
      then new_transition a src dst l w
      else set_weight a t (weight_of a t ⊕ w)

  unfoldable pub set_initial : MutableAutomaton L K → ℕ → K → MutableAutomaton L K × ℕ
  set_initial a s w = set_transition a pre s a.prepost_label w

  unfoldable pub add_initial : MutableAutomaton L K → ℕ → K → MutableAutomaton L K × ℕ
  add_initial a s w = add_transition a pre s a.prepost_label w

  unfoldable pub unset_initial : MutableAutomaton L K → ℕ → MutableAutomaton L K
  unset_initial a s = (set_initial a s ws.zero).0

  unfoldable pub set_final : MutableAutomaton L K → ℕ → K → MutableAutomaton L K × ℕ
  set_final a s w = set_transition a s post a.prepost_label w

  unfoldable pub add_final : MutableAutomaton L K → ℕ → K → MutableAutomaton L K × ℕ
  add_final a s w = add_transition a s post a.prepost_label w

  unfoldable pub unset_final : MutableAutomaton L K → ℕ → MutableAutomaton L K
  unset_final a s = (set_final a s ws.zero).0
