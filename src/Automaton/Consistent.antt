-- ===== src/Automaton/Consistent.antt =====
-- What the edition functions of vcsn/core/mutable-automaton.hh maintain between the tables: the
-- states know exactly the live transitions, and the free stores hold exactly the other slots.
use vcsn.Base.{
  ℕ, ◌≤◌, ◌<◌, ◌==◌, ◌≡◌, ltb, List, [], ◌∷◌, true, false, not, ◌&&◌, arith, refl, Bool-cases, inl,
  inr, ap, ==_iff,
}
use vcsn.Automaton.{
  MutableAutomaton, pre, post, null_state, null_transition, lazy_transition, succ_of, pred_of,
  src_of, dst_of,
}
use vcsn.Automaton.Handles.{ind, count}
use vcsn.Automaton.Queries.{starts_with, has_state, has_handle}

pub record IsConsistent {L K : Type 0} (a : MutableAutomaton L K) : Type 0 where
  -- Each outgoing transition of a state is there once, and nothing else is; so for the incoming.
  pub succ_count :
      (s t : ℕ)
      → has_state a s ≡ true
      → count t (succ_of a s) ≡ ind (has_handle a t && (src_of a t == s))
  pub pred_count :
      (s t : ℕ)
      → has_state a s ≡ true
      → count t (pred_of a s) ≡ ind (has_handle a t && (dst_of a t == s))
  pub src_live : (t : ℕ) → has_handle a t ≡ true → has_state a (src_of a t) ≡ true
  pub dst_live : (t : ℕ) → has_handle a t ≡ true → has_state a (dst_of a t) ≡ true
  -- The free stores hold each slot that is not in use, once.
  pub free_transitions :
      (t : ℕ) → count t a.transitions_fs ≡ ind (ltb t a.transitions_size && not (has_handle a t))
  pub free_states : (s : ℕ) → count s a.states_fs ≡ ind (ltb s a.states_size && not (has_state a s))
  pub free_pred : (s t : ℕ) → s < a.states_size → has_state a s ≡ false → count t (pred_of a s) ≡ 0
  pub transitions_bound : a.transitions_size ≤ lazy_transition
  pub states_bound : a.states_size ≤ null_state
  pub pre_live : has_state a pre ≡ true
  pub post_live : has_state a post ≡ true

pub starts_with-absent : (t : ℕ) (us : List ℕ) → count t us ≡ 0 → starts_with us t ≡ false
starts_with-absent t [] h = refl
starts_with-absent t (u ∷ us) h = ground arith

module _ {L K : Type 0} where
  pub has_handle_lt :
      (a : MutableAutomaton L K) (t : ℕ) → has_handle a t ≡ true → t < a.transitions_size
  unfolding has_handle
  has_handle_lt a t h = ground arith

  pub src_of_live :
      (a : MutableAutomaton L K) (t : ℕ)
      → has_handle a t ≡ true
      → (src_of a t == null_state) ≡ false
  unfolding has_handle
  src_of_live a t h = ground arith

  pub has_state_lt : (a : MutableAutomaton L K) (s : ℕ) → has_state a s ≡ true → s < a.states_size
  unfolding has_state
  has_state_lt a s h = ground arith

  -- A state whose outgoing handles hold no invalid one is a state.
  pub has_state_of_count :
      (a : MutableAutomaton L K) (s : ℕ)
      → s < a.states_size
      → count null_transition (succ_of a s) ≡ 0
      → has_state a s ≡ true
  unfolding has_state
  has_state_of_count a s lt h =
      rw (starts_with-absent null_transition (succ_of a s) h) (ground arith)

  -- The invalid handles are not in the table.
  pub count-succ_null :
      (a : MutableAutomaton L K)
      → IsConsistent a
      → (s : ℕ) → has_state a s ≡ true
      → count null_transition (succ_of a s) ≡ 0
  unfolding has_handle
  count-succ_null a c s h = ground (arith, c.succ_count s null_transition h, c.transitions_bound)

  -- A state is not one of the other indexes.
  pub apart :
      (a : MutableAutomaton L K) (q s : ℕ)
      → has_state a q ≡ true
      → has_state a s ≡ false
      → (q == s) ≡ false
  apart a q s h k = elim (Bool-cases (q == s)) [
    | inl e ↦ ground (arith, h, k, ap (has_state a) ((==_iff q s).0 e))
    | inr e ↦ e
  ]
