-- ===== src/Automaton.antt =====
-- Automata (vcsn/core/mutable-automaton.hh, vcsn/core/transition.hh): the tables of states and
-- transitions. A vector is its size and a function on the indexes; the states and the transitions
-- are handles, the indexes in these tables.
pub mod Handles
pub mod Queries
pub mod Edit
pub mod Ranges
pub mod Consistent
pub mod Remove
pub mod Delete
pub mod Erase
pub mod Bury
pub mod States
pub mod Grow
pub mod Insert
pub mod Store
pub mod Lookup
pub mod Weights
pub mod Changes
pub mod Refine
pub mod Filter
pub mod Between
pub mod Table
pub mod Reach
use vcsn.Base.{ℕ, ◌==◌, List, [], ◌∷◌, if◌then◌else◌}

-- `stored_state_t`: the handles of the outgoing and of the incoming transitions.
pub record StoredState : Type 0 where
  pub succ : List ℕ
  pub pred : List ℕ

-- `stored_transition_t`
pub record StoredTransition (L K : Type 0) : Type 0 where
  pub src : ℕ
  pub dst : ℕ
  pub label : L
  pub weight : K

-- `mutable_automaton_impl`: `states_`, `states_fs_`, `transitions_`, `transitions_fs_` and
-- `prepost_label_`. The last element of a free store is the one that `back()` reads.
pub record MutableAutomaton (L K : Type 0) : Type 0 where
  pub states_size : ℕ
  pub states : ℕ → StoredState
  pub states_fs : List ℕ
  pub transitions_size : ℕ
  pub transitions : ℕ → StoredTransition L K
  pub transitions_fs : List ℕ
  pub prepost_label : L

abbrev pub pre : ℕ
pre = 0

abbrev pub post : ℕ
post = 1

-- `-1U`
abbrev pub null_state : ℕ
null_state = 4294967295

abbrev pub null_transition : ℕ
null_transition = 4294967295

-- `-2U`
abbrev pub lazy_transition : ℕ
lazy_transition = 4294967294

module _ {L K : Type 0} where
  abbrev pub succ_of : MutableAutomaton L K → ℕ → List ℕ
  succ_of a s = (a.states s).succ

  abbrev pub pred_of : MutableAutomaton L K → ℕ → List ℕ
  pred_of a s = (a.states s).pred

  abbrev pub src_of : MutableAutomaton L K → ℕ → ℕ
  src_of a t = (a.transitions t).src

  abbrev pub dst_of : MutableAutomaton L K → ℕ → ℕ
  dst_of a t = (a.transitions t).dst

  abbrev pub label_of : MutableAutomaton L K → ℕ → L
  label_of a t = (a.transitions t).label

  abbrev pub weight_of : MutableAutomaton L K → ℕ → K
  weight_of a t = (a.transitions t).weight

  -- `states_[s].succ = us`
  abbrev pub put_succ : MutableAutomaton L K → ℕ → List ℕ → MutableAutomaton L K
  put_succ a s us = record a {
    states = λ q. record { succ = if s == q then us else succ_of a q; pred = pred_of a q };
  }

  -- `states_[s].pred = us`
  abbrev pub put_pred : MutableAutomaton L K → ℕ → List ℕ → MutableAutomaton L K
  put_pred a s us = record a {
    states = λ q. record { succ = succ_of a q; pred = if s == q then us else pred_of a q };
  }

  -- `transitions_[t] = {src, dst, l, w}`
  abbrev pub put_transition : MutableAutomaton L K → ℕ → ℕ → ℕ → L → K → MutableAutomaton L K
  put_transition a t src dst l w = record a {
    transitions = λ u. record {
      src = if t == u then src else src_of a u;
      dst = if t == u then dst else dst_of a u;
      label = if t == u then l else label_of a u;
      weight = if t == u then w else weight_of a u;
    };
  }

  -- `transitions_[t].src = null_state()`
  abbrev pub invalidate : MutableAutomaton L K → ℕ → MutableAutomaton L K
  invalidate a t = put_transition a t null_state (dst_of a t) (label_of a t) (weight_of a t)
