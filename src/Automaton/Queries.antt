-- ===== src/Automaton/Queries.antt =====
-- The queries on states and transitions of vcsn/core/mutable-automaton.hh.
use vcsn.Base.{ℕ, ◌-◌, ◌==◌, leb, List, [], ◌∷◌, Bool, false, not, ◌&&◌, if◌then◌else◌, length, Eq}
use vcsn.Weight.{Weightset}
use vcsn.Automaton.{
  MutableAutomaton, pre, post, null_state, null_transition, lazy_transition, succ_of, pred_of,
  src_of, dst_of, label_of, weight_of,
}

-- `!us.empty() && us.front() == t`
abbrev pub starts_with : List ℕ → ℕ → Bool
starts_with [] t = false
starts_with (u ∷ us) t = u == t

-- `find_if(us, p)`, then the handle that was found, or `null_transition()`.
unfoldable pub find_transition : (ℕ → Bool) → List ℕ → ℕ
find_transition p [] = null_transition
find_transition p (t ∷ ts) = if p t then t else find_transition p ts

module _ {L K : Type 0} where
  unfoldable pub num_all_states : MutableAutomaton L K → ℕ
  num_all_states a = a.states_size - length a.states_fs

  unfoldable pub num_states : MutableAutomaton L K → ℕ
  num_states a = num_all_states a - 2

  unfoldable pub num_initials : MutableAutomaton L K → ℕ
  num_initials a = length (succ_of a pre)

  unfoldable pub num_finals : MutableAutomaton L K → ℕ
  num_finals a = length (pred_of a post)

  unfoldable pub num_transitions : MutableAutomaton L K → ℕ
  num_transitions a = a.transitions_size - length a.transitions_fs - num_initials a - num_finals a

  unfoldable pub has_state : MutableAutomaton L K → ℕ → Bool
  has_state a s =
      if leb a.states_size s then false else not (starts_with (succ_of a s) null_transition)

  unfoldable pub is_lazy : MutableAutomaton L K → ℕ → Bool
  is_lazy a s = starts_with (succ_of a s) lazy_transition

  unfoldable pub is_lazy_in : MutableAutomaton L K → ℕ → Bool
  is_lazy_in a s = starts_with (pred_of a s) lazy_transition

  -- `has_transition(t)`
  unfoldable pub has_handle : MutableAutomaton L K → ℕ → Bool
  has_handle a t = if leb a.transitions_size t then false else not (src_of a t == null_state)

module _ {L K : Type 0} ⦃e : Eq L⦄ where
  unfoldable pub get_transition : MutableAutomaton L K → ℕ → ℕ → L → ℕ
  get_transition a src dst l =
      if leb (length (succ_of a src)) (length (pred_of a dst))
      then find_transition (λ t. (dst_of a t == dst) && e.beq (label_of a t) l) (succ_of a src)
      else find_transition (λ t. (src_of a t == src) && e.beq (label_of a t) l) (pred_of a dst)

  -- `has_transition(src, dst, l)`
  unfoldable pub has_transition : MutableAutomaton L K → ℕ → ℕ → L → Bool
  has_transition a src dst l = not (get_transition a src dst l == null_transition)

  unfoldable pub is_initial : MutableAutomaton L K → ℕ → Bool
  is_initial a s = has_transition a pre s a.prepost_label

  unfoldable pub is_final : MutableAutomaton L K → ℕ → Bool
  is_final a s = has_transition a s post a.prepost_label

module _ {L K : Type 0} ⦃e : Eq L⦄ ⦃ws : Weightset K⦄ where
  unfoldable pub get_initial_weight : MutableAutomaton L K → ℕ → K
  get_initial_weight a s =
      let t = get_transition a pre s a.prepost_label in
      if t == null_transition then ws.zero else weight_of a t

  unfoldable pub get_final_weight : MutableAutomaton L K → ℕ → K
  get_final_weight a s =
      let t = get_transition a s post a.prepost_label in
      if t == null_transition then ws.zero else weight_of a t
