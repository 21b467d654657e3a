-- ===== src/Algos/Complement.antt =====
-- The complement of a deterministic complete automaton (vcsn/algos/complement.hh): the final states
-- are exchanged with the others.
pub mod Laws
use vcsn.Base.{ℕ, leb, List, [], ◌∷◌, map, Result, ok, Error, require, if◌then◌else◌, Eq}
use vcsn.Weight.{Weightset}
use vcsn.Automaton.{MutableAutomaton, post, pred_of, src_of}
use vcsn.Automaton.Handles.{count}
use vcsn.Automaton.Edit.{set_final, unset_final}
use vcsn.Automaton.Ranges.{states}
use vcsn.Algos.Checks.{is_deterministic, is_complete}

module _ {L K : Type 0} where
  -- `finals`, the sources of the transitions to post.
  unfoldable pub final_states : MutableAutomaton L K → List ℕ
  final_states a = map (src_of a) (pred_of a post)

module _ {L K : Type 0} ⦃e : Eq L⦄ ⦃ws : Weightset K⦄ where
  unfoldable pub complement_state : List ℕ → MutableAutomaton L K → ℕ → MutableAutomaton L K
  complement_state finals a s =
      if leb 1 (count s finals) then unset_final a s else (set_final a s ws.one).0

  unfoldable pub complement_states : List ℕ → List ℕ → MutableAutomaton L K → MutableAutomaton L K
  complement_states finals [] a = a
  complement_states finals (s ∷ ss) a = complement_states finals ss (complement_state finals a s)

  -- The generators of the labelset are given.
  unfoldable pub complement_here : MutableAutomaton L K → List L → Result (MutableAutomaton L K)
  complement_here a letters = require (is_deterministic a) Error.invalid_arguments (
      require (is_complete a letters) Error.invalid_arguments
        (ok (complement_states (final_states a) (states a) a)))
