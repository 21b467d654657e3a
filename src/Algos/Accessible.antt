-- ===== src/Algos/Accessible.antt =====
-- The states that are accessible from pre (vcsn/algos/accessible.hh): a breadth-first search with a
-- work list, whose number of steps the environment may limit by a credit.
pub mod Unseen
pub mod Visits
pub mod Laws
use vcsn.Base.{
  ℕ, zero, suc, ◌-◌, ◌==◌, Option, none, some, List, [], ◌∷◌, Bool, true, not, ◌||◌, if◌then◌else◌,
}
use vcsn.Automaton.{MutableAutomaton, pre, dst_of}
use vcsn.Automaton.Handles.{count, push_back}
use vcsn.Automaton.Queries.{is_lazy}
use vcsn.Automaton.Ranges.{all_out}

-- `res`, a set kept as a list, `todo` and `credit`.
pub record Search : Type 0 where
  pub seen : List ℕ
  pub todo : List ℕ
  pub credit : ℕ

-- `std::numeric_limits<unsigned>::max()`
abbrev pub default_credit : ℕ
default_credit = 4294967295

-- `credit--` on an `unsigned long`.
abbrev pub decrement : ℕ → ℕ
decrement c = if c == 0 then 18446744073709551615 else c - 1

abbrev pub seen_of : Option Search → Option (List ℕ)
seen_of none = none
seen_of (some s) = some s.seen

module _ {L K : Type 0} where
  -- `if (res.emplace(dst).second && credit--) todo.emplace(dst);`
  unfoldable pub visit : MutableAutomaton L K → Search → ℕ → Search
  visit a s t =
      let dst = dst_of a t in
      if count dst s.seen == 0
      then record {
        seen = dst ∷ s.seen;
        todo = if s.credit == 0 then s.todo else push_back s.todo dst;
        credit = decrement s.credit;
      }
      else s

  unfoldable pub visit_all : MutableAutomaton L K → Search → List ℕ → Search
  visit_all a s [] = s
  visit_all a s (t ∷ ts) = visit_all a (visit a s t) ts

  -- `strict || !aut->is_lazy(src)`
  abbrev pub is_explored : MutableAutomaton L K → Bool → ℕ → Bool
  is_explored a strict src = strict || not (is_lazy a src)

  -- The body of the loop for the state `src`.
  unfoldable pub expand : MutableAutomaton L K → Bool → ℕ → Search → Search
  expand a strict src s = visit_all a s (if is_explored a strict src then all_out a src else [])

  -- `while (!todo.empty())`, with at most `n` turns: none where states are left to do after them.
  unfoldable pub explore : MutableAutomaton L K → Bool → ℕ → Search → Option Search
  explore a strict zero s = elim s.todo [ [] ↦ some s | src ∷ rest ↦ none ]
  explore a strict (suc n) s = elim s.todo [
    | [] ↦ some s
    | src ∷ rest ↦ explore a strict n (expand a strict src (record s { todo = rest }))
  ]

  unfoldable pub accessible_states : MutableAutomaton L K → Bool → ℕ → Option (List ℕ)
  accessible_states a strict credit = seen_of (
      explore a strict a.states_size (record { seen = pre ∷ []; todo = pre ∷ []; credit = credit }))
