-- ===== src/Automaton/Between.antt =====
-- `del_transition(aut, s, d)` (vcsn/core/automaton.hh): all the transitions between two states are
-- removed, one by one.
use vcsn.Base.{
  ℕ, ◌≤◌, ◌==◌, ◌≡◌, leb, List, [], ◌∷◌, Bool, true, not, ◌&&◌, arith, Bool-cases, inl, inr, ap,
  ◌∙◌,
}
use vcsn.Automaton.{MutableAutomaton, src_of, dst_of, succ_of}
use vcsn.Automaton.Handles.{count}
use vcsn.Automaton.Queries.{has_state, has_handle}
use vcsn.Automaton.Edit.{del_handle}
use vcsn.Automaton.Ranges.{filter_range, all_out, outin, del_each, del_between}
use vcsn.Automaton.Filter.{count-filter_range}
use vcsn.Automaton.Consistent.{IsConsistent}
use vcsn.Automaton.Remove.{has_handle-Removes, Removes-IsConsistent}
use vcsn.Automaton.Delete.{del_handle-Removes}

listed_step :
    (p : Bool) (t u : ℕ) (ts : List ℕ)
    → ((p && not (t == u)) && not (leb 1 (count u ts))) ≡ (p && not (leb 1 (count u (t ∷ ts))))
listed_step p t u ts = elim (Bool-cases (t == u)) [ inl e ↦ ground arith | inr e ↦ ground arith ]

module _ {L K : Type 0} where
  del_each-IsConsistent :
      (ts : List ℕ) (a : MutableAutomaton L K)
      → IsConsistent a
      → ((t : ℕ) → 1 ≤ count t ts → has_handle a t ≡ true)
      → ((t : ℕ) → count t ts ≤ 1)
      → IsConsistent (del_each a ts)
        × ((u : ℕ) → has_handle (del_each a ts) u ≡ (has_handle a u && not (leb 1 (count u ts))))
  unfolding del_each
  del_each-IsConsistent [] a c live once = (c, λ u. ground arith)
  del_each-IsConsistent (t ∷ ts) a c live once =
      let here = live t (ground arith) in
      let r = del_handle-Removes a t c here in
      let has = has_handle-Removes a (del_handle a t) t r in
      let rest =
        del_each-IsConsistent ts (del_handle a t)
          (Removes-IsConsistent a (del_handle a t) t c here r)
          (λ u h. has u ∙ ground (arith, live u, once u, once t, h)) (λ u. omega (arith, once u)) in
      (
        rest.0,
        λ u.
            rest.1 u
            ∙ ap (λ p. p && not (leb 1 (count u ts))) (has u)
            ∙ listed_step (has_handle a u) t u ts,
      )

  -- On consistent tables, `del_transition(aut, s, d)` of a state `s` leaves exactly the live
  -- transitions that do not go from `s` to `d`.
  pub has_handle-del_between :
      (a : MutableAutomaton L K) (s d u : ℕ)
      → IsConsistent a
      → has_state a s ≡ true
      → has_handle (del_between a s d) u
        ≡ (has_handle a u && not ((src_of a u == s) && (dst_of a u == d)))
  unfolding del_between outin all_out
  has_handle-del_between a s d u c hs =
      let to_d = λ (v : ℕ). dst_of a v == d in
      (del_each-IsConsistent (filter_range to_d (succ_of a s)) a c
          (λ t h. ground (arith, count-filter_range to_d t (succ_of a s), c.succ_count s t hs, h))
          (λ t. ground (arith, count-filter_range to_d t (succ_of a s), c.succ_count s t hs))).1
        u
      ∙ ground (arith, count-filter_range to_d u (succ_of a s), c.succ_count s u hs)
