-- ===== src/Automaton/States.antt =====
-- `new_state` and `del_state` (vcsn/core/mutable-automaton.hh) on the table of the states, and that
-- they keep the tables consistent.
use vcsn.Base.{
  ℕ, ◌<◌, ◌==◌, ◌≡◌, [], true, false, not, ◌&&◌, arith, Bool-cases, inl, inr, sym, ap, ◌∙◌, ==_iff,
  subst,
}
use vcsn.Automaton.{MutableAutomaton, pre, post, succ_of, pred_of, src_of, dst_of}
use vcsn.Automaton.Handles.{ind, count, count-push_back}
use vcsn.Automaton.Queries.{has_state, has_handle}
use vcsn.Automaton.Edit.{del_incoming, del_outgoing, bury, del_state}
use vcsn.Automaton.Consistent.{IsConsistent, has_state_lt}
use vcsn.Automaton.Remove.{bit-freed}
use vcsn.Automaton.Delete.{if_not}
use vcsn.Automaton.Erase.{del_incoming-IsConsistent, del_outgoing-IsConsistent}
use vcsn.Automaton.Bury.{detached, succ_of-del_outgoing}

module _ {L K : Type 0} where
  has_state-bury :
      (a : MutableAutomaton L K) (s : ℕ)
      → succ_of a s ≡ []
      → (q : ℕ) → has_state (bury a s) q ≡ (has_state a q && not (s == q))
  unfolding has_state
  has_state-bury a s h q = elim (Bool-cases (s == q)) [
    | inl e ↦ rw (e, h) (ground arith)
    | inr e ↦ rw e (ground arith)
  ]

  module _ (a : MutableAutomaton L K) (s : ℕ) (c : IsConsistent a) (above : post < s)
      (live : has_state a s ≡ true) (none : succ_of a s ≡ [])
      (detached : (u : ℕ) → (has_handle a u && (dst_of a u == s)) ≡ false) where
    still_state : (q : ℕ) → has_state (bury a s) q ≡ true → (has_state a q && not (s == q)) ≡ true
    still_state q h = sym (has_state-bury a s none q) ∙ h

    free_pred-bury :
        (q t : ℕ) → q < a.states_size → has_state (bury a s) q ≡ false → count t (pred_of a q) ≡ 0
    free_pred-bury q t lt h = elim (Bool-cases (s == q)) [
      | inl e ↦
          subst (λ z. count t (pred_of a z) ≡ 0) ((==_iff s q).0 e)
            (c.pred_count s t live ∙ ap ind (detached t))
      | inr e ↦ c.free_pred q t lt (ground (arith, has_state-bury a s none q, h))
    ]

    live-bury : (q : ℕ) → has_state a q ≡ true → (q == s) ≡ false → has_state (bury a s) q ≡ true
    live-bury q h k = has_state-bury a s none q ∙ ground (arith, h, k)

    not_from : (t : ℕ) → has_handle a t ≡ true → (src_of a t == s) ≡ false
    not_from t h = ground (arith, c.succ_count s t live, ap (count t) none, h)

    not_to : (t : ℕ) → has_handle a t ≡ true → (dst_of a t == s) ≡ false
    not_to t h = ground (arith, detached t, h)

    pub bury-IsConsistent : IsConsistent (bury a s)
    unfolding has_handle
    bury-IsConsistent = record {
      succ_count = λ q t h.
          ap (count t) (if_not s q _ (succ_of a q) (ground (arith, still_state q h)))
          ∙ c.succ_count q t (ground (arith, still_state q h));
      pred_count = λ q t h. c.pred_count q t (ground (arith, still_state q h));
      src_live = λ t h. live-bury (src_of a t) (c.src_live t h) (not_from t h);
      dst_live = λ t h. live-bury (dst_of a t) (c.dst_live t h) (not_to t h);
      free_transitions = c.free_transitions;
      free_states = λ q. rw (has_state-bury a s none q) (
          count-push_back q s a.states_fs
          ∙ bit-freed (has_state a) s q a.states_size _ live (has_state_lt a s live)
              (c.free_states q));
      free_pred = free_pred-bury;
      transitions_bound = c.transitions_bound;
      states_bound = c.states_bound;
      pre_live = live-bury pre c.pre_live (ground arith);
      post_live = live-bury post c.post_live (ground arith);
    }

  -- On consistent tables, the removal of a state removes that state and no other.
  pub has_state-del_state :
      (a : MutableAutomaton L K) (s : ℕ)
      → IsConsistent a
      → has_state a s ≡ true
      → (q : ℕ) → has_state (del_state a s) q ≡ (has_state a q && not (s == q))
  unfolding del_state
  has_state-del_state a s c live q =
      let mid = del_incoming-IsConsistent a s c live in
      let end = del_outgoing-IsConsistent (del_incoming a s) s mid.0 (mid.1 s ∙ live) in
      has_state-bury (del_outgoing (del_incoming a s) s) s
        (succ_of-del_outgoing (del_incoming a s) s) q
      ∙ ap (λ p. p && not (s == q)) (end.1 q ∙ mid.1 q)

  pub del_state-IsConsistent :
      (a : MutableAutomaton L K) (s : ℕ)
      → IsConsistent a
      → post < s
      → has_state a s ≡ true
      → IsConsistent (del_state a s)
  unfolding del_state
  del_state-IsConsistent a s c above live =
      let mid = del_incoming-IsConsistent a s c live in
      let end = del_outgoing-IsConsistent (del_incoming a s) s mid.0 (mid.1 s ∙ live) in
      bury-IsConsistent (del_outgoing (del_incoming a s) s) s end.0 above (end.1 s ∙ mid.1 s ∙ live)
        (succ_of-del_outgoing (del_incoming a s) s) (detached a s c live)
