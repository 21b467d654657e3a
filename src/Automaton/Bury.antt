-- ===== src/Automaton/Bury.antt =====
-- `del_state` (vcsn/core/mutable-automaton.hh): which transitions and states are left, and that the
-- tables are consistent.
use vcsn.Base.{
  ℕ, ◌==◌, ◌≡◌, leb, List, [], ◌∷◌, Bool, true, false, not, ◌&&◌, arith, refl, Bool-cases, inl, inr,
  ap, ◌∙◌,
}
use vcsn.Automaton.{
  MutableAutomaton, null_state, succ_of, pred_of, src_of, dst_of, label_of, weight_of,
}
use vcsn.Automaton.Handles.{ind, count}
use vcsn.Automaton.Queries.{has_state, has_handle}
use vcsn.Automaton.Edit.{
  del_transition_from_src, del_transition_from_dst, erase_one, erase_all, del_incoming,
  del_outgoing, del_state,
}
use vcsn.Automaton.Consistent.{IsConsistent}
use vcsn.Automaton.Delete.{if_refl, if_not, if_same}
use vcsn.Automaton.Erase.{del_incoming-IsConsistent}

-- Whether the handle occurs.
abbrev member : ℕ → List ℕ → Bool
member t us = leb 1 (count t us)

member_step :
    (p : Bool) (t u : ℕ) (ts : List ℕ)
    → ((p && not (t == u)) && not (member u ts)) ≡ (p && not (member u (t ∷ ts)))
member_step p t u ts = elim (Bool-cases (t == u)) [ inl e ↦ ground arith | inr e ↦ ground arith ]

module _ {L K : Type 0} where
  -- `b` has the destination, the label and the weight that the transition has in `a`.
  abbrev pub SameData : MutableAutomaton L K → MutableAutomaton L K → ℕ → Type 0
  SameData b a u =
      (dst_of b u ≡ dst_of a u) × (label_of b u ≡ label_of a u) × (weight_of b u ≡ weight_of a u)

  SameData-trans :
      (c b a : MutableAutomaton L K) (u : ℕ) → SameData c b u → SameData b a u → SameData c a u
  SameData-trans c b a u h k = (h.0 ∙ k.0, h.1 ∙ k.1, h.2 ∙ k.2)

  has_handle-erase_one :
      (from_succ : Bool) (b : MutableAutomaton L K) (t u : ℕ)
      → has_handle (erase_one from_succ b t) u ≡ (has_handle b u && not (t == u))
  unfolding has_handle erase_one del_transition_from_src del_transition_from_dst
  has_handle-erase_one true b t u = ground arith
  has_handle-erase_one false b t u = ground arith

  data-erase_one :
      (from_succ : Bool) (b : MutableAutomaton L K) (t u : ℕ)
      → SameData (erase_one from_succ b t) b u
  unfolding erase_one del_transition_from_src del_transition_from_dst
  data-erase_one true b t u =
      (if_same (dst_of b) t u, if_same (label_of b) t u, if_same (weight_of b) t u)
  data-erase_one false b t u =
      (if_same (dst_of b) t u, if_same (label_of b) t u, if_same (weight_of b) t u)

  src_of-erase_one :
      (from_succ : Bool) (b : MutableAutomaton L K) (t u : ℕ)
      → (t == u) ≡ false
      → src_of (erase_one from_succ b t) u ≡ src_of b u
  unfolding erase_one del_transition_from_src del_transition_from_dst
  src_of-erase_one true b t u e = if_not t u null_state (src_of b u) e
  src_of-erase_one false b t u e = if_not t u null_state (src_of b u) e

  has_handle-erase_all :
      (from_succ : Bool) (b : MutableAutomaton L K) (ts : List ℕ) (u : ℕ)
      → has_handle (erase_all from_succ b ts) u ≡ (has_handle b u && not (member u ts))
  unfolding erase_all
  has_handle-erase_all from_succ b [] u = ground arith
  has_handle-erase_all from_succ b (t ∷ ts) u =
      has_handle-erase_all from_succ (erase_one from_succ b t) ts u
      ∙ ap (λ p. p && not (member u ts)) (has_handle-erase_one from_succ b t u)
      ∙ member_step (has_handle b u) t u ts

  data-erase_all :
      (from_succ : Bool) (b : MutableAutomaton L K) (ts : List ℕ) (u : ℕ)
      → SameData (erase_all from_succ b ts) b u
  unfolding erase_all
  data-erase_all from_succ b [] u = (refl, refl, refl)
  data-erase_all from_succ b (t ∷ ts) u =
      SameData-trans (erase_all from_succ (erase_one from_succ b t) ts) (erase_one from_succ b t) b
        u (data-erase_all from_succ (erase_one from_succ b t) ts u) (data-erase_one from_succ b t u)

  -- The source of a transition that is not erased.
  src_of-erase_all :
      (from_succ : Bool) (b : MutableAutomaton L K) (ts : List ℕ) (u : ℕ)
      → member u ts ≡ false
      → src_of (erase_all from_succ b ts) u ≡ src_of b u
  unfolding erase_all
  src_of-erase_all from_succ b [] u h = refl
  src_of-erase_all from_succ b (t ∷ ts) u h =
      src_of-erase_all from_succ (erase_one from_succ b t) ts u (ground arith)
      ∙ src_of-erase_one from_succ b t u (ground arith)

unlisted :
    (p q : Bool) (u : ℕ) (us : List ℕ)
    → count u us ≡ ind (p && q)
    → (p && not (member u us)) ≡ (p && not q)
unlisted p q u us h = ground (arith, h)

and_cong_right :
    (p : Bool) (n m s : ℕ) → (p ≡ true → n ≡ m) → (p && not (n == s)) ≡ (p && not (m == s))
and_cong_right true n m s h = ap (λ x. not (x == s)) (h refl)
and_cong_right false n m s h = refl

module _ {L K : Type 0} (a : MutableAutomaton L K) (s : ℕ) (c : IsConsistent a)
    (live : has_state a s ≡ true) where
  has_handle-del_incoming :
      (u : ℕ) → has_handle (del_incoming a s) u ≡ (has_handle a u && not (dst_of a u == s))
  unfolding del_incoming has_handle
  has_handle-del_incoming u =
      has_handle-erase_all false a (pred_of a s) u
      ∙ unlisted (has_handle a u) (dst_of a u == s) u (pred_of a s) (c.pred_count s u live)

  has_handle-del_outgoing :
      (u : ℕ) → has_handle (del_outgoing a s) u ≡ (has_handle a u && not (src_of a u == s))
  unfolding del_outgoing has_handle
  has_handle-del_outgoing u =
      has_handle-erase_all true a (succ_of a s) u
      ∙ unlisted (has_handle a u) (src_of a u == s) u (succ_of a s) (c.succ_count s u live)

  src_of-del_incoming :
      (u : ℕ) → has_handle (del_incoming a s) u ≡ true → src_of (del_incoming a s) u ≡ src_of a u
  unfolding del_incoming
  src_of-del_incoming u h =
      src_of-erase_all false a (pred_of a s) u
        (ground (has_handle-del_incoming u, c.pred_count s u live, h, arith))

  data-del_incoming : (u : ℕ) → SameData (del_incoming a s) a u
  unfolding del_incoming
  data-del_incoming u = data-erase_all false a (pred_of a s) u

  data-del_outgoing : (u : ℕ) → SameData (del_outgoing a s) a u
  unfolding del_outgoing
  data-del_outgoing u = data-erase_all true a (succ_of a s) u

  src_of-del_outgoing :
      (u : ℕ) → has_handle (del_outgoing a s) u ≡ true → src_of (del_outgoing a s) u ≡ src_of a u
  unfolding del_outgoing
  src_of-del_outgoing u h =
      src_of-erase_all true a (succ_of a s) u
        (ground (has_handle-del_outgoing u, c.succ_count s u live, h, arith))

module _ {L K : Type 0} where
  -- On consistent tables, the transitions that are live after the removal of a state are those
  -- that were live and neither entered nor left that state.
  pub has_handle-del_state :
      (a : MutableAutomaton L K) (s : ℕ)
      → IsConsistent a
      → has_state a s ≡ true
      → (u : ℕ)
      → has_handle (del_state a s) u
        ≡ ((has_handle a u && not (dst_of a u == s)) && not (src_of a u == s))
  unfolding del_state has_handle
  has_handle-del_state a s c live u =
      let mid = del_incoming-IsConsistent a s c live in
      has_handle-del_outgoing (del_incoming a s) s mid.0 (mid.1 s ∙ live) u
      ∙ and_cong_right (has_handle (del_incoming a s) u) _ (src_of a u) s
          (src_of-del_incoming a s c live u)
      ∙ ap (λ p. p && not (src_of a u == s)) (has_handle-del_incoming a s c live u)

  pub succ_of-del_outgoing : (a : MutableAutomaton L K) (s : ℕ) → succ_of (del_outgoing a s) s ≡ []
  unfolding del_outgoing
  succ_of-del_outgoing a s = if_refl s [] _

  -- Once `del_state` is through its loops, no transition touches the state.
  pub detached :
      (a : MutableAutomaton L K) (s : ℕ)
      → IsConsistent a
      → has_state a s ≡ true
      → (u : ℕ)
      → (has_handle (del_outgoing (del_incoming a s) s) u
          && (dst_of (del_outgoing (del_incoming a s) s) u == s))
        ≡ false
  detached a s c live u =
      let mid = del_incoming-IsConsistent a s c live in
      rw
        (
          has_handle-del_outgoing (del_incoming a s) s mid.0 (mid.1 s ∙ live) u,
          has_handle-del_incoming a s c live u,
          (data-del_outgoing (del_incoming a s) s mid.0 (mid.1 s ∙ live) u).0,
          (data-del_incoming a s c live u).0,
        )
        (ground arith)

  -- The transitions that are left are as they were.
  pub kept-del_state :
      (a : MutableAutomaton L K) (s : ℕ)
      → IsConsistent a
      → has_state a s ≡ true
      → (u : ℕ) → has_handle (del_state a s) u ≡ true
      → (src_of (del_state a s) u ≡ src_of a u) × SameData (del_state a s) a u
  unfolding del_state has_handle
  kept-del_state a s c live u h =
      let mid = del_incoming-IsConsistent a s c live in
      let b = del_incoming a s in
      let here = mid.1 s ∙ live in
      (
        src_of-del_outgoing b s mid.0 here u h
            ∙ src_of-del_incoming a s c live u
                (ground (arith, has_handle-del_outgoing b s mid.0 here u, h)),
        SameData-trans (del_outgoing b s) b a u (data-del_outgoing b s mid.0 here u)
            (data-del_incoming a s c live u),
      )
