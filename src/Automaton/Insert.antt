-- ===== src/Automaton/Insert.antt =====
-- `new_transition` (vcsn/core/mutable-automaton.hh) in a slot of the table: the tables stay
-- consistent, in a new slot and in one that was free.
use vcsn.Base.{
  ℕ, ◌+◌, ◌≤◌, ◌<◌, ◌==◌, ◌≡◌, ltb, List, Bool, true, false, not, ◌&&◌, if◌then◌else◌, arith, refl,
  Bool-cases, inl, inr, sym, ap, ◌∙◌, ==_iff,
}
use vcsn.Automaton.{
  MutableAutomaton, pre, post, null_transition, lazy_transition, succ_of, pred_of, src_of, dst_of,
  label_of, weight_of, put_transition,
}
use vcsn.Automaton.Handles.{ind, count, count-push_back, push_back}
use vcsn.Automaton.Queries.{has_state, has_handle}
use vcsn.Automaton.Edit.{attach}
use vcsn.Automaton.Consistent.{
  IsConsistent, has_state_lt, has_state_of_count, count-succ_null, apart,
}

-- `b.0` is `a` with the new transition `b.1`.
pub record Stores {L K : Type 0} (a : MutableAutomaton L K) (src dst : ℕ) (l : L) (w : K)
    (b : MutableAutomaton L K × ℕ) : Type 0 where
  pub is_consistent : IsConsistent b.0
  pub fresh : has_handle a b.1 ≡ false
  pub handle_lt : b.1 < lazy_transition
  pub handle_at : (u : ℕ) → has_handle b.0 u ≡ (if b.1 == u then true else has_handle a u)
  pub src_at : (u : ℕ) → src_of b.0 u ≡ (if b.1 == u then src else src_of a u)
  pub dst_at : (u : ℕ) → dst_of b.0 u ≡ (if b.1 == u then dst else dst_of a u)
  pub label_at : (u : ℕ) → label_of b.0 u ≡ (if b.1 == u then l else label_of a u)
  pub weight_at : (u : ℕ) → weight_of b.0 u ≡ (if b.1 == u then w else weight_of a u)
  pub state_at : (q : ℕ) → has_state b.0 q ≡ has_state a q

-- `a` with the transition in the slot `t`, and with `n` slots of which `fs` are free.
abbrev pub inserted :
    {L K : Type 0} → MutableAutomaton L K → ℕ → ℕ → ℕ → L → K → ℕ → List ℕ → MutableAutomaton L K
inserted a t src dst l w n fs =
    attach (record (put_transition a t src dst l w) { transitions_size = n; transitions_fs = fs })
      src dst t

count-attach :
    (f : ℕ → List ℕ) (q s t x : ℕ)
    → count x (if q == s then push_back (f q) t else f s)
      ≡ count x (f s) + ind ((q == s) && (x == t))
count-attach f q s t x = elim (Bool-cases (q == s)) [
  | inl e ↦
      rw e (count-push_back x t (f q) ∙ ap (λ z. count x (f z) + ind (x == t)) ((==_iff q s).0 e))
  | inr e ↦ rw e (omega arith)
]

bit-stored :
    (live : Bool) (t u s end old n : ℕ)
    → (t == u ≡ true → live ≡ false)
    → n ≡ ind (live && (old == s))
    → n + ind ((end == s) && (u == t))
      ≡ ind ((if t == u then true else live) && ((if t == u then end else old) == s))
bit-stored live t u s end old n h k = elim (Bool-cases (t == u)) [
  | inl e ↦ rw e (ground (arith, h e))
  | inr e ↦ rw e (ground arith)
]

module _ {L K : Type 0} (a : MutableAutomaton L K) (c : IsConsistent a) (src dst : ℕ) (l : L)
    (w : K) (src_live : has_state a src ≡ true) (dst_live : has_state a dst ≡ true) where
  end_live :
      (new old t u : ℕ)
      → has_state a new ≡ true
      → ((t == u) ≡ false → has_state a old ≡ true)
      → has_state a (if t == u then new else old) ≡ true
  end_live new old t u h k = elim (Bool-cases (t == u)) [ inl e ↦ rw e h | inr e ↦ rw e (k e) ]

  module _ (t n : ℕ) (fs : List ℕ) (fresh : has_handle a t ≡ false) (old : a.transitions_size ≤ n)
      (slot : t < n) (room : n ≤ lazy_transition)
      (else_lt : (u : ℕ) → (t == u) ≡ false → u < n → u < a.transitions_size)
      (free_at : (u : ℕ)
        → count u fs ≡ ind (ltb u n && not (if t == u then true else has_handle a u))) where
    handle-inserted :
        (u : ℕ)
        → has_handle (inserted a t src dst l w n fs) u ≡ (if t == u then true else has_handle a u)
    unfolding has_handle
    handle-inserted u = elim (Bool-cases (t == u)) [
      | inl e ↦ rw e (ground (arith, has_state_lt a src src_live, c.states_bound))
      | inr e ↦ rw e (ground (arith, else_lt u e))
    ]

    count-succ-inserted :
        (q x : ℕ)
        → count x (succ_of (inserted a t src dst l w n fs) q)
          ≡ count x (succ_of a q) + ind ((src == q) && (x == t))
    count-succ-inserted q x = count-attach (succ_of a) src q t x

    not_null : (p : Bool) → ind (p && (null_transition == t)) ≡ 0
    not_null p = ground (arith, slot, room)

    state-inserted : (q : ℕ) → has_state (inserted a t src dst l w n fs) q ≡ has_state a q
    unfolding has_state
    state-inserted q = elim (Bool-cases (src == q)) [
      | inl e ↦
          let live = ap (has_state a) (sym ((==_iff src q).0 e)) ∙ src_live in
          has_state_of_count (inserted a t src dst l w n fs) q (has_state_lt a q live) (
            omega (
              arith,
              count-succ-inserted q null_transition,
              count-succ_null a c q live,
              not_null (src == q),
            ))
          ∙ sym live
      | inr e ↦ rw e refl
    ]

    not_live : (u : ℕ) → (t == u) ≡ true → has_handle a u ≡ false
    not_live u e = ap (has_handle a) (sym ((==_iff t u).0 e)) ∙ fresh

    old_live :
        (u : ℕ)
        → (t == u) ≡ false
        → has_handle (inserted a t src dst l w n fs) u ≡ true
        → has_handle a u ≡ true
    old_live u e h = sym (handle-inserted u ∙ rw e refl) ∙ h

    free_pred-inserted :
        (s u : ℕ)
        → s < a.states_size
        → has_state a s ≡ false
        → count u (pred_of (inserted a t src dst l w n fs) s) ≡ 0
    free_pred-inserted s u lt h = omega (
      arith,
      count-attach (pred_of a) dst s t u,
      c.free_pred s u lt h,
      ap (λ p. ind (p && (u == t))) (apart a dst s dst_live h),
    )

    pub inserted-Stores : Stores a src dst l w (inserted a t src dst l w n fs, t)
    inserted-Stores =
        let b = inserted a t src dst l w n fs in
        record {
          is_consistent = record {
            succ_count = λ q u h.
                count-succ-inserted q u
                ∙ rw (handle-inserted u) (
                    bit-stored _ t u q src (src_of a u) _ (not_live u)
                      (c.succ_count q u (sym (state-inserted q) ∙ h)));
            pred_count = λ q u h.
                count-attach (pred_of a) dst q t u
                ∙ rw (handle-inserted u) (
                    bit-stored _ t u q dst (dst_of a u) _ (not_live u)
                      (c.pred_count q u (sym (state-inserted q) ∙ h)));
            src_live = λ u h.
                state-inserted _
                ∙ end_live src (src_of a u) t u src_live (λ e. c.src_live u (old_live u e h));
            dst_live = λ u h.
                state-inserted _
                ∙ end_live dst (dst_of a u) t u dst_live (λ e. c.dst_live u (old_live u e h));
            free_transitions =
                λ u. free_at u ∙ sym (ap (λ p. ind (ltb u n && not p)) (handle-inserted u));
            free_states = λ s.
                c.free_states s
                ∙ sym (ap (λ p. ind (ltb s a.states_size && not p)) (state-inserted s));
            free_pred = λ s u lt h. free_pred-inserted s u lt (sym (state-inserted s) ∙ h);
            transitions_bound = room;
            states_bound = c.states_bound;
            pre_live = state-inserted pre ∙ c.pre_live;
            post_live = state-inserted post ∙ c.post_live;
          };
          fresh = fresh;
          handle_lt = omega (arith, slot, room);
          handle_at = handle-inserted;
          src_at = λ u. refl;
          dst_at = λ u. refl;
          label_at = λ u. refl;
          weight_at = λ u. refl;
          state_at = state-inserted;
        }
