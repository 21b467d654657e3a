-- ===== src/Automaton/Remove.antt =====
-- The removal of one transition (vcsn/core/mutable-automaton.hh): what `del_transition` and the
-- loops of `del_state` change in the tables, and that they stay consistent.
use vcsn.Base.{
  ℕ, ◌+◌, ◌<◌, ◌==◌, ◌≡◌, ltb, leb, Bool, true, false, not, ◌&&◌, if◌then◌else◌, arith, refl,
  Bool-cases, inl, inr, sym, ap, ap₂, ◌∙◌, ==_iff, subst,
}
use vcsn.Automaton.{
  MutableAutomaton, pre, post, null_state, null_transition, succ_of, pred_of, src_of, dst_of,
  label_of, weight_of,
}
use vcsn.Automaton.Handles.{ind, count}
use vcsn.Automaton.Queries.{starts_with, has_state, has_handle}
use vcsn.Automaton.Consistent.{
  IsConsistent, has_handle_lt, has_state_lt, has_state_of_count, count-succ_null,
}

-- `b` is `a` without the transition `t`.
pub record Removes {L K : Type 0} (a : MutableAutomaton L K) (t : ℕ) (b : MutableAutomaton L K)
    : Type 0 where
  pub same_size : b.transitions_size ≡ a.transitions_size
  pub same_states : b.states_size ≡ a.states_size
  pub same_free : b.states_fs ≡ a.states_fs
  pub src_at : (u : ℕ) → src_of b u ≡ (if t == u then null_state else src_of a u)
  pub dst_at : (u : ℕ) → dst_of b u ≡ dst_of a u
  pub label_at : (u : ℕ) → label_of b u ≡ label_of a u
  pub weight_at : (u : ℕ) → weight_of b u ≡ weight_of a u
  pub succ_at :
      (s x : ℕ)
      → count x (succ_of b s) + ind ((src_of a t == s) && (x == t)) ≡ count x (succ_of a s)
  pub pred_at :
      (s x : ℕ)
      → count x (pred_of b s) + ind ((dst_of a t == s) && (x == t)) ≡ count x (pred_of a s)
  pub succ_else : (s : ℕ) → (src_of a t == s) ≡ false → succ_of b s ≡ succ_of a s
  pub free_at : (x : ℕ) → count x b.transitions_fs ≡ count x a.transitions_fs + ind (x == t)

bit-removed :
    (live : ℕ → Bool) (end : ℕ → ℕ) (t u s n : ℕ)
    → live t ≡ true
    → n + ind ((end t == s) && (u == t)) ≡ ind (live u && (end u == s))
    → n ≡ ind ((live u && not (t == u)) && (end u == s))
bit-removed live end t u s n h k = elim (Bool-cases (t == u)) [
  | inl e ↦ let same = (==_iff t u).0 e in ground (arith, ap live same, ap end same)
  | inr e ↦ ground arith
]

bit-null :
    (live : Bool) (t u s n : ℕ)
    → ind ((live && not (t == u)) && ((if t == u then null_state else n) == s))
      ≡ ind ((live && not (t == u)) && (n == s))
bit-null live t u s n = elim (Bool-cases (t == u)) [ inl e ↦ ground arith | inr e ↦ rw e refl ]

pub bit-freed :
    (live : ℕ → Bool) (t u m n : ℕ)
    → live t ≡ true
    → t < m
    → n ≡ ind (ltb u m && not (live u))
    → n + ind (u == t) ≡ ind (ltb u m && not (live u && not (t == u)))
bit-freed live t u m n h lt k = elim (Bool-cases (t == u)) [
  | inl e ↦ let same = (==_iff t u).0 e in ground (arith, ap live same)
  | inr e ↦ ground arith
]

and_left : (p q : Bool) → (p && not q) ≡ true → p ≡ true
and_left p q h = ground arith

and_right : (p q : Bool) → (p && not q) ≡ true → q ≡ false
and_right p q h = ground arith

module _ {L K : Type 0} where
  pub has_handle-Removes :
      (a b : MutableAutomaton L K) (t : ℕ)
      → Removes a t b
      → (u : ℕ) → has_handle b u ≡ (has_handle a u && not (t == u))
  unfolding has_handle
  has_handle-Removes a b t r u = rw (r.same_size, r.src_at u) (ground arith)

  pub has_state-Removes :
      (a b : MutableAutomaton L K) (t : ℕ)
      → IsConsistent a
      → has_handle a t ≡ true
      → Removes a t b
      → (s : ℕ) → has_state b s ≡ has_state a s
  unfolding has_state
  has_state-Removes a b t c h r s = elim (Bool-cases (src_of a t == s)) [
    | inl e ↦
        let live =
          subst (λ q. has_state a q ≡ true) ((==_iff (src_of a t) s).0 e) (c.src_live t h) in
        has_state_of_count b s (omega (arith, r.same_states, has_state_lt a s live))
          (omega (arith, r.succ_at s null_transition, count-succ_null a c s live))
        ∙ sym live
    | inr e ↦
        ap (λ us. if leb b.states_size s then false else not (starts_with us null_transition))
          (r.succ_else s e)
        ∙ rw r.same_states refl
  ]

  -- The facts about `b`, one for each that `IsConsistent` asks for.
  module _ (a b : MutableAutomaton L K) (t : ℕ) (c : IsConsistent a) (h : has_handle a t ≡ true)
      (r : Removes a t b) where
    succ-Removes :
        (s u : ℕ)
        → has_state a s ≡ true
        → count u (succ_of b s) ≡ ind (has_handle b u && (src_of b u == s))
    succ-Removes s u k =
        rw (has_handle-Removes a b t r u, r.src_at u)
          (bit-removed (has_handle a) (src_of a) t u s _ h (r.succ_at s u ∙ c.succ_count s u k)
            ∙ sym (bit-null (has_handle a u) t u s (src_of a u)))

    pred-Removes :
        (s u : ℕ)
        → has_state a s ≡ true
        → count u (pred_of b s) ≡ ind (has_handle b u && (dst_of b u == s))
    pred-Removes s u k =
        rw (has_handle-Removes a b t r u, r.dst_at u)
          (bit-removed (has_handle a) (dst_of a) t u s _ h (r.pred_at s u ∙ c.pred_count s u k))

    still_live : (u : ℕ) → has_handle b u ≡ true → has_handle a u && not (t == u) ≡ true
    still_live u k = sym (has_handle-Removes a b t r u) ∙ k

    src_live-Removes : (u : ℕ) → has_handle b u ≡ true → has_state a (src_of b u) ≡ true
    src_live-Removes u k =
        subst (λ q. has_state a q ≡ true)
          (sym (r.src_at u ∙ rw (and_right (has_handle a u) (t == u) (still_live u k)) refl))
          (c.src_live u (and_left _ _ (still_live u k)))

    free-Removes :
        (u : ℕ) → count u b.transitions_fs ≡ ind (ltb u b.transitions_size && not (has_handle b u))
    free-Removes u =
        rw (has_handle-Removes a b t r u, r.free_at u, r.same_size)
          (bit-freed (has_handle a) t u a.transitions_size _ h (has_handle_lt a t h)
            (c.free_transitions u))

    pub Removes-IsConsistent : IsConsistent b
    Removes-IsConsistent = record {
      succ_count = λ s u k. succ-Removes s u (sym (has_state-Removes a b t c h r s) ∙ k);
      pred_count = λ s u k. pred-Removes s u (sym (has_state-Removes a b t c h r s) ∙ k);
      src_live = λ u k. has_state-Removes a b t c h r (src_of b u) ∙ src_live-Removes u k;
      dst_live = λ u k.
          has_state-Removes a b t c h r (dst_of b u)
          ∙ ap (has_state a) (r.dst_at u)
          ∙ c.dst_live u (and_left _ _ (still_live u k));
      free_transitions = free-Removes;
      free_states = λ s.
          ap (count s) r.same_free
          ∙ c.free_states s
          ∙ sym
              (ap₂ (λ n l. ind (ltb s n && not l)) r.same_states (has_state-Removes a b t c h r s));
      free_pred = λ s u lt k. omega (
        arith,
        r.pred_at s u,
        c.free_pred s u (omega (arith, r.same_states)) (sym (has_state-Removes a b t c h r s) ∙ k),
      );
      transitions_bound = omega (arith, r.same_size, c.transitions_bound);
      states_bound = omega (arith, r.same_states, c.states_bound);
      pre_live = has_state-Removes a b t c h r pre ∙ c.pre_live;
      post_live = has_state-Removes a b t c h r post ∙ c.post_live;
    }
