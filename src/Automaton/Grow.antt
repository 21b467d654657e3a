-- ===== src/Automaton/Grow.antt =====
-- `new_state` (vcsn/core/mutable-automaton.hh): the state that it returns is new and without
-- transitions, the others stay, and the tables are consistent.
use vcsn.Base.{
  ℕ, ◌+◌, ◌≤◌, ◌<◌, ◌==◌, ◌≡◌, ltb, List, [], ◌∷◌, Bool, true, false, not, ◌&&◌, if◌then◌else◌,
  arith, refl, Bool-cases, inl, inr, sym, ap, ◌∙◌, ==_iff, subst,
}
use vcsn.Automaton.{
  MutableAutomaton, StoredState, pre, post, null_state, succ_of, pred_of, src_of, dst_of,
}
use vcsn.Automaton.Handles.{ind, count, back, pop_back, count-pop_back}
use vcsn.Automaton.Queries.{has_state, has_handle}
use vcsn.Automaton.Edit.{append_state, reuse_state, new_state}
use vcsn.Automaton.Consistent.{IsConsistent}
use vcsn.Automaton.Delete.{if_refl, if_not}

-- `a` with another table of states.
abbrev grown :
    {L K : Type 0} → MutableAutomaton L K → (ℕ → StoredState) → ℕ → List ℕ → MutableAutomaton L K
grown a st n fs = record a { states_size = n; states = st; states_fs = fs }

-- `b.0` has the states of `a` and the new state `b.1`.
abbrev pub HasNewState : {L K : Type 0} → MutableAutomaton L K → MutableAutomaton L K × ℕ → Type 0
HasNewState a b =
    IsConsistent b.0
    × (has_state a b.1 ≡ false)
    × ((q : ℕ) → has_state b.0 q ≡ (if b.1 == q then true else has_state a q))
    × ((t : ℕ) → has_handle b.0 t ≡ has_handle a t)
    × (b.0.transitions ≡ a.transitions)

-- The table `st` has the new state `r`.
record Grows {L K : Type 0} (a : MutableAutomaton L K) (r : ℕ) (st : ℕ → StoredState) (n : ℕ)
    (fs : List ℕ) : Type 0 where
  fresh : has_state a r ≡ false
  has_at : (q : ℕ) → has_state (grown a st n fs) q ≡ (if r == q then true else has_state a q)
  succ_at : (q : ℕ) → (st q).succ ≡ (if r == q then [] else succ_of a q)
  pred_new : (t : ℕ) → count t (st r).pred ≡ 0
  pred_else : (q : ℕ) → (r == q) ≡ false → (st q).pred ≡ pred_of a q
  free_at : (q : ℕ) → count q fs ≡ ind (ltb q n && not (if r == q then true else has_state a q))
  size_at : (q : ℕ) → (r == q) ≡ false → q < n → q < a.states_size
  bound : n ≤ null_state

module _ {L K : Type 0} (a : MutableAutomaton L K) (r : ℕ) (st : ℕ → StoredState) (n : ℕ)
    (fs : List ℕ) (c : IsConsistent a) (g : Grows a r st n fs) where
  stays : (q : ℕ) → has_state a q ≡ true → has_state (grown a st n fs) q ≡ true
  stays q h = g.has_at q ∙ ground (arith, h)

  not_fresh : (q : ℕ) → has_state a q ≡ true → (q == r) ≡ false
  not_fresh q h = elim (Bool-cases (q == r)) [
    | inl e ↦ ground (arith, h, ap (has_state a) ((==_iff q r).0 e), g.fresh)
    | inr e ↦ e
  ]

  not_src : (q t : ℕ) → (r == q) ≡ true → (has_handle a t && (src_of a t == q)) ≡ false
  not_src q t e = elim (Bool-cases (has_handle a t)) [
    | inl h ↦ ground (arith, not_fresh (src_of a t) (c.src_live t h))
    | inr h ↦ rw h refl
  ]

  not_dst : (q t : ℕ) → (r == q) ≡ true → (has_handle a t && (dst_of a t == q)) ≡ false
  not_dst q t e = elim (Bool-cases (has_handle a t)) [
    | inl h ↦ ground (arith, not_fresh (dst_of a t) (c.dst_live t h))
    | inr h ↦ rw h refl
  ]

  old_state :
      (q : ℕ) → has_state (grown a st n fs) q ≡ true → (r == q) ≡ false → has_state a q ≡ true
  old_state q h e = sym (g.has_at q ∙ rw e refl) ∙ h

  succ_count-Grows :
      (q t : ℕ)
      → has_state (grown a st n fs) q ≡ true
      → count t (st q).succ ≡ ind (has_handle a t && (src_of a t == q))
  succ_count-Grows q t h = elim (Bool-cases (r == q)) [
    | inl e ↦ rw (g.succ_at q, e, not_src q t e) refl
    | inr e ↦ rw (g.succ_at q, e) (c.succ_count q t (old_state q h e))
  ]

  pred_count-Grows :
      (q t : ℕ)
      → has_state (grown a st n fs) q ≡ true
      → count t (st q).pred ≡ ind (has_handle a t && (dst_of a t == q))
  pred_count-Grows q t h = elim (Bool-cases (r == q)) [
    | inl e ↦
        ap (λ z. count t (st z).pred) (sym ((==_iff r q).0 e))
        ∙ g.pred_new t
        ∙ sym (ap ind (not_dst q t e))
    | inr e ↦ ap (count t) (g.pred_else q e) ∙ c.pred_count q t (old_state q h e)
  ]

  free_pred-Grows :
      (q t : ℕ) → q < n → has_state (grown a st n fs) q ≡ false → count t (st q).pred ≡ 0
  free_pred-Grows q t lt h = elim (Bool-cases (r == q)) [
    | inl e ↦ ap (λ z. count t (st z).pred) (sym ((==_iff r q).0 e)) ∙ g.pred_new t
    | inr e ↦
        ap (count t) (g.pred_else q e)
        ∙ c.free_pred q t (g.size_at q e lt) (sym (g.has_at q ∙ rw e refl) ∙ h)
  ]

  Grows-IsConsistent : IsConsistent (grown a st n fs)
  unfolding has_handle
  Grows-IsConsistent = record {
    succ_count = succ_count-Grows;
    pred_count = pred_count-Grows;
    src_live = λ t h. stays (src_of a t) (c.src_live t h);
    dst_live = λ t h. stays (dst_of a t) (c.dst_live t h);
    free_transitions = c.free_transitions;
    free_states = λ q. g.free_at q ∙ sym (ap (λ p. ind (ltb q n && not p)) (g.has_at q));
    free_pred = free_pred-Grows;
    transitions_bound = c.transitions_bound;
    states_bound = g.bound;
    pre_live = stays pre c.pre_live;
    post_live = stays post c.post_live;
  }

pub taken :
    (has : Bool) (q r m n : ℕ)
    → n + ind (q == r) ≡ ind (ltb q m && not has)
    → n ≡ ind (ltb q m && not (if r == q then true else has))
taken has q r m n h = ground arith

module _ {L K : Type 0} (a : MutableAutomaton L K) (c : IsConsistent a) where
  append-Grows :
      (room : a.states_size < null_state)
      → a.states_fs ≡ []
      → Grows a a.states_size (append_state a).0.states (a.states_size + 1) a.states_fs
  unfolding has_state
  append-Grows room h = record {
    fresh = ground arith;
    has_at = λ q. elim (Bool-cases (a.states_size == q)) [
      | inl e ↦ rw e (ground arith)
      | inr e ↦ rw e (ground arith)
    ];
    succ_at = λ q. refl;
    pred_new = λ t. ap (count t) (if_refl a.states_size [] _);
    pred_else = λ q e. if_not a.states_size q [] (pred_of a q) e;
    free_at = λ q. ground (arith, c.free_states q);
    size_at = λ q e lt. ground arith;
    bound = omega (arith, room);
  }

  module _ (u : ℕ) (us : List ℕ) (h : a.states_fs ≡ u ∷ us) where
    free_count :
        (q : ℕ)
        → count q (pop_back u us) + ind (q == back u us)
          ≡ ind (ltb q a.states_size && not (has_state a q))
    free_count q = count-pop_back q u us ∙ sym (ap (count q) h) ∙ c.free_states q

    free_slot : (back u us < a.states_size) × (has_state a (back u us) ≡ false)
    free_slot = (ground (arith, free_count (back u us)), ground (arith, free_count (back u us)))

    has_state-reuse :
        (q : ℕ)
        → has_state (reuse_state a u us).0 q ≡ (if back u us == q then true else has_state a q)
    unfolding has_state
    has_state-reuse q = elim (Bool-cases (back u us == q)) [
      | inl e ↦ rw e (ground (arith, free_slot.0))
      | inr e ↦ rw e refl
    ]

  reuse-Grows :
      (u : ℕ) (us : List ℕ)
      → a.states_fs ≡ u ∷ us
      → Grows a (back u us) (reuse_state a u us).0.states a.states_size (pop_back u us)
  reuse-Grows u us h = record {
    fresh = (free_slot u us h).1;
    has_at = λ q. has_state-reuse u us h q;
    succ_at = λ q. refl;
    pred_new = λ t. c.free_pred (back u us) t (free_slot u us h).0 (free_slot u us h).1;
    pred_else = λ q e. refl;
    free_at = λ q. taken (has_state a q) q (back u us) a.states_size _ (free_count u us h q);
    size_at = λ q e lt. lt;
    bound = c.states_bound;
  }

  by_free :
      (fs : List ℕ)
      → a.states_fs ≡ fs
      → a.states_size < null_state
      → HasNewState a (elim fs [ [] ↦ append_state a | u ∷ us ↦ reuse_state a u us ])
  unfolding has_handle
  by_free [] h room =
      let g = append-Grows room h in
      (Grows-IsConsistent a _ _ _ _ c g, g.fresh, g.has_at, λ t. refl, refl)
  by_free (u ∷ us) h room =
      let g = reuse-Grows u us h in
      (Grows-IsConsistent a _ _ _ _ c g, g.fresh, g.has_at, λ t. refl, refl)

  new_state-cases :
      (fs : List ℕ) → a.states_fs ≡ fs → a.states_size < null_state → HasNewState a (new_state a)
  unfolding new_state
  new_state-cases fs h room =
      subst (λ us. HasNewState a (elim us [ [] ↦ append_state a | u ∷ us ↦ reuse_state a u us ]))
        (sym h) (by_free fs h room)

  -- On consistent tables with room for a state, `new_state` returns an index that was no state and
  -- is one now, changes neither the other states nor the transitions, and leaves the tables
  -- consistent, in a new slot and in a free one.
  pub new_state-HasNewState : a.states_size < null_state → HasNewState a (new_state a)
  new_state-HasNewState = new_state-cases a.states_fs refl
