-- ===== src/Automaton/Reach.antt =====
-- The life of an automaton: the constructor of vcsn/core/mutable-automaton.hh, then any sequence of
-- its editions, each where its assertions hold and the tables have room.
use vcsn.Base.{subst, Bool, false, not, ℕ, ◌<◌, ◌≡◌, [], true, Eq, arith, refl, sym, ap, ap₂, ◌∙◌}
use vcsn.Weight.{Weightset, IsSemiring}
use vcsn.Automaton.{MutableAutomaton, post, null_state, lazy_transition, src_of, dst_of, label_of}
use vcsn.Automaton.Queries.{has_state, has_handle, has_transition}
use vcsn.Automaton.Edit.{
  new_state, del_state, new_transition, del_handle, set_weight, set_transition, add_transition,
  del_transition,
}
use vcsn.Automaton.Consistent.{IsConsistent}
use vcsn.Automaton.Lookup.{same_key, holds}
use vcsn.Automaton.Weights.{IsWellFormed, live_of, key_of}
use vcsn.Automaton.Bury.{SameData, has_handle-del_state, kept-del_state}
use vcsn.Automaton.States.{del_state-IsConsistent}
use vcsn.Automaton.Grow.{new_state-HasNewState}
use vcsn.Automaton.Refine.{
  del_handle-Updates, set_transition-Updates, add_transition-Updates, del_transition-Updates,
  set_weight-Updates,
}

module _ {L K : Type 0} ⦃ws : Weightset K⦄ where
  -- The constructor, from the label of the initial and final transitions, `labelset()->special()`.
  unfoldable pub make_automaton : L → MutableAutomaton L K
  make_automaton special = record {
    states_size = 2;
    states = λ s. record { succ = []; pred = [] };
    states_fs = [];
    transitions_size = 0;
    transitions =
        λ t. record { src = null_state; dst = null_state; label = special; weight = ws.zero };
    transitions_fs = [];
    prepost_label = special;
  }

module _ {L K : Type 0} ⦃e : Eq L⦄ ⦃ws : Weightset K⦄ where
  -- One edition that an automaton `a` goes through. Those of the initial and final weights are those
  -- of transitions; `set_lazy` and `set_lazy_in` are not among them, since a lazy state lists a
  -- transition that is none.
  pub data Step (a : MutableAutomaton L K) : MutableAutomaton L K → Type 0 where
    step_new_state : a.states_size < null_state → Step a (new_state a).0
    step_del_state : (s : ℕ) → has_state a s ≡ true → post < s → Step a (del_state a s)
    step_set_transition :
        (src dst : ℕ) (l : L) (w : K)
        → has_state a src ≡ true
        → has_state a dst ≡ true
        → a.transitions_size < lazy_transition
        → Step a (set_transition a src dst l w).0
    step_add_transition :
        (src dst : ℕ) (l : L) (w : K)
        → has_state a src ≡ true
        → has_state a dst ≡ true
        → a.transitions_size < lazy_transition
        → Step a (add_transition a src dst l w).0
    step_del_transition :
        (src dst : ℕ) (l : L)
        → has_state a src ≡ true
        → has_state a dst ≡ true
        → Step a (del_transition a src dst l)
    step_new_transition :
        (src dst : ℕ) (l : L) (w : K)
        → has_state a src ≡ true
        → has_state a dst ≡ true
        → has_transition a src dst l ≡ false
        → a.transitions_size < lazy_transition
        → Step a (new_transition a src dst l w).0
    step_del_handle : (t : ℕ) → has_handle a t ≡ true → Step a (del_handle a t)
    step_set_weight : (t : ℕ) (w : K) → has_handle a t ≡ true → Step a (set_weight a t w).0

  pub data Reachable (special : L) : MutableAutomaton L K → Type 0 where
    start : Reachable special (make_automaton special)
    next : (a b : MutableAutomaton L K) → Reachable special a → Step a b → Reachable special b

  make_automaton-IsWellFormed : (special : L) → IsWellFormed (make_automaton ⦃ws = ws⦄ special)
  unfolding make_automaton has_handle has_state
  make_automaton-IsWellFormed special = record {
    is_consistent = record {
      succ_count = λ s t h. ground arith;
      pred_count = λ s t h. ground arith;
      src_live = λ t h. ground arith;
      dst_live = λ t h. ground arith;
      free_transitions = λ t. ground arith;
      free_states = λ s. ground arith;
      free_pred = λ s t lt h. refl;
      transitions_bound = omega arith;
      states_bound = omega arith;
      pre_live = refl;
      post_live = refl;
    };
    unique = λ s d k t u h i. ground arith;
    nonzero = λ t h. ground arith;
  }

  was :
      (a b : MutableAutomaton L K) (u s d : ℕ) (k : L)
      → (has_handle b u ≡ true → has_handle a u ≡ true)
      → (has_handle b u ≡ true → src_of b u ≡ src_of a u)
      → (has_handle b u ≡ true → SameData b a u)
      → holds b u s d k ≡ true
      → holds a u s d k ≡ true
  was a b u s d k live from same h =
      let here = live_of _ _ h in
      let key =
        ap₂ (λ x y. same_key x y (label_of b u) s d k) (from here) (same here).0
        ∙ ap (λ z. same_key (src_of a u) (dst_of a u) z s d k) (same here).1 in
      rw (live here) (sym key ∙ key_of _ _ h)

  -- Fewer transitions, or other states, with the transitions as they were.
  restrict-IsWellFormed :
      (a b : MutableAutomaton L K)
      → IsWellFormed a
      → IsConsistent b
      → ((u : ℕ) → has_handle b u ≡ true → has_handle a u ≡ true)
      → ((u : ℕ) → has_handle b u ≡ true → src_of b u ≡ src_of a u)
      → ((u : ℕ) → has_handle b u ≡ true → SameData b a u)
      → IsWellFormed b
  restrict-IsWellFormed a b f c live from same = record {
    is_consistent = c;
    unique = λ s d k t u h i.
        f.unique s d k t u (was a b t s d k (live t) (from t) (same t) h)
          (was a b u s d k (live u) (from u) (same u) i);
    nonzero = λ u h. ap ws.is_zero (same u h).2 ∙ f.nonzero u (live u h);
  }

  -- Where there is no such transition, `set_transition` is `new_transition`.
  set_transition-new :
      (a : MutableAutomaton L K) (src dst : ℕ) (l : L) (w : K)
      → has_transition a src dst l ≡ false
      → (set_transition a src dst l w).0 ≡ (new_transition a src dst l w).0
  unfolding set_transition has_transition
  set_transition-new a src dst l w h = rw (missing _ h)
    where
      missing : (b : Bool) → not b ≡ false → b ≡ true
      missing true h = refl
      missing false h = cc

  Step-IsWellFormed :
      (a b : MutableAutomaton L K) → IsSemiring ws → IsWellFormed a → Step a b → IsWellFormed b
  Step-IsWellFormed a b sr f (step_new_state room) =
      let new = new_state-HasNewState a f.is_consistent room in
      restrict-IsWellFormed a (new_state a).0 f new.0 (λ u h. sym (new.3 u) ∙ h)
        (λ u h. ap (λ g. (g u).src) new.4)
        (λ u h.
          (ap (λ g. (g u).dst) new.4, ap (λ g. (g u).label) new.4, ap (λ g. (g u).weight) new.4))
  Step-IsWellFormed a b sr f (step_del_state s live above) =
      restrict-IsWellFormed a (del_state a s) f
        (del_state-IsConsistent a s f.is_consistent above live)
        (λ u h. ground (arith, has_handle-del_state a s f.is_consistent live u, h))
        (λ u h. (kept-del_state a s f.is_consistent live u h).0)
        (λ u h. (kept-del_state a s f.is_consistent live u h).1)
  Step-IsWellFormed a b sr f (step_set_transition src dst l w hs hd room) =
      (set_transition-Updates a f src dst l hs hd sr w room).is_well_formed
  Step-IsWellFormed a b sr f (step_add_transition src dst l w hs hd room) =
      (add_transition-Updates a f src dst l hs hd sr w room).is_well_formed
  Step-IsWellFormed a b sr f (step_del_transition src dst l hs hd) =
      (del_transition-Updates a f src dst l hs hd).is_well_formed
  Step-IsWellFormed a b sr f (step_new_transition src dst l w hs hd new room) =
      subst IsWellFormed (set_transition-new a src dst l w new)
        (set_transition-Updates a f src dst l hs hd sr w room).is_well_formed
  Step-IsWellFormed a b sr f (step_del_handle t live) =
      (del_handle-Updates a f t live).is_well_formed
  Step-IsWellFormed a b sr f (step_set_weight t w live) =
      (set_weight-Updates a f sr t w live).is_well_formed

  -- Over any semiring of weights, every automaton that the constructor and a sequence of
  -- `new_state`, `del_state`, `new_transition`, `set_transition`, `add_transition`, `set_weight`
  -- and of the removals of a transition, by its handle or by its ends and label, build is well
  -- formed: each state lists each of its live transitions once and no other, the free stores hold
  -- each free slot once, no two transitions have the same ends and label, and no weight is zero.
  -- Each edition is made where its assertions hold and the table it extends has room; marking
  -- states as lazy is none of them.
  pub Reachable-IsWellFormed :
      (special : L) (a : MutableAutomaton L K)
      → IsSemiring ws
      → Reachable special a
      → IsWellFormed a
  Reachable-IsWellFormed special a sr start = make_automaton-IsWellFormed special
  Reachable-IsWellFormed special b sr (next a c r step) =
      Step-IsWellFormed a b sr (Reachable-IsWellFormed special a sr r) step
