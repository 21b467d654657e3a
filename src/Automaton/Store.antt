-- ===== src/Automaton/Store.antt =====
-- The two branches of `new_transition` (vcsn/core/mutable-automaton.hh): a slot at the end of the
-- table, and the last free one.
use vcsn.Base.{
  ℕ, ◌+◌, ◌<◌, ◌==◌, ◌≡◌, ltb, List, [], ◌∷◌, true, false, not, ◌&&◌, if◌then◌else◌, arith, refl,
  sym, ap, ap₂, ◌∙◌, subst, fun_ext,
}
use vcsn.Automaton.{MutableAutomaton, lazy_transition, src_of, dst_of, label_of, weight_of}
use vcsn.Automaton.Handles.{ind, count, back, pop_back, count-pop_back}
use vcsn.Automaton.Queries.{has_state, has_handle}
use vcsn.Automaton.Edit.{
  append_transition, reuse_transition, store_transition, overwrite_transition,
}
use vcsn.Automaton.Consistent.{IsConsistent}
use vcsn.Automaton.Insert.{Stores, inserted-Stores}
use vcsn.Automaton.Grow.{taken}
use vcsn.Automaton.Delete.{if_same}

module _ {L K : Type 0} (a : MutableAutomaton L K) (c : IsConsistent a) (src dst : ℕ) (l : L)
    (w : K) (src_live : has_state a src ≡ true) (dst_live : has_state a dst ≡ true) where
  module _ (u : ℕ) (us : List ℕ) (h : a.transitions_fs ≡ u ∷ us) where
    free_count :
        (x : ℕ)
        → count x (pop_back u us) + ind (x == back u us)
          ≡ ind (ltb x a.transitions_size && not (has_handle a x))
    free_count x = count-pop_back x u us ∙ sym (ap (count x) h) ∙ c.free_transitions x

    free_slot : (back u us < a.transitions_size) × (has_handle a (back u us) ≡ false)
    free_slot = (ground (arith, free_count (back u us)), ground (arith, free_count (back u us)))

    reuse-Stores : Stores a src dst l w (reuse_transition a u us src dst l w)
    reuse-Stores =
        inserted-Stores a c src dst l w src_live dst_live (back u us) a.transitions_size
          (pop_back u us) free_slot.1 (omega arith) free_slot.0 c.transitions_bound (λ x e lt. lt)
          (λ x. taken (has_handle a x) x (back u us) a.transitions_size _ (free_count x))

  unused : has_handle a a.transitions_size ≡ false
  unfolding has_handle
  unused = ground arith

  append-Stores :
      a.transitions_size < lazy_transition → Stores a src dst l w (append_transition a src dst l w)
  append-Stores room =
      inserted-Stores a c src dst l w src_live dst_live a.transitions_size (a.transitions_size + 1)
        a.transitions_fs unused (omega arith) (omega arith) (omega (arith, room))
        (λ x e lt. ground arith) (λ x. ground (arith, c.free_transitions x))

  -- In both branches, the transition is stored in a slot that was not in use.
  by_free :
      (fs : List ℕ)
      → a.transitions_fs ≡ fs
      → a.transitions_size < lazy_transition
      → Stores a src dst l w (elim fs [
        | [] ↦ append_transition a src dst l w
        | u ∷ us ↦ reuse_transition a u us src dst l w
      ])
  by_free [] h room = append-Stores room
  by_free (u ∷ us) h room = reuse-Stores u us h

  pub store_transition-Stores :
      a.transitions_size < lazy_transition → Stores a src dst l w (store_transition a src dst l w)
  unfolding store_transition
  store_transition-Stores = by_free a.transitions_fs refl

-- Another label or weight changes nothing that the tables must agree on.
module _ {L K : Type 0} where
  relabelled :
      (a : MutableAutomaton L K) (t : ℕ) (l : L) (w : K)
      → overwrite_transition a t l w ≡ record a {
        transitions = λ u. record {
          src = src_of a u;
          dst = dst_of a u;
          label = if t == u then l else label_of a u;
          weight = if t == u then w else weight_of a u;
        };
      }
  relabelled a t l w =
      ap (λ f. record a { transitions = f })
        (fun_ext (λ u.
          ap₂
            (λ x y. record {
              src = x;
              dst = y;
              label = if t == u then l else label_of a u;
              weight = if t == u then w else weight_of a u;
            })
            (if_same (src_of a) t u) (if_same (dst_of a) t u)))

  pub overwrite_transition-IsConsistent :
      (a : MutableAutomaton L K) (t : ℕ) (l : L) (w : K)
      → IsConsistent a
      → IsConsistent (overwrite_transition a t l w)
  unfolding has_handle has_state
  overwrite_transition-IsConsistent a t l w c =
      subst IsConsistent (sym (relabelled a t l w)) (record {
        succ_count = c.succ_count;
        pred_count = c.pred_count;
        src_live = c.src_live;
        dst_live = c.dst_live;
        free_transitions = c.free_transitions;
        free_states = c.free_states;
        free_pred = c.free_pred;
        transitions_bound = c.transitions_bound;
        states_bound = c.states_bound;
        pre_live = c.pre_live;
        post_live = c.post_live;
      })
