-- ===== src/Automaton/Delete.antt =====
-- `del_transition` and the loops of `del_state` (vcsn/core/mutable-automaton.hh) remove transitions
-- one by one, and keep the tables consistent.
use vcsn.Base.{
  ℕ, ◌+◌, ◌≤◌, ◌==◌, ◌≡◌, List, true, false, ◌&&◌, if◌then◌else◌, arith, refl, Bool-cases, inl, inr,
  ap, ◌∙◌, ==_iff,
}
use vcsn.Automaton.{MutableAutomaton, succ_of, pred_of, src_of, dst_of, label_of, weight_of}
use vcsn.Automaton.Handles.{ind, count, count-push_back, swap_pop, count-swap_pop}
use vcsn.Automaton.Queries.{has_handle}
use vcsn.Automaton.Edit.{del_transition_from_src, del_transition_from_dst, del_handle}
use vcsn.Automaton.Consistent.{IsConsistent}
use vcsn.Automaton.Remove.{Removes}

pub count-put :
    (f : ℕ → List ℕ) (q s t x : ℕ)
    → 1 ≤ count t (f q)
    → count x (if q == s then swap_pop (f q) t else f s) + ind ((q == s) && (x == t))
      ≡ count x (f s)
count-put f q s t x h = elim (Bool-cases (q == s)) [
  | inl e ↦ rw e (count-swap_pop x t (f q) h ∙ ap (λ z. count x (f z)) ((==_iff q s).0 e))
  | inr e ↦ rw e (omega arith)
]

pub if_same {ℓ} : {A : Type ℓ} (f : ℕ → A) (t u : ℕ) → (if t == u then f t else f u) ≡ f u
if_same f t u = elim (Bool-cases (t == u)) [
  | inl e ↦ rw e (ap f ((==_iff t u).0 e))
  | inr e ↦ rw e refl
]

pub if_not {ℓ} : {A : Type ℓ} (t u : ℕ) (x y : A) → (t == u) ≡ false → (if t == u then x else y) ≡ y
if_not t u x y e = rw e refl

pub if_refl {ℓ} : {A : Type ℓ} (t : ℕ) (x y : A) → (if t == t then x else y) ≡ x
if_refl t x y = rw ((==_iff t t).1 refl) refl

module _ {L K : Type 0} (a : MutableAutomaton L K) (t : ℕ) (c : IsConsistent a)
    (h : has_handle a t ≡ true) where
  pub present_succ : 1 ≤ count t (succ_of a (src_of a t))
  present_succ = ground (arith, c.succ_count (src_of a t) t (c.src_live t h), h)

  pub present_pred : 1 ≤ count t (pred_of a (dst_of a t))
  present_pred = ground (arith, c.pred_count (dst_of a t) t (c.dst_live t h), h)

  pub del_handle-Removes : Removes a t (del_handle a t)
  unfolding del_handle del_transition_from_src del_transition_from_dst
  del_handle-Removes = record {
    same_size = refl;
    same_states = refl;
    same_free = refl;
    src_at = λ u. refl;
    dst_at = λ u. if_same (dst_of a) t u;
    label_at = λ u. if_same (label_of a) t u;
    weight_at = λ u. if_same (weight_of a) t u;
    succ_at = λ s x. count-put (succ_of a) (src_of a t) s t x present_succ;
    pred_at = λ s x. count-put (pred_of a) (dst_of a t) s t x present_pred;
    succ_else = λ s e. if_not (src_of a t) s (swap_pop (succ_of a (src_of a t)) t) (succ_of a s) e;
    free_at = λ x. count-push_back x t a.transitions_fs;
  }
