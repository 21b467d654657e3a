-- ===== src/Automaton/Erase.antt =====
-- The two loops of `del_state` (vcsn/core/mutable-automaton.hh): after each turn, the tables are
-- consistent once the handles that are left stand in the vector that is being emptied, and those
-- that are done in the free store.
use vcsn.Base.{
  ℕ, ◌+◌, ◌≤◌, ◌==◌, ◌≡◌, List, [], ◌∷◌, ◌++◌, Bool, true, false, ◌&&◌, if◌then◌else◌, arith, refl,
  Bool-cases, inl, inr, sym, ap, ap₂, ◌∙◌, ==_iff, subst, fun_ext, append-nil, append_assoc,
}
use vcsn.Automaton.{
  MutableAutomaton, succ_of, pred_of, src_of, dst_of, label_of, weight_of, put_succ, put_pred,
}
use vcsn.Automaton.Handles.{ind, count, count-append}
use vcsn.Automaton.Queries.{has_state, has_handle}
use vcsn.Automaton.Edit.{
  del_transition_from_src, del_transition_from_dst, erase_one, erase_all, free_transitions,
  del_incoming, del_outgoing,
}
use vcsn.Automaton.Consistent.{IsConsistent}
use vcsn.Automaton.Remove.{Removes, has_state-Removes, Removes-IsConsistent}
use vcsn.Automaton.Delete.{count-put, if_same, if_not, if_refl, present_succ, present_pred}

and_eq : (p q : Bool) (n : ℕ) → 1 ≤ n → n ≡ ind (p && q) → (p ≡ true) × (q ≡ true)
and_eq p q n h k = (ground (arith, h, k), ground (arith, h, k))

count-head : (t : ℕ) (ts : List ℕ) → 1 ≤ count t (t ∷ ts)
count-head t ts = ground arith

count-popped :
    (f : ℕ → List ℕ) (q s : ℕ) (t x : ℕ) (ts : List ℕ)
    → count x (if q == s then ts else f s) + ind ((q == s) && (x == t))
      ≡ count x (if q == s then t ∷ ts else f s)
count-popped f q s t x ts = elim (Bool-cases (q == s)) [
  | inl e ↦ rw e (omega arith)
  | inr e ↦ rw e (omega arith)
]

count-done :
    (x t : ℕ) (us ds : List ℕ)
    → count x (us ++ (ds ++ (t ∷ []))) ≡ count x (us ++ ds) + ind (x == t)
count-done x t us ds =
    omega
      (arith, count-append x us (ds ++ (t ∷ [])), count-append x ds (t ∷ []), count-append x us ds)

module _ {L K : Type 0} where
  -- `b`, with `ts` left in the incoming transitions of `s` and `ds` done.
  abbrev in_progress : MutableAutomaton L K → ℕ → List ℕ → List ℕ → MutableAutomaton L K
  in_progress b s ts ds = put_pred (free_transitions b ds) s ts

  abbrev out_progress : MutableAutomaton L K → ℕ → List ℕ → List ℕ → MutableAutomaton L K
  out_progress b s ts ds = put_succ (free_transitions b ds) s ts

  in_start : (a : MutableAutomaton L K) (s : ℕ) → in_progress a s (pred_of a s) [] ≡ a
  in_start a s =
      ap₂ (λ f g. record a { states = f; transitions_fs = g })
        (fun_ext
          (λ q. ap (λ us. record { succ = succ_of a q; pred = us }) (if_same (pred_of a) s q)))
        (append-nil a.transitions_fs)

  out_start : (a : MutableAutomaton L K) (s : ℕ) → out_progress a s (succ_of a s) [] ≡ a
  out_start a s =
      ap₂ (λ f g. record a { states = f; transitions_fs = g })
        (fun_ext
          (λ q. ap (λ us. record { succ = us; pred = pred_of a q }) (if_same (succ_of a) s q)))
        (append-nil a.transitions_fs)

  module _ (b : MutableAutomaton L K) (s t : ℕ) (ts ds : List ℕ)
      (c : IsConsistent (in_progress b s (t ∷ ts) ds))
      (live : has_state (in_progress b s (t ∷ ts) ds) s ≡ true) where
    in_ends : (has_handle (in_progress b s (t ∷ ts) ds) t ≡ true) × ((dst_of b t == s) ≡ true)
    in_ends =
        and_eq _ (dst_of b t == s) (count t (t ∷ ts)) (count-head t ts)
          (sym (ap (count t) (if_refl s (t ∷ ts) (pred_of b s))) ∙ c.pred_count s t live)

    in_step :
        Removes
          (in_progress b s (t ∷ ts) ds)
          t
          (in_progress (erase_one false b t) s ts (ds ++ (t ∷ [])))
    unfolding erase_one del_transition_from_src
    in_step = record {
      same_size = refl;
      same_states = refl;
      same_free = refl;
      src_at = λ u. refl;
      dst_at = λ u. if_same (dst_of b) t u;
      label_at = λ u. if_same (label_of b) t u;
      weight_at = λ u. if_same (weight_of b) t u;
      succ_at = λ q x. count-put (succ_of b) (src_of b t) q t x (present_succ _ t c in_ends.0);
      pred_at =
          λ q x. rw ((==_iff (dst_of b t) s).0 in_ends.1) (count-popped (pred_of b) s q t x ts);
      succ_else = λ q e. if_not (src_of b t) q _ (succ_of b q) e;
      free_at = λ x. count-done x t b.transitions_fs ds;
    }

  module _ (b : MutableAutomaton L K) (s t : ℕ) (ts ds : List ℕ)
      (c : IsConsistent (out_progress b s (t ∷ ts) ds))
      (live : has_state (out_progress b s (t ∷ ts) ds) s ≡ true) where
    out_ends : (has_handle (out_progress b s (t ∷ ts) ds) t ≡ true) × ((src_of b t == s) ≡ true)
    out_ends =
        and_eq _ (src_of b t == s) (count t (t ∷ ts)) (count-head t ts)
          (sym (ap (count t) (if_refl s (t ∷ ts) (succ_of b s))) ∙ c.succ_count s t live)

    out_step :
        Removes
          (out_progress b s (t ∷ ts) ds)
          t
          (out_progress (erase_one true b t) s ts (ds ++ (t ∷ [])))
    unfolding erase_one del_transition_from_dst
    out_step = record {
      same_size = refl;
      same_states = refl;
      same_free = refl;
      src_at = λ u. refl;
      dst_at = λ u. if_same (dst_of b) t u;
      label_at = λ u. if_same (label_of b) t u;
      weight_at = λ u. if_same (weight_of b) t u;
      succ_at =
          λ q x. rw ((==_iff (src_of b t) s).0 out_ends.1) (count-popped (succ_of b) s q t x ts);
      pred_at = λ q x. count-put (pred_of b) (dst_of b t) q t x (present_pred _ t c out_ends.0);
      succ_else = λ q e.
          let other = sym (ap (λ z. z == q) ((==_iff (src_of b t) s).0 out_ends.1)) ∙ e in
          if_not s q ts (succ_of b q) other ∙ sym (if_not s q (t ∷ ts) (succ_of b q) other);
      free_at = λ x. count-done x t b.transitions_fs ds;
    }

  in_loop :
      (s : ℕ) (ts ds : List ℕ) (b : MutableAutomaton L K)
      → IsConsistent (in_progress b s ts ds)
      → has_state (in_progress b s ts ds) s ≡ true
      → IsConsistent (in_progress (erase_all false b ts) s [] (ds ++ ts))
        × ((q : ℕ)
            → has_state (in_progress (erase_all false b ts) s [] (ds ++ ts)) q
              ≡ has_state (in_progress b s ts ds) q)
  unfolding erase_all
  in_loop s [] ds b c live = rw (append-nil ds) (c, λ q. refl)
  in_loop s (t ∷ ts) ds b c live =
      let step = in_step b s t ts ds c live in
      let here = (in_ends b s t ts ds c live).0 in
      let rest =
        in_loop s ts (ds ++ (t ∷ [])) (erase_one false b t) (Removes-IsConsistent _ _ t c here step)
          (has_state-Removes _ _ t c here step s ∙ live) in
      rw⁻¹ (append_assoc ds (t ∷ []) ts)
        (rest.0, λ q. rest.1 q ∙ has_state-Removes _ _ t c here step q)

  out_loop :
      (s : ℕ) (ts ds : List ℕ) (b : MutableAutomaton L K)
      → IsConsistent (out_progress b s ts ds)
      → has_state (out_progress b s ts ds) s ≡ true
      → IsConsistent (out_progress (erase_all true b ts) s [] (ds ++ ts))
        × ((q : ℕ)
            → has_state (out_progress (erase_all true b ts) s [] (ds ++ ts)) q
              ≡ has_state (out_progress b s ts ds) q)
  unfolding erase_all
  out_loop s [] ds b c live = rw (append-nil ds) (c, λ q. refl)
  out_loop s (t ∷ ts) ds b c live =
      let step = out_step b s t ts ds c live in
      let here = (out_ends b s t ts ds c live).0 in
      let rest =
        out_loop s ts (ds ++ (t ∷ [])) (erase_one true b t) (Removes-IsConsistent _ _ t c here step)
          (has_state-Removes _ _ t c here step s ∙ live) in
      rw⁻¹ (append_assoc ds (t ∷ []) ts)
        (rest.0, λ q. rest.1 q ∙ has_state-Removes _ _ t c here step q)

  pub del_incoming-IsConsistent :
      (a : MutableAutomaton L K) (s : ℕ)
      → IsConsistent a
      → has_state a s ≡ true
      → IsConsistent (del_incoming a s) × ((q : ℕ) → has_state (del_incoming a s) q ≡ has_state a q)
  unfolding del_incoming
  del_incoming-IsConsistent a s c live =
      let all =
        in_loop s (pred_of a s) [] a (subst IsConsistent (sym (in_start a s)) c)
          (ap (λ x. has_state x s) (in_start a s) ∙ live) in
      (all.0, λ q. all.1 q ∙ ap (λ x. has_state x q) (in_start a s))

  pub del_outgoing-IsConsistent :
      (a : MutableAutomaton L K) (s : ℕ)
      → IsConsistent a
      → has_state a s ≡ true
      → IsConsistent (del_outgoing a s) × ((q : ℕ) → has_state (del_outgoing a s) q ≡ has_state a q)
  unfolding del_outgoing
  del_outgoing-IsConsistent a s c live =
      let all =
        out_loop s (succ_of a s) [] a (subst IsConsistent (sym (out_start a s)) c)
          (ap (λ x. has_state x s) (out_start a s) ∙ live) in
      (all.0, λ q. all.1 q ∙ ap (λ x. has_state x q) (out_start a s))
