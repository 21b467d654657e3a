-- ===== src/Algos/Checks/Members.antt =====
-- The states that the checks of vcsn/algos/is-deterministic.hh and is-complete.hh go through.
use vcsn.Base.{
  ℕ, zero, suc, ◌+◌, ◌-◌, ◌≤◌, ◌<◌, ◌==◌, ◌≡◌, ◌↔◌, leb, List, [], ◌∷◌, Bool, true, not, ◌&&◌,
  arith, refl, Bool-cases, inl, inr, sym, ap, ◌∙◌, ==_iff,
}
use vcsn.Automaton.{MutableAutomaton, post, null_transition, succ_of}
use vcsn.Automaton.Handles.{ind, count}
use vcsn.Automaton.Queries.{has_state, starts_with}
use vcsn.Automaton.Ranges.{irange, state_range, states}
use vcsn.Automaton.Filter.{count-filter_range}
use vcsn.Algos.Checks.{for_all}

pub for_all_iff :
    (p : ℕ → Bool) (us : List ℕ) → (for_all p us ≡ true) ↔ ((u : ℕ) → 1 ≤ count u us → p u ≡ true)
for_all_iff p [] = (λ h u k. ground (arith, k), λ h. refl)
for_all_iff p (v ∷ us) = (
  λ h u k. elim (Bool-cases (p v)) [
    | inl e ↦ elim (Bool-cases (u == v)) [
      | inl m ↦ ap p ((==_iff u v).0 m) ∙ e
      | inr m ↦ (for_all_iff p us).0 (sym (rw e refl) ∙ h) u (ground (arith, k, m))
    ]
    | inr e ↦ ground (arith, h, e)
  ],
  λ h. rw (h v (ground arith)) ((for_all_iff p us).1 (λ u k. h u (omega (arith, k)))),
)

count-irange : (b n q : ℕ) → count q (irange b n) ≡ ind (leb b q && leb (q + 1) (b + n))
unfolding irange
count-irange b zero q = ground arith
count-irange b (suc n) q = ground (arith, count-irange (b + 1) n q)

module _ {L K : Type 0} where
  -- `states()` has each state but pre and post.
  pub states_iff :
      (a : MutableAutomaton L K) (q : ℕ)
      → 1 < a.states_size
      → (1 ≤ count q (states a)) ↔ ((post < q) × (has_state a q ≡ true))
  unfolding states state_range has_state
  states_iff a q lt =
      let range = irange 2 (a.states_size - 2) in
      let f =
        count-filter_range (λ s. not (starts_with (succ_of a s) null_transition) && true) q range in
      let r = count-irange 2 (a.states_size - 2) q in
      (λ h. (ground (arith, f, r, h), ground (arith, f, r, h)), λ h. ground (arith, f, r, h.0, h.1))
