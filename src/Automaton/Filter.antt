-- ===== src/Automaton/Filter.antt =====
-- The filtered ranges of vcsn/core/automaton.hh and vcsn/core/mutable-automaton.hh, as multisets.
use vcsn.Base.{
  ℕ, ◌+◌, ◌==◌, ◌≡◌, List, [], ◌∷◌, Bool, true, false, arith, refl, if◌then◌else◌, Bool-cases, inl,
  inr, ap, ◌∙◌, ==_iff,
}
use vcsn.Automaton.Handles.{ind, count}
use vcsn.Automaton.Ranges.{filter_range}

filtered_in :
    (keep here : Bool) (n c : ℕ)
    → (here ≡ true → keep ≡ true)
    → c ≡ (if keep then n else 0)
    → ind here + c ≡ (if keep then ind here + n else 0)
filtered_in true here n c h k = omega (arith, k)
filtered_in false true n c h k = ground (arith, h refl)
filtered_in false false n c h k = omega (arith, k)

filtered_out :
    (keep here : Bool) (n c : ℕ)
    → (here ≡ true → keep ≡ false)
    → c ≡ (if keep then n else 0)
    → c ≡ (if keep then ind here + n else 0)
filtered_out false here n c h k = k
filtered_out true true n c h k = ground (arith, h refl)
filtered_out true false n c h k = omega (arith, k)

-- How often a handle is in a filtered range.
pub count-filter_range :
    (p : ℕ → Bool) (q : ℕ) (us : List ℕ)
    → count q (filter_range p us) ≡ (if p q then count q us else 0)
unfolding filter_range
count-filter_range p q [] = elim (Bool-cases (p q)) [ inl e ↦ rw e refl | inr e ↦ rw e refl ]
count-filter_range p q (u ∷ us) = elim (Bool-cases (p u)) [
  | inl e ↦ rw e (
      filtered_in (p q) (q == u) _ _ (λ m. ap p ((==_iff q u).0 m) ∙ e) (count-filter_range p q us))
  | inr e ↦ rw e (
      filtered_out (p q) (q == u) _ _ (λ m. ap p ((==_iff q u).0 m) ∙ e)
        (count-filter_range p q us))
]
