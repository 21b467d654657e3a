-- ===== src/Algos/Accessible/Unseen.antt =====
-- How many indexes a search of vcsn/algos/accessible.hh has not seen yet.
use vcsn.Base.{
  ℕ, zero, suc, ◌+◌, ◌≤◌, ◌<◌, ◌==◌, ◌≡◌, List, [], ◌∷◌, arith, refl, Bool-cases, inl, inr, ap, ◌∙◌,
  ==_iff,
}
use vcsn.Automaton.Handles.{ind, count}

-- The number of indexes of s, ..., s + n - 1 that are not in the list.
abbrev pub unseen : List ℕ → ℕ → ℕ → ℕ
unseen us s zero = 0
unseen us s (suc n) = ind (count s us == 0) + unseen us (s + 1) n

unseen-below : (d : ℕ) (us : List ℕ) (s n : ℕ) → d < s → unseen (d ∷ us) s n ≡ unseen us s n
unseen-below d us s zero lt = refl
unseen-below d us s (suc n) lt = ground (arith, unseen-below d us (s + 1) n (omega arith))

-- An index that is seen for the first time.
pub unseen-new :
    (d : ℕ) (us : List ℕ) (s n : ℕ)
    → s ≤ d
    → d < s + n
    → count d us ≡ 0
    → unseen (d ∷ us) s n + 1 ≡ unseen us s n
unseen-new d us s zero le lt h = ground arith
unseen-new d us s (suc n) le lt h = elim (Bool-cases (s == d)) [
  | inl e ↦
      let same = (==_iff s d).0 e in
      let empty = ap (λ z. count z us) same ∙ h in
      ground (arith, unseen-below d us (s + 1) n (omega (arith, same)), empty, same)
  | inr e ↦ ground (arith, unseen-new d us (s + 1) n (ground arith) (omega arith) h, e)
]

unseen-empty : (s n : ℕ) → unseen [] s n ≡ n
unseen-empty s zero = refl
unseen-empty s (suc n) = omega (arith, unseen-empty (s + 1) n)

pub unseen-one : (d n : ℕ) → d < n → unseen (d ∷ []) 0 n + 1 ≡ n
unseen-one d n lt = unseen-new d [] 0 n (omega arith) (omega arith) refl ∙ unseen-empty 0 n
