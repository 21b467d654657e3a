-- ===== src/Automaton/Handles.antt =====
-- Vectors of handles, the `std::vector<unsigned>` of vcsn/core/mutable-automaton.hh: the operations
-- that the automata call, and how often a handle occurs after each.
use vcsn.Base.{
  ℕ, ◌+◌, ◌≡◌, refl, List, [], ◌∷◌, ◌++◌, Bool, true, false, ◌==◌, if◌then◌else◌, arith, ap,
  Bool-cases, inl, inr, ==_iff, ◌≤◌,
}

-- 1 where the test holds.
abbrev pub ind : Bool → ℕ
ind true = 1
ind false = 0

abbrev pub count : ℕ → List ℕ → ℕ
count t [] = 0
count t (u ∷ us) = ind (t == u) + count t us

-- `emplace_back(t)`
abbrev pub push_back : List ℕ → ℕ → List ℕ
push_back us t = us ++ (t ∷ [])

-- The last element of `u ∷ us`.
abbrev pub back : ℕ → List ℕ → ℕ
back u [] = u
back u (v ∷ us) = back v us

-- `u ∷ us` without its last element.
abbrev pub pop_back : ℕ → List ℕ → List ℕ
pop_back u [] = []
pop_back u (v ∷ us) = u ∷ pop_back v us

-- `*find(us, t) = v`
abbrev pub overwrite : List ℕ → ℕ → ℕ → List ℕ
overwrite [] t v = []
overwrite (u ∷ us) t v = if t == u then v ∷ us else u ∷ overwrite us t v

abbrev pub without_last : List ℕ → List ℕ
without_last [] = []
without_last (u ∷ us) = pop_back u us

-- Remove `t` by putting the last handle in its place: `*find(us, t) = us.back(); us.pop_back();`
unfoldable pub swap_pop : List ℕ → ℕ → List ℕ
swap_pop [] t = []
swap_pop (u ∷ us) t = without_last (overwrite (u ∷ us) t (back u us))

pub count-append : (t : ℕ) (us vs : List ℕ) → count t (us ++ vs) ≡ count t us + count t vs
count-append t [] vs = omega arith
count-append t (u ∷ us) vs = omega (arith, count-append t us vs)

pub count-push_back : (t u : ℕ) (us : List ℕ) → count t (push_back us u) ≡ count t us + ind (t == u)
count-push_back t u us = omega (arith, count-append t us (u ∷ []))

pub count-pop_back :
    (t u : ℕ) (us : List ℕ) → count t (pop_back u us) + ind (t == back u us) ≡ count t (u ∷ us)
count-pop_back t u [] = omega arith
count-pop_back t u (v ∷ us) = omega (arith, count-pop_back t v us)

without_last-overwrite :
    (t b u v : ℕ) (us : List ℕ)
    → pop_back u (overwrite (v ∷ us) t b) ≡ u ∷ without_last (overwrite (v ∷ us) t b)
without_last-overwrite t b u v us = elim (Bool-cases (t == v)) [
  | inl h ↦ rw h refl
  | inr h ↦ rw h refl
]

elsewhere : (t u n : ℕ) → (t == u) ≡ false → 1 ≤ ind (t == u) + n → 1 ≤ n
elsewhere t u n e h = omega (arith, ap ind e)

count-replaced :
    (x t u : ℕ) (us : List ℕ)
    → 1 ≤ count t (u ∷ us)
    → count x (without_last (overwrite (u ∷ us) t (back u us))) + ind (x == t) ≡ count x (u ∷ us)
count-replaced x t u [] h = ground arith
count-replaced x t u (v ∷ us) h = elim (Bool-cases (t == u)) [
  | inl e ↦ rw e (omega (arith, count-pop_back x v us, ap (λ z. ind (x == z)) ((==_iff t u).0 e)))
  | inr e ↦
      rw (e, without_last-overwrite t (back v us) u v us)
        (omega (arith, count-replaced x t v us (elsewhere t u (count t (v ∷ us)) e h)))
]

-- Of the handle that is removed, one occurrence goes away; of the others, none.
pub count-swap_pop :
    (x t : ℕ) (us : List ℕ) → 1 ≤ count t us → count x (swap_pop us t) + ind (x == t) ≡ count x us
unfolding swap_pop
count-swap_pop x t [] h = omega arith
count-swap_pop x t (u ∷ us) h = count-replaced x t u us h
