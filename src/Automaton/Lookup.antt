-- ===== src/Automaton/Lookup.antt =====
-- `get_transition` (vcsn/core/mutable-automaton.hh), which searches the shorter of two vectors, and
-- the live transitions between two states with a label.
use vcsn.Base.{
  ℕ, zero, suc, ◌≤◌, ◌==◌, ◌≡◌, leb, List, [], ◌∷◌, Bool, true, false, ◌&&◌, Eq, length, arith,
  refl, Bool-cases, inl, inr, ◌⊎◌, sym, ap, ◌∙◌, ==_iff, subst,
}
use vcsn.Automaton.{MutableAutomaton, null_transition, succ_of, pred_of, src_of, dst_of, label_of}
use vcsn.Automaton.Handles.{ind, count}
use vcsn.Automaton.Queries.{has_state, has_handle, find_transition, get_transition}
use vcsn.Automaton.Consistent.{IsConsistent}

-- Whether the key `(src, dst, l)` is `(s, d, k)`.
abbrev pub same_key : {L : Type 0} → ⦃e : Eq L⦄ → ℕ → ℕ → L → ℕ → ℕ → L → Bool
same_key ⦃e = e⦄ src dst l s d k = (src == s) && ((dst == d) && e.beq l k)

-- Whether `t` is a live transition from `s` to `d` labelled by `k`.
abbrev pub holds : {L K : Type 0} → ⦃e : Eq L⦄ → MutableAutomaton L K → ℕ → ℕ → ℕ → L → Bool
holds a t s d k = has_handle a t && same_key (src_of a t) (dst_of a t) (label_of a t) s d k

-- What a search of `us` for a handle with `p` returns.
abbrev Found : (ℕ → Bool) → List ℕ → ℕ → Type 0
Found p us r =
    (((t : ℕ) → 1 ≤ count t us → p t ≡ false) × (r ≡ null_transition))
    ⊎ ((p r ≡ true) × (1 ≤ count r us))

found_later :
    (p : ℕ → Bool) (u r : ℕ) (us : List ℕ) → p u ≡ false → Found p us r → Found p (u ∷ us) r
found_later p u r us e (inl n) = inl (
  λ t h. elim (Bool-cases (t == u)) [
    | inl k ↦ ap p ((==_iff t u).0 k) ∙ e
    | inr k ↦ n.0 t (ground (arith, h, k))
  ],
  n.1,
)
found_later p u r us e (inr f) = inr (f.0, omega (arith, f.1))

find_transition-Found : (p : ℕ → Bool) (us : List ℕ) → Found p us (find_transition p us)
unfolding find_transition
find_transition-Found p [] = inl (λ t h. ground arith, refl)
find_transition-Found p (u ∷ us) = elim (Bool-cases (p u)) [
  | inl e ↦ subst (Found p (u ∷ us)) (sym (rw e refl)) (inr (e, ground arith))
  | inr e ↦
      subst (Found p (u ∷ us)) (sym (rw e refl))
        (found_later p u (find_transition p us) us e (find_transition-Found p us))
]

-- The same, among all the live transitions `q` of the automaton.
abbrev pub Looked : (ℕ → Bool) → ℕ → Type 0
Looked q r = (((t : ℕ) → q t ≡ false) × (r ≡ null_transition)) ⊎ (q r ≡ true)

absent : (x : Bool) (n : ℕ) → (1 ≤ n → x ≡ false) → (x && leb 1 n) ≡ false
absent false n h = refl
absent true zero h = refl
absent true (suc n) h = ap (λ x. x && leb 1 (suc n)) (h (omega arith))

looked :
    (p q : ℕ → Bool) (us : List ℕ) (r : ℕ)
    → ((t : ℕ) → q t ≡ (p t && leb 1 (count t us)))
    → Found p us r
    → Looked q r
looked p q us r h (inl n) = inl (λ t. h t ∙ absent (p t) (count t us) (n.0 t), n.1)
looked p q us r h (inr f) = inr (h r ∙ ground (arith, f.0, f.1))

by_dst :
    (live from to lab : Bool) (n : ℕ)
    → n ≡ ind (live && from)
    → (live && (from && (to && lab))) ≡ ((to && lab) && leb 1 n)
by_dst live from to lab n h = ground (arith, h)

by_src :
    (live from to lab : Bool) (n : ℕ)
    → n ≡ ind (live && to)
    → (live && (from && (to && lab))) ≡ ((from && lab) && leb 1 n)
by_src live from to lab n h = ground (arith, h)

module _ {L K : Type 0} ⦃e : Eq L⦄ where
  -- No live transition has the key, and there is none to return; or the one returned has it.
  pub get_transition-Looked :
      (a : MutableAutomaton L K) (s d : ℕ) (k : L)
      → IsConsistent a
      → has_state a s ≡ true
      → has_state a d ≡ true
      → Looked (λ t. holds a t s d k) (get_transition a s d k)
  unfolding get_transition
  get_transition-Looked a s d k c hs hd =
      elim (Bool-cases (leb (length (succ_of a s)) (length (pred_of a d)))) [
        | inl b ↦ subst (Looked (λ t. holds a t s d k)) (sym (rw b refl)) (
            looked _ _ (succ_of a s) _
              (λ t.
                by_dst (has_handle a t) (src_of a t == s) (dst_of a t == d) _ _
                  (c.succ_count s t hs))
              (find_transition-Found (λ t. (dst_of a t == d) && e.beq (label_of a t) k)
                (succ_of a s)))
        | inr b ↦ subst (Looked (λ t. holds a t s d k)) (sym (rw b refl)) (
            looked _ _ (pred_of a d) _
              (λ t.
                by_src (has_handle a t) (src_of a t == s) (dst_of a t == d) _ _
                  (c.pred_count d t hd))
              (find_transition-Found (λ t. (src_of a t == s) && e.beq (label_of a t) k)
                (pred_of a d)))
      ]
