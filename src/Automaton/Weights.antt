-- ===== src/Automaton/Weights.antt =====
-- The weight of the transition between two states with a label, which is what an automaton of
-- vcsn/core/mutable-automaton.hh is to its clients, and how the changes of the tables change it.
use vcsn.Base.{
  ℕ, ◌==◌, ◌≡◌, Bool, true, false, ◌&&◌, Eq, if◌then◌else◌, arith, refl, Bool-cases, inl, inr, ◌⊎◌,
  sym, ap, ap₂, ◌∙◌, ==_iff,
}
use vcsn.Weight.{Weightset}
use vcsn.Automaton.{MutableAutomaton, null_transition, src_of, dst_of, label_of, weight_of}
use vcsn.Automaton.Queries.{has_state, has_handle, get_transition}
use vcsn.Automaton.Consistent.{IsConsistent, has_handle_lt}
use vcsn.Automaton.Lookup.{same_key, holds, get_transition-Looked}

pub live_of : (p q : Bool) → (p && q) ≡ true → p ≡ true
live_of p q h = ground arith

pub key_of : (p q : Bool) → (p && q) ≡ true → q ≡ true
key_of p q h = ground arith

pub not_null :
    {L K : Type 0}
    → (a : MutableAutomaton L K) (t : ℕ) → IsConsistent a
    → has_handle a t ≡ true
    → (t == null_transition) ≡ false
not_null a t c h = ground (arith, has_handle_lt a t h, c.transitions_bound)

module _ {L : Type 0} ⦃e : Eq L⦄ where
  pub key_eq :
      (src dst : ℕ) (l : L) (s d : ℕ) (k : L)
      → same_key src dst l s d k ≡ true
      → (src ≡ s) × (dst ≡ d) × (l ≡ k)
  key_eq src dst l s d k h = (ground arith, ground arith, (e.beq_iff l k).0 (ground arith))

  pub key_refl : (src dst : ℕ) (l : L) → same_key src dst l src dst l ≡ true
  key_refl src dst l = rw ((e.beq_iff l l).1 refl) (ground arith)

module _ {L K : Type 0} ⦃e : Eq L⦄ where
  -- What holds of a key holds of an equal one.
  pub holds-key :
      (a : MutableAutomaton L K) (t src dst : ℕ) (l : L) (s d : ℕ) (k : L)
      → same_key src dst l s d k ≡ true
      → holds a t src dst l ≡ holds a t s d k
  holds-key a t src dst l s d k m =
      let eqs = key_eq src dst l s d k m in
      ap₂ (λ x y. holds a t x y l) eqs.0 eqs.1 ∙ ap (holds a t s d) eqs.2

  -- A transition with another key is another transition.
  pub other_key :
      (a : MutableAutomaton L K) (t u s d : ℕ) (k : L)
      → holds a u s d k ≡ true
      → same_key (src_of a t) (dst_of a t) (label_of a t) s d k ≡ false
      → (t == u) ≡ false
  other_key a t u s d k h m = elim (Bool-cases (t == u)) [
    | inl i ↦ ground (
      arith,
      h,
      ap (λ z. same_key (src_of a z) (dst_of a z) (label_of a z) s d k) ((==_iff t u).0 i),
      m,
    )
    | inr i ↦ i
  ]

module _ {L K : Type 0} ⦃e : Eq L⦄ ⦃ws : Weightset K⦄ where
  -- The weight of the transition `(s, k, d)`, zero if there is none.
  unfoldable pub weight_at : MutableAutomaton L K → ℕ → ℕ → L → K
  weight_at a s d k =
      let t = get_transition a s d k in if t == null_transition then ws.zero else weight_of a t

  -- Consistent tables, no two transitions with the same ends and label, and no zero weight.
  pub record IsWellFormed (a : MutableAutomaton L K) : Type 0 where
    pub is_consistent : IsConsistent a
    pub unique :
        (s d : ℕ) (k : L) (t u : ℕ) → holds a t s d k ≡ true → holds a u s d k ≡ true → t ≡ u
    pub nonzero : (t : ℕ) → has_handle a t ≡ true → ws.is_zero (weight_of a t) ≡ false

  -- `w` is the weight of the live transition with this key, or zero and there is none.
  abbrev pub Weighs : MutableAutomaton L K → ℕ → ℕ → L → K → Type 0
  Weighs a s d k w =
      (((t : ℕ) → holds a t s d k ≡ false) × (w ≡ ws.zero))
      ⊎ ((t : ℕ) × ((holds a t s d k ≡ true) × (w ≡ weight_of a t)))

  pub weight_at-Weighs :
      (a : MutableAutomaton L K) (s d : ℕ) (k : L)
      → IsConsistent a
      → has_state a s ≡ true
      → has_state a d ≡ true
      → Weighs a s d k (weight_at a s d k)
  unfolding weight_at
  weight_at-Weighs a s d k c hs hd = elim (get_transition-Looked a s d k c hs hd) [
    | inl n ↦ inl (n.0, rw n.1 refl)
    | inr h ↦ inr (
      get_transition a s d k,
      (h, rw (not_null a (get_transition a s d k) c (live_of _ _ h)) refl),
    )
  ]

  pub Weighs-unique :
      (a : MutableAutomaton L K) (s d : ℕ) (k : L) (v w : K)
      → IsWellFormed a
      → Weighs a s d k v
      → Weighs a s d k w
      → v ≡ w
  Weighs-unique a s d k v w f (inl n) (inl m) = n.1 ∙ sym m.1
  Weighs-unique a s d k v w f (inl n) (inr (t, h)) = ground (arith, n.0 t, h.0)
  Weighs-unique a s d k v w f (inr (t, h)) (inl n) = ground (arith, n.0 t, h.0)
  Weighs-unique a s d k v w f (inr (t, h)) (inr (u, g)) =
      h.1 ∙ ap (weight_of a) (f.unique s d k t u h.0 g.0) ∙ sym g.1

  -- A change that does not concern the key keeps the weight.
  pub Weighs-kept :
      (a b : MutableAutomaton L K) (s d : ℕ) (k : L) (w : K)
      → ((u : ℕ) → holds b u s d k ≡ holds a u s d k)
      → ((u : ℕ) → holds a u s d k ≡ true → weight_of b u ≡ weight_of a u)
      → Weighs a s d k w
      → Weighs b s d k w
  Weighs-kept a b s d k w same weight (inl n) = inl (λ t. same t ∙ n.0 t, n.1)
  Weighs-kept a b s d k w same weight (inr (t, h)) =
      inr (t, (same t ∙ h.0, h.1 ∙ sym (weight t h.0)))
