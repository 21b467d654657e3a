-- ===== src/Automaton/Table.antt =====
-- What the methods of vcsn/core/mutable-automaton.hh on transitions promise to their clients: an
-- automaton is a map from source, destination and label to a weight.
use vcsn.Base.{refl, ℕ, ◌<◌, ◌≡◌, ◌↔◌, true, Eq, if◌then◌else◌, arith, inl, inr, ◌∙◌, sym, ap}
use vcsn.Weight.{Weightset, IsSemiring, ◌⊕◌}
use vcsn.Automaton.{MutableAutomaton, lazy_transition, src_of, dst_of, label_of}
use vcsn.Automaton.Queries.{has_state, has_handle, get_transition}
use vcsn.Automaton.Edit.{set_transition, add_transition}
use vcsn.Automaton.Lookup.{same_key, get_transition-Looked}
use vcsn.Automaton.Weights.{IsWellFormed, weight_at, not_null, key_of}
use vcsn.Automaton.Refine.{weight_at-Updates, set_transition-Updates, add_transition-Updates}

module _ {L K : Type 0} ⦃e : Eq L⦄ ⦃ws : Weightset K⦄ where
  -- On a well-formed automaton, between two states, `get_transition` returns a live transition if
  -- and only if that has the source, the destination and the label searched for.
  pub get_transition_iff :
      (a : MutableAutomaton L K) (s d : ℕ) (k : L) (t : ℕ)
      → IsWellFormed a
      → has_state a s ≡ true
      → has_state a d ≡ true
      → has_handle a t ≡ true
      → (get_transition a s d k ≡ t)
        ↔ (same_key (src_of a t) (dst_of a t) (label_of a t) s d k ≡ true)
  get_transition_iff a s d k t f hs hd live =
      elim (get_transition-Looked a s d k f.is_consistent hs hd) [
        | inl n ↦ (
          λ h. ground (arith, h, n.1, not_null a t f.is_consistent live),
          λ m. ground (arith, n.0 t, live, m),
        )
        | inr h ↦ (
          λ i.
              ap (λ u. same_key (src_of a u) (dst_of a u) (label_of a u) s d k) (sym i)
              ∙ key_of _ _ h,
          λ m. f.unique s d k (get_transition a s d k) t h (rw (live, m) refl),
        )
      ]

  -- Over any semiring of weights and on a well-formed automaton with a free handle,
  -- `set_transition` between two states sets the weight at its source, destination and label, a
  -- zero weight included, and leaves it elsewhere between states.
  pub weight_at-set_transition :
      (a : MutableAutomaton L K) (src dst : ℕ) (l : L) (w : K) (s d : ℕ) (k : L)
      → IsSemiring ws
      → IsWellFormed a
      → a.transitions_size < lazy_transition
      → has_state a src ≡ true
      → has_state a dst ≡ true
      → has_state a s ≡ true
      → has_state a d ≡ true
      → weight_at (set_transition a src dst l w).0 s d k
        ≡ (if same_key src dst l s d k then w else weight_at a s d k)
  weight_at-set_transition a src dst l w s d k sr f room hsrc hdst hs hd =
      weight_at-Updates a (set_transition a src dst l w).0 src dst l w f
        (set_transition-Updates a f src dst l hsrc hdst sr w room) s d k hs hd

  -- Over any semiring of weights and on a well-formed automaton with a free handle,
  -- `add_transition` between two states adds to the weight at its source, destination and label,
  -- also where the sum is zero, and leaves it elsewhere between states.
  pub weight_at-add_transition :
      (a : MutableAutomaton L K) (src dst : ℕ) (l : L) (w : K) (s d : ℕ) (k : L)
      → IsSemiring ws
      → IsWellFormed a
      → a.transitions_size < lazy_transition
      → has_state a src ≡ true
      → has_state a dst ≡ true
      → has_state a s ≡ true
      → has_state a d ≡ true
      → weight_at (add_transition a src dst l w).0 s d k
        ≡ (if same_key src dst l s d k then weight_at a src dst l ⊕ w else weight_at a s d k)
  weight_at-add_transition a src dst l w s d k sr f room hsrc hdst hs hd =
      weight_at-Updates a (add_transition a src dst l w).0 src dst l (weight_at a src dst l ⊕ w) f
        (add_transition-Updates a f src dst l hsrc hdst sr w room) s d k hs hd
