-- ===== src/Automaton/Refine.antt =====
-- The edition of transitions (vcsn/core/mutable-automaton.hh) refines the update of a map from the
-- keys, source, destination and label, to the weights.
use vcsn.Base.{
  ℕ, ◌<◌, ◌≡◌, true, false, Eq, if◌then◌else◌, refl, Bool-cases, inl, inr, sym, ◌∙◌, subst,
}
use vcsn.Weight.{Weightset, IsSemiring, ◌⊕◌}
use vcsn.Automaton.{MutableAutomaton, lazy_transition, src_of, dst_of, label_of, weight_of}
use vcsn.Automaton.Queries.{has_state, has_handle, get_transition}
use vcsn.Automaton.Edit.{
  overwrite_transition, del_handle, new_transition, set_weight, del_transition, set_transition,
  add_transition,
}
use vcsn.Automaton.Remove.{has_state-Removes}
use vcsn.Automaton.Delete.{del_handle-Removes}
use vcsn.Automaton.Store.{store_transition-Stores}
use vcsn.Automaton.Lookup.{same_key, holds, get_transition-Looked}
use vcsn.Automaton.Weights.{
  IsWellFormed, Weighs, weight_at, weight_at-Weighs, Weighs-unique, key_eq, holds-key, not_null,
  live_of, key_of,
}
use vcsn.Automaton.Changes.{
  Removes-IsWellFormed, Weighs-Removes, Stores-IsWellFormed, Weighs-Stores, overwrite-IsWellFormed,
  Weighs-overwrite,
}

module _ {L K : Type 0} ⦃e : Eq L⦄ ⦃ws : Weightset K⦄ where
  -- `b` is `a` with the weight `w` at the key `(src, dst, l)`.
  pub record Updates (a b : MutableAutomaton L K) (src dst : ℕ) (l : L) (w : K) : Type 0 where
    pub is_well_formed : IsWellFormed b
    pub state_at : (q : ℕ) → has_state b q ≡ has_state a q
    pub weighs :
        (s d : ℕ) (k : L) (v : K)
        → Weighs a s d k v
        → Weighs b s d k (if same_key src dst l s d k then w else v)

  pub weight_at-Updates :
      (a b : MutableAutomaton L K) (src dst : ℕ) (l : L) (w : K)
      → IsWellFormed a
      → Updates a b src dst l w
      → (s d : ℕ) (k : L) → has_state a s ≡ true
      → has_state a d ≡ true
      → weight_at b s d k ≡ (if same_key src dst l s d k then w else weight_at a s d k)
  weight_at-Updates a b src dst l w f u s d k hs hd =
      Weighs-unique b s d k _ _ u.is_well_formed
        (weight_at-Weighs b s d k u.is_well_formed.is_consistent (u.state_at s ∙ hs)
          (u.state_at d ∙ hd))
        (u.weighs s d k _ (weight_at-Weighs a s d k f.is_consistent hs hd))

  module _ (a : MutableAutomaton L K) (f : IsWellFormed a) where
    pub del_handle-Updates :
        (t : ℕ)
        → has_handle a t ≡ true
        → Updates a (del_handle a t) (src_of a t) (dst_of a t) (label_of a t) ws.zero
    del_handle-Updates t live =
        let r = del_handle-Removes a t f.is_consistent live in
        record {
          is_well_formed = Removes-IsWellFormed a (del_handle a t) t r f live;
          state_at = has_state-Removes a (del_handle a t) t f.is_consistent live r;
          weighs = λ s d k v h. Weighs-Removes a (del_handle a t) t r f live s d k v h;
        }

    overwrite-Updates :
        (t : ℕ) (l : L) (w : K)
        → has_handle a t ≡ true
        → label_of a t ≡ l
        → ws.is_zero w ≡ false
        → Updates a (overwrite_transition a t l w) (src_of a t) (dst_of a t) l w
    unfolding has_state
    overwrite-Updates t l w live same z = record {
      is_well_formed = overwrite-IsWellFormed a t l w f live same z;
      state_at = λ q. refl;
      weighs = λ s d k v h. Weighs-overwrite a t l w f live same s d k v h;
    }

    -- Where no transition has the key, a weight that is zero changes nothing.
    skip-Updates :
        (src dst : ℕ) (l : L) (w : K)
        → ((t : ℕ) → holds a t src dst l ≡ false)
        → w ≡ ws.zero
        → Updates a a src dst l w
    skip-Updates src dst l w none z = record {
      is_well_formed = f;
      state_at = λ q. refl;
      weighs = λ s d k v h. elim (Bool-cases (same_key src dst l s d k)) [
        | inl m ↦ rw m (inl (λ t. sym (holds-key a t src dst l s d k m) ∙ none t, z))
        | inr m ↦ rw m h
      ];
    }

    new_transition-Updates :
        IsSemiring ws
        → (src dst : ℕ) (l : L) (w : K) → has_state a src ≡ true
        → has_state a dst ≡ true
        → a.transitions_size < lazy_transition
        → ((t : ℕ) → holds a t src dst l ≡ false)
        → Updates a (new_transition a src dst l w).0 src dst l w
    unfolding new_transition
    new_transition-Updates sr src dst l w hs hd room none = elim (Bool-cases (ws.is_zero w)) [
      | inl z ↦ rw z (skip-Updates src dst l w none (sr.eq_of_is_zero w z))
      | inr z ↦
          let r = store_transition-Stores a f.is_consistent src dst l w hs hd room in
          rw z (record {
            is_well_formed = Stores-IsWellFormed a src dst l w _ r f none z;
            state_at = r.state_at;
            weighs = λ s d k v h. Weighs-Stores a src dst l w _ r s d k v h;
          })
    ]

    pub set_weight-Updates :
        IsSemiring ws
        → (t : ℕ) (w : K) → has_handle a t ≡ true
        → Updates a (set_weight a t w).0 (src_of a t) (dst_of a t) (label_of a t) w
    unfolding set_weight
    set_weight-Updates sr t w live = elim (Bool-cases (ws.is_zero w)) [
      | inl z ↦ rw (z, sr.eq_of_is_zero w z) (del_handle-Updates t live)
      | inr z ↦ rw z (overwrite-Updates t (label_of a t) w live refl z)
    ]

    module _ (src dst : ℕ) (l : L) (hs : has_state a src ≡ true) (hd : has_state a dst ≡ true) where
      -- The transition that was found has this source and this destination, and this label.
      at_key :
          (t : ℕ) (b : MutableAutomaton L K) (m : L) (v : K)
          → holds a t src dst l ≡ true
          → m ≡ l
          → Updates a b (src_of a t) (dst_of a t) m v
          → Updates a b src dst l v
      at_key t b m v h same u =
          let eqs = key_eq (src_of a t) (dst_of a t) (label_of a t) src dst l (key_of _ _ h) in
          subst (λ z. Updates a b src dst z v) same
            (subst (λ z. Updates a b src z m v) eqs.1
              (subst (λ z. Updates a b z (dst_of a t) m v) eqs.0 u))

      label_is : (t : ℕ) → holds a t src dst l ≡ true → label_of a t ≡ l
      label_is t h = (key_eq (src_of a t) (dst_of a t) (label_of a t) src dst l (key_of _ _ h)).2

      pub del_transition-Updates : Updates a (del_transition a src dst l) src dst l ws.zero
      unfolding del_transition
      del_transition-Updates = elim (get_transition-Looked a src dst l f.is_consistent hs hd) [
        | inl n ↦ rw n.1 (skip-Updates src dst l ws.zero n.0 refl)
        | inr h ↦
            let t = get_transition a src dst l in
            rw (not_null a t f.is_consistent (live_of _ _ h)) (
              at_key t (del_handle a t) _ ws.zero h (label_is t h)
                (del_handle-Updates t (live_of _ _ h)))
      ]

      module _ (sr : IsSemiring ws) (w : K) (room : a.transitions_size < lazy_transition) where
        pub set_transition-Updates : Updates a (set_transition a src dst l w).0 src dst l w
        unfolding set_transition
        set_transition-Updates = elim (get_transition-Looked a src dst l f.is_consistent hs hd) [
          | inl n ↦ rw n.1 (new_transition-Updates sr src dst l w hs hd room n.0)
          | inr h ↦
              let t = get_transition a src dst l in
              let live = live_of _ _ h in
              elim (Bool-cases (ws.is_zero w)) [
                | inl z ↦
                    rw (not_null a t f.is_consistent live, z, sr.eq_of_is_zero w z)
                      (at_key t (del_handle a t) _ ws.zero h (label_is t h)
                        (del_handle-Updates t live))
                | inr z ↦
                    rw (not_null a t f.is_consistent live, z)
                      (at_key t (overwrite_transition a t l w) l w h refl
                        (overwrite-Updates t l w live (label_is t h) z))
              ]
        ]

        pub add_transition-Updates :
            Updates a (add_transition a src dst l w).0 src dst l (weight_at a src dst l ⊕ w)
        unfolding add_transition weight_at
        add_transition-Updates = elim (get_transition-Looked a src dst l f.is_consistent hs hd) [
          | inl n ↦ rw (n.1, sr.zero-add w) (new_transition-Updates sr src dst l w hs hd room n.0)
          | inr h ↦
              let t = get_transition a src dst l in
              let live = live_of _ _ h in
              rw (not_null a t f.is_consistent live) (
                at_key t (set_weight a t (weight_of a t ⊕ w)).0 _ _ h (label_is t h)
                  (set_weight-Updates sr t (weight_of a t ⊕ w) live))
        ]
