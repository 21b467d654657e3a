-- ===== src/Automaton/Changes.antt =====
-- How removing, storing and relabelling a transition (vcsn/core/mutable-automaton.hh) change the
-- weights of the keys: at the key of the transition, and nowhere else.
use vcsn.Base.{
  ℕ, ◌==◌, ◌≡◌, Bool, true, false, not, ◌&&◌, Eq, if◌then◌else◌, arith, refl, Bool-cases, inl, inr,
  sym, ap, ap₂, ◌∙◌, ==_iff,
}
use vcsn.Weight.{Weightset}
use vcsn.Automaton.{MutableAutomaton, src_of, dst_of, label_of, weight_of}
use vcsn.Automaton.Queries.{has_handle}
use vcsn.Automaton.Edit.{overwrite_transition}
use vcsn.Automaton.Remove.{Removes, has_handle-Removes, Removes-IsConsistent}
use vcsn.Automaton.Insert.{Stores}
use vcsn.Automaton.Store.{overwrite_transition-IsConsistent}
use vcsn.Automaton.Delete.{if_same, if_refl, if_not}
use vcsn.Automaton.Lookup.{same_key, holds}
use vcsn.Automaton.Weights.{IsWellFormed, Weighs, Weighs-kept, other_key, holds-key}

gone : (h : Bool) (t u : ℕ) → (h ≡ true → t ≡ u) → (h && not (t == u)) ≡ false
gone false t u k = refl
gone true t u k = ground (arith, k refl)

still : (h m : Bool) → (h ≡ true → m ≡ false) → (h && not m) ≡ h
still false m k = refl
still true m k = rw (k refl) refl

stored_else :
    (new old m : Bool) → new ≡ false → (m ≡ true → old ≡ false) → (if m then new else old) ≡ old
stored_else new old true h k = h ∙ sym (k refl)
stored_else new old false h k = refl

now : (t : ℕ) (new old : Bool) → new ≡ true → (if t == t then new else old) ≡ true
now t new old h = if_refl t new old ∙ h

if_nonzero :
    {K : Type 0}
    → ⦃ws : Weightset K⦄ → (t u : ℕ) (x y : K) → ws.is_zero x ≡ false
    → ((t == u) ≡ false → ws.is_zero y ≡ false)
    → ws.is_zero (if t == u then x else y) ≡ false
if_nonzero t u x y h k = elim (Bool-cases (t == u)) [ inl i ↦ rw i h | inr i ↦ rw i (k i) ]

module _ {L K : Type 0} ⦃e : Eq L⦄ ⦃ws : Weightset K⦄ where
  module _ (a b : MutableAutomaton L K) (t : ℕ) (r : Removes a t b) (f : IsWellFormed a)
      (live : has_handle a t ≡ true) where
    holds-Removes : (u s d : ℕ) (k : L) → holds b u s d k ≡ (holds a u s d k && not (t == u))
    holds-Removes u s d k = elim (Bool-cases (t == u)) [
      | inl i ↦ rw (has_handle-Removes a b t r u, i) (ground arith)
      | inr i ↦
          rw (has_handle-Removes a b t r u, r.src_at u, r.dst_at u, r.label_at u, i) (ground arith)
    ]

    pub Removes-IsWellFormed : IsWellFormed b
    Removes-IsWellFormed = record {
      is_consistent = Removes-IsConsistent a b t f.is_consistent live r;
      unique = λ s d k u v h i.
          f.unique s d k u v (ground (arith, holds-Removes u s d k, h))
            (ground (arith, holds-Removes v s d k, i));
      nonzero = λ u h.
          ap ws.is_zero (r.weight_at u)
          ∙ f.nonzero u (ground (arith, has_handle-Removes a b t r u, h));
    }

    pub Weighs-Removes :
        (s d : ℕ) (k : L) (w : K)
        → Weighs a s d k w
        → Weighs b s d k
            (if same_key (src_of a t) (dst_of a t) (label_of a t) s d k then ws.zero else w)
    Weighs-Removes s d k w weighs =
        elim (Bool-cases (same_key (src_of a t) (dst_of a t) (label_of a t) s d k)) [
          | inl m ↦ rw m (
              inl (
                λ u.
                    holds-Removes u s d k
                    ∙ gone _ t u (λ h. f.unique s d k t u (rw (live, m) refl) h),
                refl,
              ))
          | inr m ↦ rw m (
              Weighs-kept a b s d k w
                (λ u. holds-Removes u s d k ∙ still _ (t == u) (λ h. other_key a t u s d k h m))
                (λ u h. r.weight_at u) weighs)
        ]

  module _ (a : MutableAutomaton L K) (src dst : ℕ) (l : L) (w : K) (b : MutableAutomaton L K × ℕ)
      (r : Stores a src dst l w b) where
    holds-Stores :
        (u s d : ℕ) (k : L)
        → holds b.0 u s d k ≡ (if b.1 == u then same_key src dst l s d k else holds a u s d k)
    holds-Stores u s d k = elim (Bool-cases (b.1 == u)) [
      | inl i ↦ rw (r.handle_at u, r.src_at u, r.dst_at u, r.label_at u, i) refl
      | inr i ↦ rw (r.handle_at u, r.src_at u, r.dst_at u, r.label_at u, i) refl
    ]

    not_yet : (u s d : ℕ) (k : L) → (b.1 == u) ≡ true → holds a u s d k ≡ false
    not_yet u s d k i = rw (sym (ap (has_handle a) ((==_iff b.1 u).0 i)) ∙ r.fresh) refl

    not_stored : (u s d : ℕ) (k : L) → holds a u s d k ≡ true → (b.1 == u) ≡ false
    not_stored u s d k h = elim (Bool-cases (b.1 == u)) [
      | inl i ↦ ground (arith, not_yet u s d k i, h)
      | inr i ↦ i
    ]

    pub Weighs-Stores :
        (s d : ℕ) (k : L) (v : K)
        → Weighs a s d k v
        → Weighs b.0 s d k (if same_key src dst l s d k then w else v)
    Weighs-Stores s d k v weighs = elim (Bool-cases (same_key src dst l s d k)) [
      | inl m ↦ rw m (
          inr (
            b.1,
            (
              holds-Stores b.1 s d k ∙ now b.1 (same_key src dst l s d k) _ m,
              sym (r.weight_at b.1 ∙ if_refl b.1 w (weight_of a b.1)),
            ),
          ))
      | inr m ↦ rw m (
          Weighs-kept a b.0 s d k v
            (λ u. holds-Stores u s d k ∙ stored_else _ _ (b.1 == u) m (not_yet u s d k))
            (λ u h. r.weight_at u ∙ if_not b.1 u w (weight_of a u) (not_stored u s d k h)) weighs)
    ]

    stored_key :
        (t s d : ℕ) (k : L)
        → (b.1 == t) ≡ true
        → holds b.0 t s d k ≡ true
        → same_key src dst l s d k ≡ true
    stored_key t s d k i h = sym (holds-Stores t s d k ∙ rw i refl) ∙ h

    kept_key :
        (t s d : ℕ) (k : L) → (b.1 == t) ≡ false → holds b.0 t s d k ≡ true → holds a t s d k ≡ true
    kept_key t s d k i h = sym (holds-Stores t s d k ∙ rw i refl) ∙ h

    module _ (f : IsWellFormed a) (none : (t : ℕ) → holds a t src dst l ≡ false) where
      -- The stored key is that of no other transition.
      new_key :
          (t s d : ℕ) (k : L) → same_key src dst l s d k ≡ true → holds a t s d k ≡ true → t ≡ b.1
      new_key t s d k m h = ground (arith, none t, holds-key a t src dst l s d k m, h)

      unique-Stores :
          (s d : ℕ) (k : L) (t u : ℕ) → holds b.0 t s d k ≡ true → holds b.0 u s d k ≡ true → t ≡ u
      unique-Stores s d k t u h i = elim (Bool-cases (b.1 == t)) [
        | inl m ↦ elim (Bool-cases (b.1 == u)) [
          | inl n ↦ ground (arith, m, n)
          | inr n ↦
              sym ((==_iff b.1 t).0 m)
              ∙ sym (new_key u s d k (stored_key t s d k m h) (kept_key u s d k n i))
        ]
        | inr m ↦ elim (Bool-cases (b.1 == u)) [
          | inl n ↦
              new_key t s d k (stored_key u s d k n i) (kept_key t s d k m h) ∙ (==_iff b.1 u).0 n
          | inr n ↦ f.unique s d k t u (kept_key t s d k m h) (kept_key u s d k n i)
        ]
      ]

      pub Stores-IsWellFormed : ws.is_zero w ≡ false → IsWellFormed b.0
      Stores-IsWellFormed z = record {
        is_consistent = r.is_consistent;
        unique = unique-Stores;
        nonzero = λ u h.
            ap ws.is_zero (r.weight_at u)
            ∙ if_nonzero b.1 u w (weight_of a u) z
                (λ i. f.nonzero u (sym (r.handle_at u ∙ rw i refl) ∙ h));
      }

  module _ (a : MutableAutomaton L K) (t : ℕ) (l : L) (w : K) (f : IsWellFormed a)
      (live : has_handle a t ≡ true) (same : label_of a t ≡ l) where
    handle-overwrite : (u : ℕ) → has_handle (overwrite_transition a t l w) u ≡ has_handle a u
    unfolding has_handle
    handle-overwrite u = rw (if_same (src_of a) t u) refl

    label-overwrite : (u : ℕ) → label_of (overwrite_transition a t l w) u ≡ label_of a u
    label-overwrite u =
        ap (λ z. if t == u then z else label_of a u) (sym same) ∙ if_same (label_of a) t u

    holds-overwrite :
        (u s d : ℕ) (k : L) → holds (overwrite_transition a t l w) u s d k ≡ holds a u s d k
    holds-overwrite u s d k =
        let b = overwrite_transition a t l w in
        ap₂ (λ h x. h && same_key x (dst_of b u) (label_of b u) s d k) (handle-overwrite u)
          (if_same (src_of a) t u)
        ∙ ap₂ (λ y z. has_handle a u && same_key (src_of a u) y z s d k) (if_same (dst_of a) t u)
            (label-overwrite u)

    pub overwrite-IsWellFormed : ws.is_zero w ≡ false → IsWellFormed (overwrite_transition a t l w)
    overwrite-IsWellFormed z = record {
      is_consistent = overwrite_transition-IsConsistent a t l w f.is_consistent;
      unique = λ s d k u v h i.
          f.unique s d k u v (sym (holds-overwrite u s d k) ∙ h)
            (sym (holds-overwrite v s d k) ∙ i);
      nonzero = λ u h.
          if_nonzero t u w (weight_of a u) z (λ i. f.nonzero u (sym (handle-overwrite u) ∙ h));
    }

    pub Weighs-overwrite :
        (s d : ℕ) (k : L) (v : K)
        → Weighs a s d k v
        → Weighs
            (overwrite_transition a t l w)
            s
            d
            k
            (if same_key (src_of a t) (dst_of a t) l s d k then w else v)
    Weighs-overwrite s d k v weighs =
        elim (Bool-cases (same_key (src_of a t) (dst_of a t) l s d k)) [
          | inl m ↦ rw m (
              inr (
                t,
                (
                  holds-overwrite t s d k ∙ rw (live, same, m) refl,
                  sym (if_refl t w (weight_of a t)),
                ),
              ))
          | inr m ↦ rw m (
              Weighs-kept a (overwrite_transition a t l w) s d k v (λ u. holds-overwrite u s d k)
                (λ u h. if_not t u w (weight_of a u) (other_key a t u s d k h (rw same m))) weighs)
        ]
