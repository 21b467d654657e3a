-- ===== src/Algos/Checks/Deterministic.antt =====
-- `is_deterministic` (vcsn/algos/is-deterministic.hh) decides that at most one transition is initial
-- and that no two transitions from a state have the same label.
use vcsn.Base.{
  ℕ, ◌≤◌, ◌<◌, ◌==◌, ◌≡◌, ◌↔◌, ltb, List, [], ◌∷◌, true, false, arith, refl, Eq, Bool-cases, inl,
  inr, sym, ap, ◌∙◌, ==_iff, subst,
}
use vcsn.Automaton.{MutableAutomaton, post, src_of, label_of, succ_of}
use vcsn.Automaton.Handles.{count}
use vcsn.Automaton.Queries.{has_state, has_handle, num_initials}
use vcsn.Automaton.Ranges.{all_out, states}
use vcsn.Automaton.Consistent.{IsConsistent, has_state_lt}
use vcsn.Algos.Checks.{has, for_all, distinct_labels, is_deterministic_state, is_deterministic}
use vcsn.Algos.Checks.Members.{for_all_iff, states_iff}

few : (n : ℕ) → n ≤ 1 → ltb 1 n ≡ false
few n h = ground arith

module _ {L : Type 0} ⦃e : Eq L⦄ where
  beq_refl : (l : L) → e.beq l l ≡ true
  beq_refl l = (e.beq_iff l l).1 refl

module _ {L K : Type 0} ⦃e : Eq L⦄ where
  -- At most one transition is initial, and a state and a label determine the transition.
  pub record IsDeterministic (a : MutableAutomaton L K) : Type 0 where
    pub one_initial : num_initials a ≤ 1
    pub one_successor :
        (t u : ℕ)
        → has_handle a t ≡ true
        → has_handle a u ≡ true
        → post < src_of a t
        → src_of a t ≡ src_of a u
        → label_of a t ≡ label_of a u
        → t ≡ u

  -- What the loop on the transitions decides, with the labels that were seen.
  record Distinct (a : MutableAutomaton L K) (seen : List L) (ts : List ℕ) : Type 0 where
    new : (t : ℕ) → 1 ≤ count t ts → has (label_of a t) seen ≡ false
    apart : (t u : ℕ) → 1 ≤ count t ts → 1 ≤ count u ts → label_of a t ≡ label_of a u → t ≡ u

  module _ (a : MutableAutomaton L K) where
    not_later :
        (t u : ℕ) (seen : List L)
        → has (label_of a u) (label_of a t ∷ seen) ≡ false
        → label_of a u ≡ label_of a t
        → (u == t) ≡ true
    not_later t u seen h k =
        ground (arith, h, ap (λ l. e.beq l (label_of a t)) k, beq_refl (label_of a t))

    Distinct-distinct_labels :
        (ts : List ℕ) (seen : List L) → distinct_labels a seen ts ≡ true → Distinct a seen ts
    unfolding distinct_labels
    Distinct-distinct_labels [] seen h = record {
      new = λ t k. ground (arith, k);
      apart = λ t u k. ground (arith, k);
    }
    Distinct-distinct_labels (t ∷ ts) seen h = elim (Bool-cases (has (label_of a t) seen)) [
      | inl i ↦ ground (arith, h, i)
      | inr i ↦
          let rest = Distinct-distinct_labels ts (label_of a t ∷ seen) (sym (rw i refl) ∙ h) in
          record {
            new = λ u k. elim (Bool-cases (u == t)) [
              | inl m ↦ ap (λ z. has (label_of a z) seen) ((==_iff u t).0 m) ∙ i
              | inr m ↦ ground (arith, rest.new u (ground (arith, k, m)))
            ];
            apart = λ u v k l same. elim (Bool-cases (u == t)) [
              | inl m ↦ elim (Bool-cases (v == t)) [
                | inl n ↦ ground (arith, m, n)
                | inr n ↦ ground (
                  arith,
                  not_later t v seen (rest.new v (ground (arith, l, n)))
                      (sym same ∙ ap (label_of a) ((==_iff u t).0 m)),
                  n,
                )
              ]
              | inr m ↦ elim (Bool-cases (v == t)) [
                | inl n ↦ ground (
                  arith,
                  not_later t u seen (rest.new u (ground (arith, k, m)))
                      (same ∙ ap (label_of a) ((==_iff v t).0 n)),
                  m,
                )
                | inr n ↦ rest.apart u v (ground (arith, k, m)) (ground (arith, l, n)) same
              ]
            ];
          }
    ]

    distinct_labels-Distinct :
        (ts : List ℕ) (seen : List L)
        → ((t : ℕ) → count t ts ≤ 1)
        → Distinct a seen ts
        → distinct_labels a seen ts ≡ true
    unfolding distinct_labels
    distinct_labels-Distinct [] seen once d = refl
    distinct_labels-Distinct (t ∷ ts) seen once d = rw (d.new t (ground arith)) (
        distinct_labels-Distinct ts (label_of a t ∷ seen) (λ u. omega (arith, once u))
          (record {
            new = λ u k. elim (Bool-cases (e.beq (label_of a u) (label_of a t))) [
              | inl x ↦
                  let same = d.apart u t (omega (arith, k)) (ground arith) ((e.beq_iff _ _).0 x) in
                  ground (arith, once t, ap (λ z. count z ts) same, k)
              | inr x ↦ ground (arith, x, d.new u (omega (arith, k)))
            ];
            apart = λ u v k l same. d.apart u v (omega (arith, k)) (omega (arith, l)) same;
          }))

    is_deterministic_state_iff :
        (s : ℕ)
        → ((t : ℕ) → count t (succ_of a s) ≤ 1)
        → (is_deterministic_state a s ≡ true) ↔ Distinct a [] (succ_of a s)
    unfolding is_deterministic_state all_out
    is_deterministic_state_iff s once =
        (Distinct-distinct_labels (succ_of a s) [], distinct_labels-Distinct (succ_of a s) [] once)

  module _ (a : MutableAutomaton L K) (c : IsConsistent a) where
    once : (s : ℕ) → has_state a s ≡ true → (t : ℕ) → count t (succ_of a s) ≤ 1
    once s live t = ground (arith, c.succ_count s t live)

    listed : (t : ℕ) → has_handle a t ≡ true → (s : ℕ) → src_of a t ≡ s → 1 ≤ count t (succ_of a s)
    listed t live s same =
        subst (λ z. 1 ≤ count t (succ_of a z)) same
          (ground (arith, c.succ_count (src_of a t) t (c.src_live t live), live))

    all_states_iff :
        (for_all (is_deterministic_state a) (states a) ≡ true)
        ↔ ((s : ℕ) → post < s → has_state a s ≡ true → Distinct a [] (succ_of a s))
    all_states_iff =
        let lt = has_state_lt a post c.post_live in
        (
          λ h s le live. (is_deterministic_state_iff a s (once s live)).0 (
              (for_all_iff (is_deterministic_state a) (states a)).0 h s
                ((states_iff a s lt).1 (le, live))),
          λ h. (for_all_iff (is_deterministic_state a) (states a)).1 (λ s k.
              let this = (states_iff a s lt).0 k in
              (is_deterministic_state_iff a s (once s this.1)).1 (h s this.0 this.1)),
        )

    leaving :
        (s t : ℕ)
        → has_state a s ≡ true
        → 1 ≤ count t (succ_of a s)
        → (has_handle a t ≡ true) × (src_of a t ≡ s)
    leaving s t live k =
        (ground (arith, c.succ_count s t live, k), ground (arith, c.succ_count s t live, k))

    Distinct-from :
        IsDeterministic a → (s : ℕ) → post < s → has_state a s ≡ true → Distinct a [] (succ_of a s)
    Distinct-from d s le live = record {
      new = λ t k. refl;
      apart = λ t u k l same.
          let one = leaving s t live k in
          let two = leaving s u live l in
          d.one_successor t u one.0 two.0 (omega (arith, le, one.1)) (one.1 ∙ sym two.1) same;
    }

    IsDeterministic-from :
        num_initials a ≤ 1
        → ((s : ℕ) → post < s → has_state a s ≡ true → Distinct a [] (succ_of a s))
        → IsDeterministic a
    IsDeterministic-from le h = record {
      one_initial = le;
      one_successor = λ t u lt lu above same labels.
          (h (src_of a t) above (c.src_live t lt)).apart t u (listed t lt (src_of a t) refl)
            (listed u lu (src_of a t) (sym same)) labels;
    }

    -- On consistent tables, `is_deterministic` answers true if and only if at most one transition
    -- is initial and no two transitions from a state other than `pre` and `post` have the same
    -- label.
    pub is_deterministic_iff : (is_deterministic a ≡ true) ↔ IsDeterministic a
    unfolding is_deterministic all_out num_initials
    is_deterministic_iff = (
      λ h. elim (Bool-cases (ltb 1 (num_initials a))) [
        | inl e ↦ ground (arith, h, e)
        | inr e ↦ IsDeterministic-from (ground arith) (all_states_iff.0 (sym (rw e refl) ∙ h))
      ],
      λ d. rw (few (num_initials a) d.one_initial) (all_states_iff.1 (Distinct-from d)),
    )
