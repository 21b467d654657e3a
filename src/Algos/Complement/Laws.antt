-- ===== src/Algos/Complement/Laws.antt =====
-- The complement (vcsn/algos/complement.hh) changes the final weights of the states and nothing else.
use vcsn.Base.{
  ℕ, zero, suc, ltb, ◌+◌, ◌≤◌, ◌<◌, ◌==◌, ◌≡◌, leb, List, [], ◌∷◌, Bool, true, false, ◌&&◌, ◌||◌,
  arith, refl, Eq, length, ok, Error, require, if◌then◌else◌, Bool-cases, inl, inr, sym, ap, ◌∙◌,
  ==_iff, subst,
}
use vcsn.Weight.{Weightset, IsSemiring}
use vcsn.Automaton.{MutableAutomaton, post, null_transition, lazy_transition}
use vcsn.Automaton.Handles.{count}
use vcsn.Automaton.Queries.{has_state, get_transition}
use vcsn.Automaton.Edit.{
  append_transition, reuse_transition, store_transition, new_transition, set_transition, set_final,
  unset_final, del_handle, del_transition_from_dst, del_transition_from_src,
}
use vcsn.Automaton.Ranges.{states}
use vcsn.Automaton.Consistent.{has_state_lt}
use vcsn.Automaton.Lookup.{same_key}
use vcsn.Automaton.Weights.{IsWellFormed, Weighs, weight_at, weight_at-Weighs, Weighs-unique}
use vcsn.Automaton.Refine.{Updates, set_transition-Updates}
use vcsn.Algos.Checks.{is_deterministic, is_complete}
use vcsn.Algos.Checks.Members.{states_iff}
use vcsn.Algos.Complement.{final_states, complement_state, complement_states, complement_here}

-- What an edition keeps: the label of the initial and final transitions, and all handles but one.
abbrev Frames : {L K : Type 0} → MutableAutomaton L K → MutableAutomaton L K → Type 0
Frames a b = (b.prepost_label ≡ a.prepost_label) × (b.transitions_size ≤ a.transitions_size + 1)

abbrev Framed : {L K : Type 0} → MutableAutomaton L K → MutableAutomaton L K × ℕ → Type 0
Framed a b = Frames a b.0

-- The final weight that a state has in the complement.
abbrev pub flipped : {K : Type 0} → ⦃ws : Weightset K⦄ → List ℕ → ℕ → K
flipped ⦃ws = ws⦄ finals s = if leb 1 (count s finals) then ws.zero else ws.one

ok_of_require :
    {A : Type 0}
    → (p q : Bool) (x y : A)
    → require p Error.invalid_arguments (require q Error.invalid_arguments (ok x)) ≡ ok y
    → x ≡ y
ok_of_require true true x y h = cc
ok_of_require true false x y h = cc
ok_of_require false q x y h = cc

seldom : (n s : ℕ) → ltb post s ≡ false → (1 ≤ n → post < s) → leb 1 n ≡ ltb post s
seldom zero s h k = rw h refl
seldom (suc n) s h k = ground (arith, h, k (omega arith))

merge_by :
    {K : Type 0}
    → (m c r : Bool) (x y v : K) → (m ≡ true → x ≡ y)
    → (if c && r then y else (if m && r then x else v)) ≡ (if (m || c) && r then y else v)
merge_by true true true x y v h = refl
merge_by true true false x y v h = refl
merge_by true false true x y v h = h refl
merge_by true false false x y v h = refl
merge_by false true true x y v h = refl
merge_by false true false x y v h = refl
merge_by false false r x y v h = refl

listed : (s q : ℕ) (ss : List ℕ) → ((s == q) || leb 1 (count q ss)) ≡ leb 1 (count q (s ∷ ss))
listed s q ss = ground arith

merged :
    {K : Type 0}
    → (s q : ℕ) (ss : List ℕ) (r : Bool) (f : ℕ → K) (v : K)
    → (if leb 1 (count q ss) && r then f q else (if (s == q) && r then f s else v))
      ≡ (if leb 1 (count q (s ∷ ss)) && r then f q else v)
merged s q ss r f v =
    merge_by (s == q) (leb 1 (count q ss)) r (f s) (f q) v (λ m. ap f ((==_iff s q).0 m))
    ∙ ap (λ p. if p && r then f q else v) (listed s q ss)

module _ {L K : Type 0} where
  store-Frames :
      (a : MutableAutomaton L K) (src dst : ℕ) (l : L) (w : K) (fs : List ℕ)
      → Framed a (elim fs [
        | [] ↦ append_transition a src dst l w
        | u ∷ us ↦ reuse_transition a u us src dst l w
      ])
  store-Frames a src dst l w [] = (refl, omega arith)
  store-Frames a src dst l w (u ∷ us) = (refl, omega arith)

module _ {L K : Type 0} ⦃e : Eq L⦄ ⦃ws : Weightset K⦄ where
  new_transition-Frames :
      (a : MutableAutomaton L K) (src dst : ℕ) (l : L) (w : K)
      → Frames a (new_transition a src dst l w).0
  unfolding new_transition store_transition
  new_transition-Frames a src dst l w = elim (Bool-cases (ws.is_zero w)) [
    | inl z ↦ rw z (refl, omega arith)
    | inr z ↦ rw z (store-Frames a src dst l w a.transitions_fs)
  ]

  set_transition-Frames :
      (a : MutableAutomaton L K) (src dst : ℕ) (l : L) (w : K)
      → Frames a (set_transition a src dst l w).0
  unfolding set_transition del_handle del_transition_from_dst del_transition_from_src
  set_transition-Frames a src dst l w =
      elim (Bool-cases (get_transition a src dst l == null_transition)) [
        | inl t ↦ rw t (new_transition-Frames a src dst l w)
        | inr t ↦ elim (Bool-cases (ws.is_zero w)) [
          | inl z ↦ rw (t, z) (refl, omega arith)
          | inr z ↦ rw (t, z) (refl, omega arith)
        ]
      ]

  complement_state_lem :
      (finals : List ℕ) (a : MutableAutomaton L K) (s : ℕ)
      → complement_state finals a s ≡ (set_transition a s post a.prepost_label (flipped finals s)).0
  unfolding complement_state unset_final set_final
  complement_state_lem finals a s = elim (Bool-cases (leb 1 (count s finals))) [
    | inl h ↦ rw h refl
    | inr h ↦ rw h refl
  ]

  -- `b` is `a` with the final weights of the states `ss` flipped.
  record Flipped (finals : List ℕ) (a : MutableAutomaton L K) (ss : List ℕ)
      (b : MutableAutomaton L K) : Type 0 where
    is_well_formed : IsWellFormed b
    state_at : (q : ℕ) → has_state b q ≡ has_state a q
    same_label : b.prepost_label ≡ a.prepost_label
    weighs :
        (s d : ℕ) (k : L) (v : K)
        → Weighs a s d k v
        → Weighs b s d k (
            if leb 1 (count s ss) && ((post == d) && e.beq a.prepost_label k)
            then flipped finals s
            else v)

  complement_states-Flipped :
      (finals ss : List ℕ) (a : MutableAutomaton L K)
      → IsSemiring ws
      → IsWellFormed a
      → a.transitions_size + length ss ≤ lazy_transition
      → ((s : ℕ) → 1 ≤ count s ss → has_state a s ≡ true)
      → Flipped finals a ss (complement_states finals ss a)
  unfolding complement_states
  complement_states-Flipped finals [] a sr f room live = record {
    is_well_formed = f;
    state_at = λ q. refl;
    same_label = refl;
    weighs = λ s d k v h. h;
  }
  complement_states-Flipped finals (s ∷ ss) a sr f room live =
      let b = complement_state finals a s in
      let frame =
        subst (Frames a) (sym (complement_state_lem finals a s))
          (set_transition-Frames a s post a.prepost_label (flipped finals s)) in
      let u =
        subst (λ x. Updates a x s post a.prepost_label (flipped finals s))
          (sym (complement_state_lem finals a s))
          (set_transition-Updates a f s post a.prepost_label (live s (ground arith))
            f.is_consistent.post_live sr (flipped finals s) (omega (arith, room))) in
      let rest =
        complement_states-Flipped finals ss b sr u.is_well_formed (omega (arith, room, frame.1))
          (λ q h. u.state_at q ∙ live q (omega (arith, h))) in
      record {
        is_well_formed = rest.is_well_formed;
        state_at = λ q. rest.state_at q ∙ u.state_at q;
        same_label = rest.same_label ∙ frame.0;
        weighs = λ q d k v h.
            subst (Weighs (complement_states finals ss b) q d k)
              (ap
                  (λ l.
                    if leb 1 (count q ss) && ((post == d) && e.beq l k)
                    then flipped finals q
                    else (if same_key s post a.prepost_label q d k then flipped finals s else v))
                  frame.0
                ∙ merged s q ss _ (flipped finals) v)
              (rest.weighs q d k _ (u.weighs q d k v h));
      }

  in_states :
      (a : MutableAutomaton L K) (s : ℕ)
      → 1 < a.states_size
      → has_state a s ≡ true
      → leb 1 (count s (states a)) ≡ ltb post s
  in_states a s lt live = elim (Bool-cases (ltb post s)) [
    | inl h ↦ ground (arith, h, (states_iff a s lt).1 (ground arith, live))
    | inr h ↦ seldom (count s (states a)) s h (λ m. ((states_iff a s lt).0 m).0)
  ]

  -- Over any semiring of weights and on a well-formed automaton with free handles for all its
  -- states, a successful `complement_here` gives each state other than `pre` and `post` the final
  -- weight zero where a transition led to `post` and one where none did, and changes no other
  -- weight between states.
  pub weight_at-complement_here :
      (a b : MutableAutomaton L K) (letters : List L) (s d : ℕ) (k : L)
      → IsSemiring ws
      → IsWellFormed a
      → a.transitions_size + length (states a) ≤ lazy_transition
      → has_state a s ≡ true
      → has_state a d ≡ true
      → complement_here a letters ≡ ok b
      → weight_at b s d k ≡ (
          if ltb post s && ((post == d) && e.beq a.prepost_label k)
          then flipped (final_states a) s
          else weight_at a s d k)
  unfolding complement_here
  weight_at-complement_here a b letters s d k sr f room hs hd h =
      let all =
        complement_states-Flipped (final_states a) (states a) a sr f room
          (λ q m. ((states_iff a q (has_state_lt a post f.is_consistent.post_live)).0 m).1) in
      let c = complement_states (final_states a) (states a) a in
      let same = ok_of_require (is_deterministic a) (is_complete a letters) c b h in
      subst
        (λ x. weight_at x s d k ≡ (
          if ltb post s && ((post == d) && e.beq a.prepost_label k)
          then flipped (final_states a) s
          else weight_at a s d k))
        same
        (Weighs-unique c s d k _ _ all.is_well_formed
          (weight_at-Weighs c s d k all.is_well_formed.is_consistent (all.state_at s ∙ hs)
            (all.state_at d ∙ hd))
          (subst
            (λ p. Weighs c s d k (
              if p && ((post == d) && e.beq a.prepost_label k)
              then flipped (final_states a) s
              else weight_at a s d k))
            (in_states a s (has_state_lt a post f.is_consistent.post_live) hs)
            (all.weighs s d k _ (weight_at-Weighs a s d k f.is_consistent hs hd))))
