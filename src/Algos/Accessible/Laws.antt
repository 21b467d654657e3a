-- ===== src/Algos/Accessible/Laws.antt =====
-- The search of vcsn/algos/accessible.hh ends, and finds the states to which a path leads from pre.
use vcsn.Base.{
  ℕ, zero, suc, ◌+◌, ◌≤◌, ◌==◌, ◌≡◌, ◌↔◌, List, [], ◌∷◌, Bool, true, false, arith, refl, length,
  some, ap, ◌∙◌, Bool-cases, inl, inr, sym, ==_iff, subst, ◌||◌, not,
}
use vcsn.Automaton.{MutableAutomaton, pre, dst_of, succ_of}
use vcsn.Automaton.Handles.{count}
use vcsn.Automaton.Queries.{has_state, is_lazy}
use vcsn.Automaton.Ranges.{all_out}
use vcsn.Automaton.Consistent.{IsConsistent, has_state_lt}
use vcsn.Automaton.Edit.{set_lazy}
use vcsn.Algos.Accessible.{
  Search, visit, visit_all, is_explored, expand, explore, seen_of, accessible_states,
}
use vcsn.Algos.Accessible.Unseen.{unseen, unseen-one}
use vcsn.Algos.Accessible.Visits.{visit_all-Grown}

-- There is a path from pre to the state, through states that the search explores.
pub data Accessible {L K : Type 0} (a : MutableAutomaton L K) (strict : Bool) : ℕ → Type 0 where
  at_pre : Accessible a strict pre
  along :
      (s t : ℕ)
      → Accessible a strict s
      → (strict || not (is_lazy a s)) ≡ true
      → 1 ≤ count t (succ_of a s)
      → Accessible a strict (dst_of a t)

-- The transitions from the states that the search explores lead to states.
pub record IsExplorable {L K : Type 0} (a : MutableAutomaton L K) (strict : Bool) : Type 0 where
  pub pre_state : has_state a pre ≡ true
  pub dst_state :
      (s t : ℕ)
      → has_state a s ≡ true
      → (strict || not (is_lazy a s)) ≡ true
      → 1 ≤ count t (succ_of a s)
      → has_state a (dst_of a t) ≡ true

abbrev with_todo : Search → List ℕ → Search
with_todo s us = record s { todo = us }

or_else : (x y : ℕ) → 1 ≤ x + y → (1 ≤ x → 1 ≤ y) → 1 ≤ y
or_else zero y h k = omega (arith, h)
or_else (suc x) y h k = k (omega arith)

or_zero : (x y : ℕ) → 1 ≤ x + y → y ≡ 0 → 1 ≤ x
or_zero x y h k = omega (arith, h, k)

only_pre : (q : ℕ) → 1 ≤ count q (pre ∷ []) → q ≡ pre
only_pre q h = ground arith

none : (x n : ℕ) → (1 ≤ x → 1 ≤ n) → n ≡ 0 → 0 + x ≡ 0
none zero n h k = omega arith
none (suc x) n h k = omega (arith, h (omega arith), k)

not_todo :
    (q src : ℕ) (rest : List ℕ) (n : ℕ)
    → (q == src) ≡ false
    → (1 ≤ count q rest → 1 ≤ n)
    → n ≡ 0
    → count q (src ∷ rest) ≡ 0
not_todo q src rest n e h k = rw e (none (count q rest) n h k)

module _ {L K : Type 0} (a : MutableAutomaton L K) (strict : Bool) (c : IsExplorable a strict) where
  Accessible-has_state : (q : ℕ) → Accessible a strict q → has_state a q ≡ true
  Accessible-has_state q at_pre = c.pre_state
  Accessible-has_state q (along s t path x h) = c.dst_state s t (Accessible-has_state s path) x h

  -- What holds between two turns of the search, with fuel for the turns to come.
  record Searching (fuel : ℕ) (s : Search) : Type 0 where
    from_pre : 1 ≤ count pre s.seen
    sound : (q : ℕ) → 1 ≤ count q s.seen → Accessible a strict q
    todo_seen : (q : ℕ) → 1 ≤ count q s.todo → 1 ≤ count q s.seen
    done :
        (q t : ℕ)
        → 1 ≤ count q s.seen
        → count q s.todo ≡ 0
        → is_explored a strict q ≡ true
        → 1 ≤ count t (succ_of a q)
        → 1 ≤ count (dst_of a t) s.seen
    measure : length s.todo + unseen s.seen 0 a.states_size ≤ fuel
    credit_left : unseen s.seen 0 a.states_size ≤ s.credit

  visit_sound :
      (s : Search) (t : ℕ)
      → Accessible a strict (dst_of a t)
      → ((q : ℕ) → 1 ≤ count q s.seen → Accessible a strict q)
      → (q : ℕ) → 1 ≤ count q (visit a s t).seen
      → Accessible a strict q
  unfolding visit
  visit_sound s t h k q l = elim (Bool-cases (count (dst_of a t) s.seen == 0)) [
    | inl e ↦ elim (Bool-cases (q == dst_of a t)) [
      | inl m ↦ subst (Accessible a strict) (sym ((==_iff q (dst_of a t)).0 m)) h
      | inr m ↦ k q (ground (arith, l, e, m))
    ]
    | inr e ↦ k q (ground (arith, l, e))
  ]

  -- What is seen in one turn is the successor of the state, or was seen.
  visit_all_sound :
      (ts : List ℕ) (s : Search)
      → ((t : ℕ) → 1 ≤ count t ts → Accessible a strict (dst_of a t))
      → ((q : ℕ) → 1 ≤ count q s.seen → Accessible a strict q)
      → (q : ℕ) → 1 ≤ count q (visit_all a s ts).seen
      → Accessible a strict q
  unfolding visit_all
  visit_all_sound [] s h k q l = k q l
  visit_all_sound (t ∷ ts) s h k q l =
      visit_all_sound ts (visit a s t) (λ u m. h u (omega (arith, m)))
        (visit_sound s t (h t (ground arith)) k) q l

  expand_all :
      (n src : ℕ) (rest : List ℕ) (s : Search)
      → Searching (suc n) (with_todo s (src ∷ rest))
      → Accessible a strict src
      → is_explored a strict src ≡ true
      → Searching n (visit_all a (with_todo s rest) (succ_of a src))
  expand_all n src rest s i path x =
      let live = Accessible-has_state src path in
      let g =
        visit_all-Grown a (succ_of a src) (with_todo s rest)
          (λ t h. has_state_lt a (dst_of a t) (c.dst_state src t live x h)) i.credit_left in
      record {
        from_pre = g.0.seen_more pre i.from_pre;
        sound =
            visit_all_sound (succ_of a src) (with_todo s rest) (λ t h. along src t path x h)
              i.sound;
        todo_seen = λ q h.
            or_else _ _ (g.0.todo_from q h)
              (λ k. g.0.seen_more q (i.todo_seen q (omega (arith, k))));
        done = λ q t h k y l.
            let old = or_zero _ _ (g.0.seen_from q h) k in
            elim (Bool-cases (q == src)) [
              | inl e ↦ g.1 t (subst (λ z. 1 ≤ count t (succ_of a z)) ((==_iff q src).0 e) l)
              | inr e ↦
                  g.0.seen_more (dst_of a t)
                    (i.done q t old (not_todo q src rest _ e (g.0.todo_more q) k) y l)
            ];
        measure = omega (arith, g.0.measure, i.measure);
        credit_left = g.0.credit_left;
      }

  -- A state that is not explored is taken from the work list, and that is all.
  expand_none :
      (n src : ℕ) (rest : List ℕ) (s : Search)
      → Searching (suc n) (with_todo s (src ∷ rest))
      → is_explored a strict src ≡ false
      → Searching n (with_todo s rest)
  expand_none n src rest s i x = record {
    from_pre = i.from_pre;
    sound = i.sound;
    todo_seen = λ q h. i.todo_seen q (omega (arith, h));
    done = λ q t h k y l. elim (Bool-cases (q == src)) [
      | inl e ↦ absurd (cc (sym y ∙ ap (is_explored a strict) ((==_iff q src).0 e) ∙ x))
      | inr e ↦ i.done q t h (not_todo q src rest _ e (λ m. m) k) y l
    ];
    measure = omega (arith, i.measure);
    credit_left = i.credit_left;
  }

  expand-Searching :
      (n src : ℕ) (rest : List ℕ) (s : Search)
      → Searching (suc n) (with_todo s (src ∷ rest))
      → Searching n (expand a strict src (with_todo s rest))
  unfolding expand all_out visit_all
  expand-Searching n src rest s i = elim (Bool-cases (is_explored a strict src)) [
    | inl x ↦ rw x (expand_all n src rest s i (i.sound src (i.todo_seen src (ground arith))) x)
    | inr x ↦ rw x (expand_none n src rest s i x)
  ]

  -- What holds at the end of the search.
  record Closed (seen : List ℕ) : Type 0 where
    has_pre : 1 ≤ count pre seen
    sound : (q : ℕ) → 1 ≤ count q seen → Accessible a strict q
    closed :
        (q t : ℕ)
        → 1 ≤ count q seen
        → is_explored a strict q ≡ true
        → 1 ≤ count t (succ_of a q)
        → 1 ≤ count (dst_of a t) seen

  finished : (n : ℕ) (s : Search) → Searching n (with_todo s []) → Closed s.seen
  finished n s i = record {
    has_pre = i.from_pre;
    sound = i.sound;
    closed = λ q t h y k. i.done q t h refl y k;
  }

  -- The work list is empty before the turns are used up.
  explore-Closed :
      (n : ℕ) (us : List ℕ) (s : Search)
      → Searching n (with_todo s us)
      → (r : Search) × (explore a strict n (with_todo s us) ≡ some r) × Closed r.seen
  unfolding explore
  explore-Closed zero [] s i = (with_todo s [], refl, finished zero s i)
  explore-Closed zero (u ∷ us) s i = absurd (omega (arith, i.measure))
  explore-Closed (suc n) [] s i = (with_todo s [], refl, finished (suc n) s i)
  explore-Closed (suc n) (u ∷ us) s i =
      let next = expand a strict u (with_todo s us) in
      explore-Closed n next.todo next (expand-Searching n u us s i)

  Closed-complete :
      (seen : List ℕ) → Closed seen → (q : ℕ) → Accessible a strict q → 1 ≤ count q seen
  Closed-complete seen h q at_pre = h.has_pre
  Closed-complete seen h q (along s t path x k) = h.closed s t (Closed-complete seen h s path) x k

  -- Where `pre` is a state and the transitions from the states that the search explores lead to
  -- states, with a credit not below the number of slots for states, as the default one is: the
  -- work list is empty before the turns are used up, and what is found is exactly the states to
  -- which transitions lead from `pre` through explored states, which are all the states if
  -- `strict`, and those that are not lazy otherwise.
  pub accessible_states_iff :
      (credit : ℕ)
      → a.states_size ≤ credit
      → (seen : List ℕ) × (accessible_states a strict credit ≡ some seen)
        × ((q : ℕ) → (1 ≤ count q seen) ↔ Accessible a strict q)
  unfolding accessible_states
  accessible_states_iff credit le =
      let lt = has_state_lt a pre c.pre_state in
      let one = unseen-one pre a.states_size lt in
      let (r, ended, all) =
        explore-Closed a.states_size (pre ∷ [])
          (record { seen = pre ∷ []; todo = pre ∷ []; credit = credit })
          (record {
            from_pre = omega arith;
            sound = λ q h. subst (Accessible a strict) (sym (only_pre q h)) at_pre;
            todo_seen = λ q h. h;
            done = λ q t h k y l. ground (arith, h, k);
            measure = omega (arith, one);
            credit_left = omega (arith, one, le);
          }) in
      (r.seen, ap seen_of ended, λ q. (all.sound q, Closed-complete r.seen all q))

-- Consistent tables, where no state is lazy, are explorable.
module _ {L K : Type 0} (a : MutableAutomaton L K) (c : IsConsistent a) where
  IsConsistent-IsExplorable : (strict : Bool) → IsExplorable a strict
  IsConsistent-IsExplorable strict = record {
    pre_state = c.pre_live;
    dst_state = λ s t hs x h. c.dst_live t (ground (arith, c.succ_count s t hs, h));
  }

  set_lazy-has_state : (s q : ℕ) → has_state a q ≡ true → has_state (set_lazy a s true) q ≡ true
  unfolding set_lazy has_state
  set_lazy-has_state s q h = elim (Bool-cases (s == q)) [
    | inl e ↦ rw e (ground (arith, h))
    | inr e ↦ rw e h
  ]

  -- So they are once a state is lazy, where lazy states are left aside.
  pub set_lazy-IsExplorable : (s : ℕ) → IsExplorable (set_lazy a s true) false
  unfolding set_lazy has_state is_lazy
  set_lazy-IsExplorable s = record {
    pre_state = set_lazy-has_state s pre c.pre_live;
    dst_state = λ q t hq x h. elim (Bool-cases (s == q)) [
      | inl e ↦ absurd (ground (arith, e, x))
      | inr e ↦
          let hs : has_state a q ≡ true = ground (arith, e, hq) in
          let out : 1 ≤ count t (succ_of a q) = ground (arith, e, h) in
          set_lazy-has_state s (dst_of a t)
            (c.dst_live t (ground (arith, c.succ_count q t hs, out)))
    ];
  }
