-- ===== src/Algos/Accessible/Visits.antt =====
-- What the inner loop of the search (vcsn/algos/accessible.hh) does to the states that are seen and
-- to the work list, as long as the credit is not exhausted.
use vcsn.Base.{
  ℕ, zero, suc, ◌+◌, ◌≤◌, ◌<◌, ◌==◌, ◌≡◌, List, [], ◌∷◌, false, arith, refl, length, if◌then◌else◌,
  Bool-cases, inl, inr, sym, ◌∙◌, ==_iff, subst,
}
use vcsn.Automaton.{MutableAutomaton, dst_of}
use vcsn.Automaton.Handles.{count, count-push_back, push_back}
use vcsn.Algos.Accessible.{Search, decrement, visit, visit_all}
use vcsn.Algos.Accessible.Unseen.{unseen, unseen-new}

-- `r` is a later state of the search than `s`, for an automaton with `n` slots.
pub record Grown (n : ℕ) (s r : Search) : Type 0 where
  pub seen_more : (q : ℕ) → 1 ≤ count q s.seen → 1 ≤ count q r.seen
  pub todo_more : (q : ℕ) → 1 ≤ count q s.todo → 1 ≤ count q r.todo
  -- What is seen for the first time is to be done.
  pub seen_from : (q : ℕ) → 1 ≤ count q r.seen → 1 ≤ count q s.seen + count q r.todo
  pub todo_from : (q : ℕ) → 1 ≤ count q r.todo → 1 ≤ count q s.todo + count q r.seen
  pub measure : length r.todo + unseen r.seen 0 n ≡ length s.todo + unseen s.seen 0 n
  pub credit_left : unseen r.seen 0 n ≤ r.credit

length-push_back : (us : List ℕ) (d : ℕ) → length (push_back us d) ≡ length us + 1
length-push_back [] d = refl
length-push_back (u ∷ us) d = omega (arith, length-push_back us d)

Grown-refl : (n : ℕ) (s : Search) → unseen s.seen 0 n ≤ s.credit → Grown n s s
Grown-refl n s le = record {
  seen_more = λ q h. h;
  todo_more = λ q h. h;
  seen_from = λ q h. omega (arith, h);
  todo_from = λ q h. omega (arith, h);
  measure = refl;
  credit_left = le;
}

chain : (x y z w : ℕ) → 1 ≤ x + y → (1 ≤ x → 1 ≤ z + w) → (1 ≤ w → 1 ≤ y) → 1 ≤ z + y
chain zero y z w h k l = omega (arith, h)
chain (suc x) y z zero h k l = omega (arith, k (omega arith))
chain (suc x) y z (suc w) h k l = omega (arith, l (omega arith))

Grown-trans : (n : ℕ) (s r u : Search) → Grown n s r → Grown n r u → Grown n s u
Grown-trans n s r u g h = record {
  seen_more = λ q k. h.seen_more q (g.seen_more q k);
  todo_more = λ q k. h.todo_more q (g.todo_more q k);
  seen_from = λ q k. chain _ _ _ _ (h.seen_from q k) (g.seen_from q) (h.todo_more q);
  todo_from = λ q k. chain _ _ _ _ (h.todo_from q k) (g.todo_from q) (h.seen_more q);
  measure = h.measure ∙ g.measure;
  credit_left = h.credit_left;
}

positive : (c : ℕ) → 1 ≤ c → (c == 0) ≡ false
positive c h = ground arith

module _ {L K : Type 0} (a : MutableAutomaton L K) where
  new-Grown :
      (s : Search) (d : ℕ)
      → d < a.states_size
      → count d s.seen ≡ 0
      → unseen s.seen 0 a.states_size ≤ s.credit
      → Grown a.states_size s (record {
        seen = d ∷ s.seen;
        todo = if s.credit == 0 then s.todo else push_back s.todo d;
        credit = decrement s.credit;
      })
  new-Grown s d lt new le =
      let fresh = unseen-new d s.seen 0 a.states_size (omega arith) (omega (arith, lt)) new in
      rw (positive s.credit (omega (arith, fresh, le))) (record {
        seen_more = λ q h. omega (arith, h);
        todo_more = λ q h. omega (arith, h, count-push_back q d s.todo);
        seen_from = λ q h. omega (arith, h, count-push_back q d s.todo);
        todo_from = λ q h. omega (arith, h, count-push_back q d s.todo);
        measure = omega (arith, length-push_back s.todo d, fresh);
        credit_left = omega (arith, fresh, le);
      })

  visit-Grown :
      (s : Search) (t : ℕ)
      → dst_of a t < a.states_size
      → unseen s.seen 0 a.states_size ≤ s.credit
      → Grown a.states_size s (visit a s t) × (1 ≤ count (dst_of a t) (visit a s t).seen)
  unfolding visit
  visit-Grown s t lt le = elim (Bool-cases (count (dst_of a t) s.seen == 0)) [
    | inl e ↦ rw e (new-Grown s (dst_of a t) lt (ground arith) le, ground arith)
    | inr e ↦ rw e (Grown-refl a.states_size s le, ground arith)
  ]

  pub visit_all-Grown :
      (ts : List ℕ) (s : Search)
      → ((t : ℕ) → 1 ≤ count t ts → dst_of a t < a.states_size)
      → unseen s.seen 0 a.states_size ≤ s.credit
      → Grown a.states_size s (visit_all a s ts)
        × ((t : ℕ) → 1 ≤ count t ts → 1 ≤ count (dst_of a t) (visit_all a s ts).seen)
  unfolding visit_all
  visit_all-Grown [] s lt le = (Grown-refl a.states_size s le, λ t h. ground (arith, h))
  visit_all-Grown (t ∷ ts) s lt le =
      let one = visit-Grown s t (lt t (ground arith)) le in
      let rest =
        visit_all-Grown ts (visit a s t) (λ u h. lt u (omega (arith, h))) one.0.credit_left in
      (
        Grown-trans a.states_size s (visit a s t) _ one.0 rest.0,
        λ u h. elim (Bool-cases (u == t)) [
          | inl e ↦
              subst (λ z. 1 ≤ count (dst_of a z) (visit_all a (visit a s t) ts).seen)
                (sym ((==_iff u t).0 e)) (rest.0.seen_more (dst_of a t) one.1)
          | inr e ↦ rest.1 u (ground (arith, h, e))
        ],
      )
