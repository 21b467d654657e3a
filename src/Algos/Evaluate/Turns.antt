-- ===== src/Algos/Evaluate/Turns.antt =====
-- The innermost loop of the evaluation (vcsn/algos/evaluate.hh), on the transitions of one state:
-- the vectors stay large enough, and what the loop adds to the weighted sum of the second one.
use vcsn.Base.{
  ℕ, ◌+◌, ◌≤◌, ◌<◌, ◌==◌, ◌≡◌, ltb, leb, List, [], ◌∷◌, true, false, arith, refl, Bool-cases, inl,
  inr, sym, ap, ap₂, ◌∙◌, fun_ext,
}
use vcsn.Weight.{Weightset, IsSemiring, ◌⊕◌, ◌⊗◌}
use vcsn.Automaton.{MutableAutomaton, dst_of, weight_of}
use vcsn.Automaton.Handles.{count}
use vcsn.Automaton.Queries.{has_state}
use vcsn.Automaton.Consistent.{has_state_lt, apart}
use vcsn.Algos.Evaluate.{
  Weights, Vectors, resize, write, make_room, take_transition, take_transitions,
}
use vcsn.Algos.Evaluate.Sums.{sum_from, sum_of, sum_from-write}

pub before : (d n i : ℕ) → d < n → n ≤ i → (d == i) ≡ false
before d n i lt le = ground arith

module _ {L K : Type 0} ⦃ws : Weightset K⦄ (a : MutableAutomaton L K) where
  -- The vector has only states of the automaton, and nothing beyond its size.
  pub record Fits (v : Weights K) : Type 0 where
    pub size_le : v.size ≤ a.states_size
    pub beyond : (i : ℕ) → v.size ≤ i → v.at i ≡ ws.zero
    pub dead : (i : ℕ) → has_state a i ≡ false → v.at i ≡ ws.zero

  pub record FitPair (vs : Vectors K) : Type 0 where
    pub left : Fits vs.0
    pub right : Fits vs.1
    pub same_size : vs.0.size ≡ vs.1.size

  resize-at : (v : Weights K) (n : ℕ) → Fits v → (resize v n).at ≡ v.at
  resize-at v n f = fun_ext (λ i. elim (Bool-cases (ltb i v.size)) [
    | inl e ↦ rw e refl
    | inr e ↦ rw e (sym (f.beyond i (ground arith)))
  ])

  resize-Fits :
      (v : Weights K) (n : ℕ) → v.size ≤ n → n ≤ a.states_size → Fits v → Fits (resize v n)
  resize-Fits v n le room f = record {
    size_le = room;
    beyond = λ i lt. ap (λ h. h i) (resize-at v n f) ∙ f.beyond i (omega arith);
    dead = λ i h. ap (λ h. h i) (resize-at v n f) ∙ f.dead i h;
  }

  -- Making room changes no weight.
  make_room-FitPair :
      (vs : Vectors K) (d : ℕ)
      → FitPair vs
      → d < a.states_size
      → FitPair (make_room vs d)
        × (d < (make_room vs d).1.size)
        × ((make_room vs d).0.at ≡ vs.0.at)
        × ((make_room vs d).1.at ≡ vs.1.at)
  unfolding make_room
  make_room-FitPair vs d f lt = elim (Bool-cases (leb vs.1.size d)) [
    | inl e ↦ rw e (
      record {
        left = resize-Fits vs.0 (d + 1) (ground (arith, f.same_size)) (omega arith) f.left;
        right = resize-Fits vs.1 (d + 1) (ground arith) (omega arith) f.right;
        same_size = refl;
      },
      omega arith,
      resize-at vs.0 (d + 1) f.left,
      resize-at vs.1 (d + 1) f.right,
    )
    | inr e ↦ rw e (f, ground arith, refl, refl)
  ]

  write-Fits :
      (v : Weights K) (d : ℕ) (x : K)
      → Fits v
      → d < v.size
      → has_state a d ≡ true
      → Fits (write v d x)
  write-Fits v d x f lt live = record {
    size_le = f.size_le;
    beyond = λ i le. rw (before d v.size i lt le) (f.beyond i le);
    dead = λ i h. rw (apart a d i live h) (f.dead i h);
  }

  -- The sum of the weights of `f`, each times what `g` gives to the state.
  abbrev pub dot : (ℕ → K) → (ℕ → K) → K
  dot f g = sum_from (λ i. f i ⊗ g i) 0 a.states_size

  module _ (s : ℕ) where
    take_transition-FitPair :
        (vs : Vectors K) (t : ℕ)
        → FitPair vs
        → has_state a (dst_of a t) ≡ true
        → FitPair (take_transition a s vs t) × ((take_transition a s vs t).0.at ≡ vs.0.at)
    unfolding take_transition
    take_transition-FitPair vs t f live =
        let big = make_room-FitPair vs (dst_of a t) f (has_state_lt a (dst_of a t) live) in
        (
          record {
            left = big.0.left;
            right = write-Fits (make_room vs (dst_of a t)).1 (dst_of a t) _ big.0.right big.1 live;
            same_size = big.0.same_size;
          },
          big.2,
        )

    dot-take_transition :
        IsSemiring ws
        → (vs : Vectors K) (t : ℕ) (g : ℕ → K) → FitPair vs
        → has_state a (dst_of a t) ≡ true
        → dot (take_transition a s vs t).1.at g
          ≡ dot vs.1.at g ⊕ (vs.0.at s ⊗ weight_of a t) ⊗ g (dst_of a t)
    unfolding take_transition
    dot-take_transition sr vs t g f live =
        let d = dst_of a t in
        let lt = has_state_lt a d live in
        let big = make_room-FitPair vs d f lt in
        rw (big.2, big.3)
          (sum_from-write sr vs.1.at g d (vs.0.at s ⊗ weight_of a t) 0 a.states_size (omega arith)
            (omega (arith, lt)))

    pub take_transitions-FitPair :
        (ts : List ℕ) (vs : Vectors K)
        → FitPair vs
        → ((t : ℕ) → 1 ≤ count t ts → has_state a (dst_of a t) ≡ true)
        → FitPair (take_transitions a s ts vs) × ((take_transitions a s ts vs).0.at ≡ vs.0.at)
    unfolding take_transitions
    take_transitions-FitPair [] vs f live = (f, refl)
    take_transitions-FitPair (t ∷ ts) vs f live =
        let one = take_transition-FitPair vs t f (live t (ground arith)) in
        let rest =
          take_transitions-FitPair ts (take_transition a s vs t) one.0
            (λ u h. live u (omega (arith, h))) in
        (rest.0, rest.1 ∙ one.1)

    pub dot-take_transitions :
        IsSemiring ws
        → (ts : List ℕ) (vs : Vectors K) (g : ℕ → K) → FitPair vs
        → ((t : ℕ) → 1 ≤ count t ts → has_state a (dst_of a t) ≡ true)
        → dot (take_transitions a s ts vs).1.at g
          ≡ dot vs.1.at g ⊕ sum_of (λ t. (vs.0.at s ⊗ weight_of a t) ⊗ g (dst_of a t)) ts
    unfolding take_transitions
    dot-take_transitions sr [] vs g f live = sym (sr.add-zero _)
    dot-take_transitions sr (t ∷ ts) vs g f live =
        let here = live t (ground arith) in
        let one = take_transition-FitPair vs t f here in
        dot-take_transitions sr ts (take_transition a s vs t) g one.0
          (λ u h. live u (omega (arith, h)))
        ∙ ap₂ (λ p q. p ⊕ sum_of (λ u. (q s ⊗ weight_of a u) ⊗ g (dst_of a u)) ts)
            (dot-take_transition sr vs t g f here) one.1
        ∙ sr.add_assoc _ _ _
