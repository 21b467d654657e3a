-- ===== src/Series.antt =====
-- Formal power series: what an automaton or an expression denotes. A series maps each word over
-- the letters `A` to its weight in `K`; the operations are the ones that doc/ names after the nodes
-- of the expressions. This is the specification, written from the algebra and not from the code.
pub mod Linear
pub mod Product
pub mod Hadamard
pub mod Interleave
pub mod Scale
pub mod Last
pub mod Reversed
use vcsn.Base.{ℕ, zero, suc, List, [], ◌∷◌, reverse, Bool, if◌then◌else◌, Eq}
use vcsn.Weight.{Weightset, ◌⊕◌, ◌⊗◌}

abbrev pub Series : Type 0 → Type 0 → Type 0
Series A K = List A → K

module _ {A K : Type 0} where
  -- The weights of the words that begin with `a`.
  abbrev pub derive : A → Series A K → Series A K
  derive a f w = f (a ∷ w)

module _ {A K : Type 0} ⦃ws : Weightset K⦄ where
  abbrev pub zeros : Series A K
  zeros w = ws.zero

  abbrev pub ones : Series A K
  ones w = ws.one

  -- 1 at the empty word.
  unfoldable pub unit : Series A K
  unit [] = ws.one
  unit (a ∷ w) = ws.zero

  abbrev pub plus : Series A K → Series A K → Series A K
  plus f g w = f w ⊕ g w

  abbrev pub left_scale : K → Series A K → Series A K
  left_scale k f w = k ⊗ f w

  abbrev pub right_scale : Series A K → K → Series A K
  right_scale f k w = f w ⊗ k

  -- The weights of the ways to split a word in two.
  unfoldable pub product : Series A K → Series A K → Series A K
  product f g [] = f [] ⊗ g []
  product f g (a ∷ w) = f [] ⊗ g (a ∷ w) ⊕ product (derive a f) g w

  unfoldable pub repeated : Series A K → ℕ → Series A K
  repeated f zero = unit
  repeated f (suc n) = product f (repeated f n)

  abbrev pub hadamard : Series A K → Series A K → Series A K
  hadamard f g w = f w ⊗ g w

  -- The weights of the ways to deal the letters of a word to two words.
  unfoldable pub shuffled : Series A K → Series A K → Series A K
  shuffled f g [] = f [] ⊗ g []
  shuffled f g (a ∷ w) = shuffled (derive a f) g w ⊕ shuffled f (derive a g) w

  -- Likewise, where a letter may also be dealt to both.
  unfoldable pub infiltrated : Series A K → Series A K → Series A K
  infiltrated f g [] = f [] ⊗ g []
  infiltrated f g (a ∷ w) =
      infiltrated (derive a f) g w
      ⊕ infiltrated f (derive a g) w
      ⊕ infiltrated (derive a f) (derive a g) w

  abbrev pub complemented : Series A K → Series A K
  complemented f w = if ws.is_zero (f w) then ws.one else ws.zero

  abbrev pub transposed : Series A K → Series A K
  transposed f w = ws.transpose (f (reverse w))

  -- `h` followed by iterations of `f`, where `s` is the star of the weight of the empty word in `f`.
  unfoldable pub iterate : Series A K → K → Series A K → Series A K
  iterate f s h [] = h [] ⊗ s
  iterate f s h (a ∷ w) = h [] ⊗ (s ⊗ iterate f s (derive a f) w) ⊕ iterate f s (derive a h) w

  unfoldable pub starred : Series A K → K → Series A K
  starred f s [] = s
  starred f s (a ∷ w) = s ⊗ iterate f s (derive a f) w

  -- The weight 1 at one word.
  unfoldable pub single : ⦃e : Eq A⦄ → List A → Series A K
  single [] [] = ws.one
  single [] (b ∷ w) = ws.zero
  single (a ∷ u) [] = ws.zero
  single ⦃e⦄ (a ∷ u) (b ∷ w) = if e.beq a b then single u w else ws.zero
