-- ===== src/Weight.antt =====
-- A weightset (vcsn/weightset/*.hh): the operations that the algorithms call, and the laws of a
-- semiring that their correctness needs.
pub mod B
pub mod F2
pub mod Tropical
pub mod Nmin
use vcsn.Base.{
  ℕ, zero, suc, ◌≡◌, sym, ap, ◌∙◌, Bool, true, false, Result, ok, if◌then◌else◌, ◌≡⟨◌⟩◌, ◌∎,
}

pub record Weightset (K : Type 0) : Type 0 where
  pub zero : K
  pub one : K
  pub add : K → K → K
  pub mul : K → K → K
  pub star : K → Result K
  pub transpose : K → K
  pub is_zero : K → Bool
  pub is_one : K → Bool
  pub is_commutative : Bool
  -- Whether the weights are Booleans, `std::is_same<weight_t, bool>{}`.
  pub is_bool : Bool
  -- Whether the weightset is `b`, `std::is_same<weightset_t, b>{}`.
  pub is_b : Bool

module _ {K : Type 0} ⦃ws : Weightset K⦄ where
  infixl 65 ◌⊕◌
  infixl 70 ◌⊗◌
  abbrev pub ◌⊕◌ : K → K → K
  a ⊕ b = ws.add a b

  abbrev pub ◌⊗◌ : K → K → K
  a ⊗ b = ws.mul a b

  -- `while (n--) res = mul(res, e);` of `weightset_mixin` (vcsn/weightset/weightset.hh).
  unfoldable pub power_rounds : ℕ → K → K → K
  power_rounds zero e res = res
  power_rounds (suc n) e res = power_rounds n e (res ⊗ e)

  unfoldable pub power : K → ℕ → K
  power e n = if ws.is_one e then ws.one else power_rounds n e ws.one

pub record IsSemiring {K : Type 0} (ws : Weightset K) : Type 0 where
  pub add_assoc : (a b c : K) → ws.add (ws.add a b) c ≡ ws.add a (ws.add b c)
  pub add_comm : (a b : K) → ws.add a b ≡ ws.add b a
  pub zero-add : (a : K) → ws.add ws.zero a ≡ a
  pub add-zero : (a : K) → ws.add a ws.zero ≡ a
  pub mul_assoc : (a b c : K) → ws.mul (ws.mul a b) c ≡ ws.mul a (ws.mul b c)
  pub one-mul : (a : K) → ws.mul ws.one a ≡ a
  pub mul-one : (a : K) → ws.mul a ws.one ≡ a
  pub zero-mul : (a : K) → ws.mul ws.zero a ≡ ws.zero
  pub mul-zero : (a : K) → ws.mul a ws.zero ≡ ws.zero
  pub mul-add : (a b c : K) → ws.mul a (ws.add b c) ≡ ws.add (ws.mul a b) (ws.mul a c)
  pub add-mul : (a b c : K) → ws.mul (ws.add a b) c ≡ ws.add (ws.mul a c) (ws.mul b c)
  pub mul_comm : ws.is_commutative ≡ true → (a b : K) → ws.mul a b ≡ ws.mul b a
  pub is_zero-zero : ws.is_zero ws.zero ≡ true
  pub eq_of_is_zero : (a : K) → ws.is_zero a ≡ true → a ≡ ws.zero
  pub eq_of_is_one : (a : K) → ws.is_one a ≡ true → a ≡ ws.one
  pub is_zero-one : ws.is_zero ws.one ≡ false
  pub star-zero : ws.star ws.zero ≡ ok ws.one
  pub bool_values : ws.is_bool ≡ true → (a : K) → (if ws.is_zero a then ws.zero else ws.one) ≡ a

module _ {K : Type 0} ⦃ws : Weightset K⦄ (sr : IsSemiring ws) where
  pub add_interchange : (a b c d : K) → (a ⊕ b) ⊕ (c ⊕ d) ≡ (a ⊕ c) ⊕ (b ⊕ d)
  add_interchange a b c d =
      (a ⊕ b) ⊕ (c ⊕ d)
      ≡⟨ (simp sr.add_assoc) ⟩ a ⊕ ((b ⊕ c) ⊕ d)
      ≡⟨ (rw (sr.add_comm b c)) ⟩ a ⊕ ((c ⊕ b) ⊕ d)
      ≡⟨ (simp sr.add_assoc) ⟩ (a ⊕ c) ⊕ (b ⊕ d) ∎

  pub mul_interchange :
      ws.is_commutative ≡ true → (a b c d : K) → (a ⊗ b) ⊗ (c ⊗ d) ≡ (a ⊗ c) ⊗ (b ⊗ d)
  mul_interchange comm a b c d =
      (a ⊗ b) ⊗ (c ⊗ d)
      ≡⟨ (simp sr.mul_assoc) ⟩ a ⊗ ((b ⊗ c) ⊗ d)
      ≡⟨ (rw (sr.mul_comm comm b c)) ⟩ a ⊗ ((c ⊗ b) ⊗ d)
      ≡⟨ (simp sr.mul_assoc) ⟩ (a ⊗ c) ⊗ (b ⊗ d) ∎

  pub add_interchange3 :
      (a b c d e f : K) → ((a ⊕ b) ⊕ (c ⊕ d)) ⊕ (e ⊕ f) ≡ ((a ⊕ c) ⊕ e) ⊕ ((b ⊕ d) ⊕ f)
  add_interchange3 a b c d e f =
      ap (λ x. x ⊕ (e ⊕ f)) (add_interchange a b c d) ∙ add_interchange (a ⊕ c) (b ⊕ d) e f

  pub add_left_comm : (a b c : K) → a ⊕ (b ⊕ c) ≡ b ⊕ (a ⊕ c)
  add_left_comm a b c =
      sym (sr.add_assoc a b c) ∙ ap (λ x. x ⊕ c) (sr.add_comm a b) ∙ sr.add_assoc b a c

  -- If s = 1 + x s, then s p = x (s p) + p.
  pub star_step : (s x p : K) → s ≡ ws.one ⊕ x ⊗ s → s ⊗ p ≡ ws.zero ⊕ (x ⊗ (s ⊗ p) ⊕ p)
  star_step s x p h =
      s ⊗ p
      ≡⟨ ap (λ k. k ⊗ p) h ⟩ (ws.one ⊕ x ⊗ s) ⊗ p
      ≡⟨ (simp (sr.add-mul, sr.one-mul, sr.mul_assoc)) ⟩ p ⊕ x ⊗ (s ⊗ p)
      ≡⟨ sr.add_comm _ _ ∙ sym (sr.zero-add _) ⟩ ws.zero ⊕ (x ⊗ (s ⊗ p) ⊕ p) ∎

  -- How the seven terms of an infiltration of three series are regrouped.
  pub add_regroup :
      (a b c d e f g : K)
      → (((a ⊕ b) ⊕ c) ⊕ d) ⊕ ((e ⊕ f) ⊕ g) ≡ (a ⊕ ((b ⊕ d) ⊕ f)) ⊕ ((c ⊕ e) ⊕ g)
  add_regroup a b c d e f g =
      (((a ⊕ b) ⊕ c) ⊕ d) ⊕ ((e ⊕ f) ⊕ g)
      ≡⟨ (simp sr.add_assoc) ⟩ a ⊕ (b ⊕ (c ⊕ (d ⊕ (e ⊕ (f ⊕ g)))))
      ≡⟨ ap (λ x. a ⊕ (b ⊕ x))
          (add_left_comm c d _
            ∙ ap (λ x. d ⊕ x) (ap (λ x. c ⊕ x) (add_left_comm e f g) ∙ add_left_comm c f _)) ⟩
        a ⊕ (b ⊕ (d ⊕ (f ⊕ (c ⊕ (e ⊕ g)))))
      ≡⟨ (simp sr.add_assoc) ⟩ (a ⊕ ((b ⊕ d) ⊕ f)) ⊕ ((c ⊕ e) ⊕ g) ∎
