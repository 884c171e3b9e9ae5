-- ===== src/Prelude/Families.antt =====
-- Families indexed by native numbers, as arrays are, with an update at one index.
use Prim.Native.Nat.{ℕ}
use mathlib.Core.Path.{◌≡◌, refl, sym, subst, ◌∙◌}
use mathlib.Core.Logic.{◌≢◌, ◌⊎◌, inl, inr}
use mathlib.Core.Bool.{true, false}
use pve_anti_detection.Prelude.Tests.{◌==◌, if◌then◌else◌, ==_iff, Bool-cases}

false-not-true : false ≡ true → ⊥
false-not-true e = cc

module _ {ℓ} {A : Type ℓ} where
  abbrev pub update_at : (ℕ → A) → ℕ → A → ℕ → A
  update_at f i a j = if i == j then a else f j

  pub update_at_cases :
      (f : ℕ → A) (i : ℕ) (a : A) (j : ℕ)
      → ((i ≡ j) × (update_at f i a j ≡ a)) ⊎ ((i ≢ j) × (update_at f i a j ≡ f j))
  update_at_cases f i a j = elim (Bool-cases (i == j)) [
    | inl e ↦ inl ((==_iff i j).0 e, rw e refl)
    | inr e ↦ inr (λ same. false-not-true (sym e ∙ (==_iff i j).1 same), rw e refl)
  ]

  -- What holds of the new element and of the others holds of all.
  pub update_at-all {κ} :
      (P : A → Type κ) (f : ℕ → A) (i : ℕ) (a : A)
      → P a
      → ((j : ℕ) → i ≢ j → P (f j))
      → (j : ℕ) → P (update_at f i a j)
  update_at-all P f i a new old j = elim (update_at_cases f i a j) [
    | inl (same, e) ↦ subst P (sym e) new
    | inr (other, e) ↦ subst P (sym e) (old j other)
  ]

  -- The same for a symmetric relation between different elements.
  pub update_at-pairs {κ} :
      (R : A → A → Type κ) (f : ℕ → A) (i : ℕ) (a : A)
      → ((x y : A) → R x y → R y x)
      → ((j : ℕ) → i ≢ j → R a (f j))
      → ((j k : ℕ) → i ≢ j → i ≢ k → j ≢ k → R (f j) (f k))
      → (j k : ℕ) → j ≢ k
      → R (update_at f i a j) (update_at f i a k)
  update_at-pairs R f i a swap new old j k differs = elim (update_at_cases f i a j) [
    | inl (ij, e) ↦ elim (update_at_cases f i a k) [
      | inl (ik, d) ↦ absurd (differs (sym ij ∙ ik))
      | inr (ik, d) ↦ subst (λ x. R x (update_at f i a k)) (sym e) (subst (R a) (sym d) (new k ik))
    ]
    | inr (ij, e) ↦ elim (update_at_cases f i a k) [
      | inl (ik, d) ↦
          subst (λ x. R x (update_at f i a k)) (sym e)
            (subst (R (f j)) (sym d) (swap a (f j) (new j ij)))
      | inr (ik, d) ↦
          subst (λ x. R x (update_at f i a k)) (sym e)
            (subst (R (f j)) (sym d) (old j k ij ik differs))
    ]
  ]

  pub update_at-same : (f : ℕ → A) (i : ℕ) (a : A) → update_at f i a i ≡ a
  update_at-same f i a = rw ((==_iff i i).1 refl) refl
