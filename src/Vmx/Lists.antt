-- ===== src/Vmx/Lists.antt =====
-- A list of registers as a map from registers to values.
pub mod Set
pub mod Append
pub mod Remove
use pve_anti_detection.Prelude.{
  ℕ, zero, suc, ◌+◌, ◌-◌, ◌≤◌, ◌<◌, ◌≡◌, ◌≢◌, ◌⊎◌, inl, inr, refl, sym, subst, ap, ◌∙◌, Bool, true,
  false, arith, Option, none, some, ◌==◌, ==_iff, if◌then◌else◌, update_at, update_at_cases,
  update_at-same, Bool-cases,
}
use pve_anti_detection.Vmx.{
  MsrEntry, VmxMsrs, max_nr, find_from, vmx_find_loadstore_msr_slot, remove, put,
}

-- The list fits its array and has no register twice.
pub record IsList (m : VmxMsrs) : Type 0 where
  pub bound : m.nr ≤ max_nr
  pub unique : (i j : ℕ) → i < m.nr → j < m.nr → (m.val i).index ≡ (m.val j).index → i ≡ j

-- What the processor loads into the register, if it loads it.
unfoldable pub value_of : VmxMsrs → ℕ → Option ℕ
value_of m msr = elim (vmx_find_loadstore_msr_slot m msr) [
  | none ↦ none
  | some i ↦ some (m.val i).value
]

-- Where a register is in a list.
pub data Slot (m : VmxMsrs) (msr : ℕ) (slot : Option ℕ) : Type 0 where
  found : (i : ℕ) → i < m.nr → (m.val i).index ≡ msr → slot ≡ some i → Slot m msr slot
  missing : ((i : ℕ) → i < m.nr → (m.val i).index ≢ msr) → slot ≡ none → Slot m msr slot

pub false-true : false ≡ true → ⊥
false-true e = cc

k_cases : (i k : ℕ) → i ≤ k → (k ≡ i) ⊎ (suc i ≤ k)
k_cases i k low = ground arith

find_from_cases :
    (val : ℕ → MsrEntry) (msr i left : ℕ)
    → ((k : ℕ) × (i ≤ k)
        × (k < i + left)
        × ((val k).index ≡ msr)
        × (find_from val msr i left ≡ some k))
      ⊎ (((k : ℕ) → i ≤ k → k < i + left → (val k).index ≢ msr) × (find_from val msr i left ≡ none))
unfolding find_from
find_from_cases val msr i zero = inr (λ k low high. absurd (omega arith), refl)
find_from_cases val msr i (suc left) = elim (Bool-cases ((val i).index == msr)) [
  | inl here ↦ inl (i, omega arith, omega arith, (==_iff _ _).0 here, rw here refl)
  | inr other ↦ elim (find_from_cases val msr (suc i) left) [
    | inl (k, low, high, same, e) ↦ inl (k, omega arith, omega arith, same, rw other e)
    | inr (nowhere, e) ↦ inr (
      λ k low high same. elim (k_cases i k low) [
        | inl first ↦
            false-true (sym other ∙ (==_iff _ _).1 (subst (λ x. (val x).index ≡ msr) first same))
        | inr rest ↦ nowhere k rest (omega arith) same
      ],
      rw other e,
    )
  ]
]

pub Slot-find : (m : VmxMsrs) (msr : ℕ) → Slot m msr (vmx_find_loadstore_msr_slot m msr)
unfolding vmx_find_loadstore_msr_slot
Slot-find m msr = elim (find_from_cases m.val msr 0 m.nr) [
  | inl (k, low, high, same, e) ↦ found k (omega arith) same e
  | inr (nowhere, e) ↦ missing (λ i lt. nowhere i (omega arith) (omega arith)) e
]

-- The two ways to find out what is loaded.
pub value_of-found :
    (m : VmxMsrs) (msr i : ℕ)
    → IsList m
    → i < m.nr
    → (m.val i).index ≡ msr
    → value_of m msr ≡ some (m.val i).value
unfolding value_of
value_of-found m msr i l lt same = elim (Slot-find m msr) [
  | found k ltk samek e ↦
      let one : k ≡ i = l.unique k i ltk lt (samek ∙ sym same) in
      rw (value_of, e) (ap (λ x. some (m.val x).value) one)
  | missing nowhere e ↦ absurd (nowhere i lt same)
]

pub value_of-missing :
    (m : VmxMsrs) (msr : ℕ) → ((i : ℕ) → i < m.nr → (m.val i).index ≢ msr) → value_of m msr ≡ none
unfolding value_of
value_of-missing m msr nowhere = elim (Slot-find m msr) [
  | found k lt same e ↦ absurd (nowhere k lt same)
  | missing absent e ↦ rw (value_of, e) refl
]
