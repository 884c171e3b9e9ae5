-- ===== src/Control/Debug.antt =====
-- x86.c: the debug registers (lines 1336 to 1419): `kvm_set_dr`, `kvm_get_dr` and `kvm_update_dr7`.
--
-- Words are functions from the number of a bit; the masks of the kernel's headers and the guest's features are
-- the parameter `Masks`.
use pve_anti_detection.Prelude.{
  ℕ, ◌≡◌, refl, Bool, true, false, not, ◌&&◌, ◌||◌, ◌==◌, ltb, if◌then◌else◌, if_cases, arith,
}

abbrev pub Word : Type 0
Word = ℕ → Bool

-- `db` and `eff_db` are the four address registers, by their number; `hw_dr7` is what the backend was last given,
-- and `bp_enabled` the flag `KVM_DEBUGREG_BP_ENABLED`.
pub record DebugRegisters : Type 0 where
  pub uses_hw_bp : Bool
  pub guest_debug_dr7 : Word
  pub db : ℕ → Word
  pub eff_db : ℕ → Word
  pub dr6 : Word
  pub dr7 : Word
  pub hw_dr7 : Word
  pub bp_enabled : Bool

pub record Masks : Type 0 where
  pub dr6_fixed_1 : Word
  pub dr6_rtm : Word
  pub dr6_bus_lock : Word
  pub dr6_volatile : Word
  pub dr7_volatile : Word
  pub dr7_fixed_1 : Word
  pub has_rtm : Bool
  pub has_bus_lock_detect : Bool
  -- `kvm_dr6_valid`, `kvm_dr7_valid`, and whether a bit of `DR7_BP_EN_MASK` is set
  pub is_dr6_valid : Word → Bool
  pub is_dr7_valid : Word → Bool
  pub has_bp : Word → Bool

-- A register is replaced.
abbrev pub update : (ℕ → Word) → ℕ → Word → ℕ → Word
update db dr val i = if i == dr then val else db i

unfoldable pub kvm_update_dr0123 : DebugRegisters → DebugRegisters
kvm_update_dr0123 v =
    if not v.uses_hw_bp
    then record v { eff_db = λ i. if ltb i 4 then v.db i else v.eff_db i }
    else v

module _ (m : Masks) where
  unfoldable pub kvm_update_dr7 : DebugRegisters → DebugRegisters
  kvm_update_dr7 v =
      let dr7 = if v.uses_hw_bp then v.guest_debug_dr7 else v.dr7 in
      record v { hw_dr7 = dr7; bp_enabled = m.has_bp dr7 }

  unfoldable pub kvm_dr6_fixed : Word
  kvm_dr6_fixed i =
      (m.dr6_fixed_1 i || (not m.has_rtm && m.dr6_rtm i))
      || (not m.has_bus_lock_detect && m.dr6_bus_lock i)

  -- The result is true for 0, false for 1, at which the guest gets a fault.
  unfoldable pub kvm_set_dr : DebugRegisters → ℕ → Word → DebugRegisters × Bool
  kvm_set_dr v dr val =
      if ltb dr 4
      then (
        record v {
          db = update v.db dr val;
          eff_db = if not v.uses_hw_bp then update v.eff_db dr val else v.eff_db;
        },
        true,
      )
      else (if dr == 4 || dr == 6
          then (if not (m.is_dr6_valid val)
              then (v, false)
              else (record v { dr6 = λ i. (val i && m.dr6_volatile i) || kvm_dr6_fixed i }, true))
          else (if not (m.is_dr7_valid val) then (v, false) else (
            kvm_update_dr7 (record v { dr7 = λ i. (val i && m.dr7_volatile i) || m.dr7_fixed_1 i }),
            true,
          )))

unfoldable pub kvm_get_dr : DebugRegisters → ℕ → Word
kvm_get_dr v dr = if ltb dr 4 then v.db dr else (if dr == 4 || dr == 6 then v.dr6 else v.dr7)

-- What a register reads as once a value was written to it.
abbrev pub stored_bit : Masks → ℕ → Word → ℕ → Bool
stored_bit m dr val i =
    if ltb dr 4
    then val i
    else (if dr == 4 || dr == 6
        then (m.dr6_volatile i && val i)
          || m.dr6_fixed_1 i
          || (m.dr6_rtm i && not m.has_rtm)
          || (m.dr6_bus_lock i && not m.has_bus_lock_detect)
        else (m.dr7_volatile i && val i) || m.dr7_fixed_1 i)

-- What the backend has in DR7 is what the guest reads there, unless user space has taken the registers over;
-- and the flag for breakpoints is that of the value it has.
abbrev pub IsPassedOn : Masks → DebugRegisters → Type 0
IsPassedOn m v =
    (v.hw_dr7 ≡ (if v.uses_hw_bp then v.guest_debug_dr7 else v.dr7))
    × (v.bp_enabled ≡ m.has_bp v.hw_dr7)

kvm_set_dr-IsPassedOn :
    (m : Masks) (v : DebugRegisters) (dr : ℕ) (val : Word)
    → IsPassedOn m v
    → IsPassedOn m (kvm_set_dr m v dr val).0
unfolding kvm_set_dr kvm_update_dr7
kvm_set_dr-IsPassedOn m v dr val passed =
    let P : DebugRegisters × Bool → Type 0 = λ r. IsPassedOn m r.0 in
    if_cases P (ltb dr 4) _ _ (λ address. passed)
      (λ other.
        if_cases P (dr == 4 || dr == 6) _ _
          (λ status. if_cases P (not (m.is_dr6_valid val)) _ _ (λ bad. passed) (λ good. passed))
          (λ control.
            if_cases P (not (m.is_dr7_valid val)) _ _ (λ bad. passed) (λ good. (refl, refl))))

-- A debug register whose write is taken reads back as written, for DR0 to DR3, or with the bits that are not
-- volatile at their fixed values, for the others, where DR4 and DR5 are DR6 and DR7: the bit of RTM and that
-- of bus locks are fixed where the guest lacks the feature. If the backend's DR7 was passed on before, it is
-- after.
pub kvm_get_dr-kvm_set_dr :
    (m : Masks) (v : DebugRegisters) (dr : ℕ) (val : Word) (i : ℕ)
    → (kvm_set_dr m v dr val).1 ≡ true
    → IsPassedOn m v
    → (kvm_get_dr (kvm_set_dr m v dr val).0 dr i ≡ stored_bit m dr val i)
      × IsPassedOn m (kvm_set_dr m v dr val).0
unfolding kvm_set_dr kvm_get_dr kvm_update_dr7 kvm_dr6_fixed
kvm_get_dr-kvm_set_dr m v dr val i ok passed =
    (ground arith, kvm_set_dr-IsPassedOn m v dr val passed)

-- No write, taken or refused, gives the guest the debug registers that user space has taken over.
pub kvm_set_dr-eff_db :
    (m : Masks) (v : DebugRegisters) (dr : ℕ) (val : Word)
    → v.uses_hw_bp ≡ true
    → v.hw_dr7 ≡ v.guest_debug_dr7
    → let after = (kvm_set_dr m v dr val).0 in
      (after.eff_db ≡ v.eff_db) × (after.hw_dr7 ≡ v.guest_debug_dr7)
unfolding kvm_set_dr kvm_update_dr7
kvm_set_dr-eff_db m v dr val hw same =
    let P : DebugRegisters × Bool → Type 0 =
      λ r. (r.0.eff_db ≡ v.eff_db) × (r.0.hw_dr7 ≡ v.guest_debug_dr7) in
    if_cases P (ltb dr 4) _ _ (λ address. (rw hw refl, same))
      (λ other.
        if_cases P (dr == 4 || dr == 6) _ _
          (λ status.
            if_cases P (not (m.is_dr6_valid val)) _ _ (λ bad. (refl, same)) (λ good. (refl, same)))
          (λ control.
            if_cases P (not (m.is_dr7_valid val)) _ _ (λ bad. (refl, same))
              (λ good. (refl, rw hw refl))))
