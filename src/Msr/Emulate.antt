-- ===== src/Msr/Emulate.antt =====
-- The project's changes to RDMSR and WRMSR: the registers that it hides and opens, and its own copy of
-- IA32_DEBUGCTL.
use pve_anti_detection.Prelude.{ℕ, ◌-◌, ◌/◌, ◌%◌, ◌^◌, ◌≡◌, ◌⊎◌, true, false, arith, u32}
use pve_anti_detection.Msr.{
  MsrRet, success, fault, reason_inval, Vcpu, Kernel, kvm_msr_allowed, kvm_get_msr_with_filter,
  finish, kvm_emulate_rdmsr, edx_eax, is_kept, shadow, kvm_emulate_wrmsr,
}

-- The values that the copy of IA32_DEBUGCTL takes.
abbrev pub IsShadow : ℕ → Type 0
IsShadow n = (n ≡ 0) ⊎ ((n ≡ 2) ⊎ ((n ≡ 0x4000) ⊎ (n ≡ 0x4002)))

module _ (k : Kernel) where
  open k use {Inner}

  -- A read of 0x4b564d00, KVM's own clock register, or of 0x1db fails as for a register that does not
  -- exist, whatever the host knows of it, if user space does not want to be told of it.
  pub kvm_emulate_rdmsr-hidden :
      (v : Vcpu Inner) (data_1d9 old : ℕ)
      → (u32 v.rcx ≡ 0x4b564d00) ⊎ (u32 v.rcx ≡ 0x1db)
      → v.wants reason_inval ≡ false
      → kvm_emulate_rdmsr k v data_1d9 old
        ≡ finish k (k.complete (kvm_get_msr_with_filter k v (u32 v.rcx) old).2 fault) data_1d9
  unfolding kvm_emulate_rdmsr
  kvm_emulate_rdmsr-hidden v data_1d9 old which quiet = ground arith

  -- A read of 0x19c or 0x1a2 that the filter forbids succeeds all the same, and hands the guest what
  -- the kernel's uninitialised variable held.
  pub kvm_emulate_rdmsr-leak :
      (v : Vcpu Inner) (data_1d9 old : ℕ)
      → (u32 v.rcx ≡ 0x19c) ⊎ (u32 v.rcx ≡ 0x1a2)
      → kvm_msr_allowed v.filter (u32 v.rcx) k.filter_read ≡ false
      → kvm_emulate_rdmsr k v data_1d9 old
        ≡ finish k
            (k.complete (record v { rax = u32 old; rdx = u32 (old / 2 ^ 32) }) success)
            data_1d9
  unfolding kvm_emulate_rdmsr kvm_get_msr_with_filter
  kvm_emulate_rdmsr-leak v data_1d9 old which denied = ground arith

  -- A write of 0x4000 to 0x4003 to IA32_DEBUGCTL never reaches the host, and a later read that the
  -- vendor answers finds it with its lowest bit clear, whatever was there before.
  pub kvm_emulate_wrmsr-kvm_emulate_rdmsr :
      (v w : Vcpu Inner) (data_1d9 old' : ℕ) (old : MsrRet)
      → u32 v.rcx ≡ 0x1d9
      → is_kept (edx_eax k v) ≡ true
      → u32 w.rcx ≡ 0x1d9
      → (kvm_get_msr_with_filter k w 0x1d9 old').0 ≡ success
      → let written = kvm_emulate_wrmsr k v data_1d9 old in
        let kept = edx_eax k v - edx_eax k v % 2 in
        let w' = (kvm_get_msr_with_filter k w 0x1d9 old').2 in
        (written ≡ finish k (k.complete v success) kept)
        × (kvm_emulate_rdmsr k w kept old'
            ≡ finish k (k.complete (record w' { rax = kept; rdx = 0 }) success) kept)
  unfolding kvm_emulate_wrmsr kvm_emulate_rdmsr
  kvm_emulate_wrmsr-kvm_emulate_rdmsr v w data_1d9 old' old here kept there read = ground arith

  -- The copy of IA32_DEBUGCTL is always one of four values, whatever the guest writes and whatever the
  -- uninitialised variable holds.
  pub kvm_emulate_wrmsr-IsShadow :
      (v : Vcpu Inner) (data_1d9 : ℕ) (old : MsrRet)
      → IsShadow data_1d9
      → IsShadow (kvm_emulate_wrmsr k v data_1d9 old).1
  unfolding kvm_emulate_wrmsr
  kvm_emulate_wrmsr-IsShadow v data_1d9 old i = ground arith

  -- A write of another value to IA32_DEBUGCTL is decided by an uninitialised variable: at 0 the guest
  -- goes on, and at 1 it gets the fault, if user space does not want to be told.
  pub kvm_emulate_wrmsr-undetermined :
      (v : Vcpu Inner) (data_1d9 : ℕ)
      → u32 v.rcx ≡ 0x1d9
      → is_kept (edx_eax k v) ≡ false
      → v.wants reason_inval ≡ false
      → (kvm_emulate_wrmsr k v data_1d9 success
          ≡ finish k (k.complete v success) (shadow (edx_eax k v) data_1d9))
        × (kvm_emulate_wrmsr k v data_1d9 fault ≡ finish k (k.complete v fault) data_1d9)
  unfolding kvm_emulate_wrmsr
  kvm_emulate_wrmsr-undetermined v data_1d9 here other quiet = ground arith
