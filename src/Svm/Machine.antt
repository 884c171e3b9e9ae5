-- ===== src/Svm/Machine.antt =====
-- The vCPUs of all guests over the processors of a host, in any order of loading, running, flushing and
-- resetting them.
use pve_anti_detection.Prelude.{ℕ, suc, ◌+◌, ◌^◌, ◌≤◌, ◌<◌, ◌≡◌, Bool, true, false, update_at}
use pve_anti_detection.Svm.{
  CpuData, VcpuSvm, current_vmcb, svm_switch_vmcb, init_asid, svm_vcpu_run, svm_flush_tlb_asid,
}

pub record Host : Type 0 where
  pub cpus : ℕ → CpuData
  pub vcpus : ℕ → VcpuSvm

abbrev pub set_vcpu : Host → ℕ → VcpuSvm → Host
set_vcpu h i v = record h { vcpus = update_at h.vcpus i v }

-- The vCPU enters its guest on the processor that it is loaded on.
abbrev pub run_vcpu : (VcpuSvm → ℕ → VcpuSvm) → Host → ℕ → Host
run_vcpu pre_sev_run h i =
    let v = h.vcpus i in
    let (v', sd) = svm_vcpu_run pre_sev_run v (h.cpus v.cpu) in
    record { cpus = update_at h.cpus v.cpu sd; vcpus = update_at h.vcpus i v' }

-- `nested`: whether guests of guests may run.
pub data Step (pre_sev_run : VcpuSvm → ℕ → VcpuSvm) (nested : Bool) (h : Host) : Host → Type 0 where
  load : (i cpu : ℕ) → Step pre_sev_run nested h (set_vcpu h i (record (h.vcpus i) { cpu = cpu }))
  run : (i : ℕ) → Step pre_sev_run nested h (run_vcpu pre_sev_run h i)
  flush :
      (i : ℕ) (flushbyasid : Bool)
      → Step pre_sev_run nested h (set_vcpu h i (svm_flush_tlb_asid flushbyasid (h.vcpus i)))
  reset : (i : ℕ) → Step pre_sev_run nested h (set_vcpu h i (init_asid (h.vcpus i)))
  switch :
      (i : ℕ) (second : Bool)
      → nested ≡ true
      → Step pre_sev_run nested h (set_vcpu h i (svm_switch_vmcb (h.vcpus i) second))

-- The processors as `svm_hardware_enable` leaves them, with a free identifier each, and vCPUs that have
-- not run.
pub record IsInitial (h : Host) : Type 0 where
  pub generation : (c : ℕ) → (h.cpus c).asid_generation ≡ 1
  pub next : (c : ℕ) → (h.cpus c).next_asid ≡ (h.cpus c).max_asid + 1
  pub some_free : (c : ℕ) → (h.cpus c).min_asid ≤ (h.cpus c).max_asid
  pub fits : (c : ℕ) → (h.cpus c).max_asid + 1 < 2 ^ 32
  pub first : (i : ℕ) → (h.vcpus i).is_guest_mode ≡ false
  pub plain : (i : ℕ) → (h.vcpus i).sev ≡ false
  pub fresh : (i : ℕ) → (h.vcpus i).vmcb01.asid_generation ≡ 0

pub data Reach (pre_sev_run : VcpuSvm → ℕ → VcpuSvm) (nested : Bool) : ℕ → Host → Type 0 where
  start : {h : Host} → IsInitial h → Reach pre_sev_run nested 0 h
  later :
      {n : ℕ} {h h' : Host}
      → Reach pre_sev_run nested n h
      → Step pre_sev_run nested h h'
      → Reach pre_sev_run nested (suc n) h'

-- The vCPU has its identifier on the processor: its block last ran there, in the generation that is
-- the current one.
abbrev pub Holds : Host → ℕ → ℕ → Type 0
Holds h c i =
    ((current_vmcb (h.vcpus i)).cpu ≡ c)
    × ((current_vmcb (h.vcpus i)).asid_generation ≡ (h.cpus c).asid_generation)
