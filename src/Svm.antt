-- ===== src/Svm.antt =====
-- svm.c: how the AMD backend gives its guests address space identifiers, on each processor of its own
-- (lines 608 to 625, 1336 to 1337, 1413 to 1417, 1986 to 1997, 3577 to 3597, 3941 to 3962 and 4202 to
-- 4205): `svm_hardware_enable`, `init_vmcb`, `svm_switch_vmcb`, `new_asid`, `pre_svm_run`,
-- `svm_flush_tlb_asid` and `svm_vcpu_run`, as far as the identifiers go.
--
-- `pre_sev_run`, for encrypted guests, is a parameter.
pub mod Machine
pub mod Entry
pub mod Tracked
pub mod Kept
pub mod Unique
mod Tests
use pve_anti_detection.Prelude.{
  ℕ, ◌+◌, ◌-◌, ◌^◌, Bool, true, false, not, Option, none, some, ltb, ◌==◌, if◌then◌else◌, u32, u64,
}

-- `struct svm_cpu_data`
pub record CpuData : Type 0 where
  pub asid_generation : ℕ
  pub max_asid : ℕ
  pub next_asid : ℕ
  pub min_asid : ℕ

-- `-EBUSY` is `none`. `efer_svme` is the bit of the processor's EFER, `ebx` what CPUID says of SVM.
unfoldable pub svm_hardware_enable : Bool → ℕ → ℕ → Option CpuData
svm_hardware_enable efer_svme ebx max_sev_asid =
    let max_asid = u32 (ebx + (2 ^ 32 - 1)) in
    if efer_svme
    then none
    else some (record {
      asid_generation = 1;
      max_asid = max_asid;
      next_asid = u32 (max_asid + 1);
      min_asid = u32 (max_sev_asid + 1);
    })

-- `control.tlb_ctl`
pub data TlbControl : Type 0 where
  do_nothing flush_all_asid flush_asid : TlbControl

-- `struct kvm_vmcb_info`, with what its block says of the identifier and of flushing.
pub record VmcbInfo : Type 0 where
  pub cpu : ℕ
  pub asid_generation : ℕ
  pub control_asid : ℕ
  pub tlb_ctl : TlbControl
  pub dirty : Bool

-- `struct vcpu_svm`: the processor that the vCPU is loaded on, its identifier, and its two blocks, of
-- which the second is for a guest of the guest.
pub record VcpuSvm : Type 0 where
  pub cpu : ℕ
  pub asid : ℕ
  pub sev : Bool
  pub is_guest_mode : Bool
  pub vmcb01 : VmcbInfo
  pub vmcb02 : VmcbInfo

abbrev pub current_vmcb : VcpuSvm → VmcbInfo
current_vmcb v = if v.is_guest_mode then v.vmcb02 else v.vmcb01

abbrev pub set_current_vmcb : VcpuSvm → VmcbInfo → VcpuSvm
set_current_vmcb v info =
    if v.is_guest_mode then record v { vmcb02 = info } else record v { vmcb01 = info }

unfoldable pub svm_switch_vmcb : VcpuSvm → Bool → VcpuSvm
svm_switch_vmcb v second = record v { is_guest_mode = second }

-- `init_vmcb`
unfoldable pub init_asid : VcpuSvm → VcpuSvm
init_asid v = record (set_current_vmcb v (record (current_vmcb v) { asid_generation = 0 })) {
  asid = 0;
}

unfoldable pub new_asid : VcpuSvm → CpuData → VcpuSvm × CpuData
new_asid v sd =
    let info = current_vmcb v in
    let full = ltb sd.max_asid sd.next_asid in
    let sd' =
      if full
      then record sd { asid_generation = u64 (sd.asid_generation + 1); next_asid = sd.min_asid }
      else sd in
    let flushed = if full then record info { tlb_ctl = flush_all_asid; dirty = true } else info in
    (
      record (set_current_vmcb v (record flushed { asid_generation = sd'.asid_generation })) {
        asid = sd'.next_asid;
      },
      record sd' { next_asid = u32 (sd'.next_asid + 1) },
    )

-- A block that last ran on another processor forgets its generation.
unfoldable pub move_vmcb : VcpuSvm → VcpuSvm
move_vmcb v =
    let info = current_vmcb v in
    if info.cpu == v.cpu
    then v
    else set_current_vmcb v (record info { asid_generation = 0; dirty = true; cpu = v.cpu })

-- On the data of the processor that the vCPU is loaded on.
unfoldable pub pre_svm_run : (VcpuSvm → ℕ → VcpuSvm) → VcpuSvm → CpuData → VcpuSvm × CpuData
unfolding new_asid move_vmcb
pre_svm_run pre_sev_run v sd =
    let moved = move_vmcb v in
    if moved.sev
    then (pre_sev_run moved moved.cpu, sd)
    else (if (current_vmcb moved).asid_generation == sd.asid_generation
        then (moved, sd)
        else new_asid moved sd)

-- The entry into the guest: its block gets the identifier.
unfoldable pub sync_asid : VcpuSvm → VcpuSvm
sync_asid v =
    let info = current_vmcb v in
    if info.control_asid == v.asid
    then v
    else set_current_vmcb v (record info { control_asid = v.asid; dirty = true })

-- After the exit, nothing is to be flushed, and the block is clean.
unfoldable pub after_run : VcpuSvm → VcpuSvm
after_run v = set_current_vmcb v (record (current_vmcb v) { tlb_ctl = do_nothing; dirty = false })

unfoldable pub svm_vcpu_run : (VcpuSvm → ℕ → VcpuSvm) → VcpuSvm → CpuData → VcpuSvm × CpuData
unfolding pre_svm_run sync_asid after_run
svm_vcpu_run pre_sev_run v sd =
    let (v', sd') = pre_svm_run pre_sev_run v sd in (after_run (sync_asid v'), sd')

-- `flushbyasid`: the processor can flush one identifier.
unfoldable pub svm_flush_tlb_asid : Bool → VcpuSvm → VcpuSvm
svm_flush_tlb_asid flushbyasid v =
    let info = current_vmcb v in
    set_current_vmcb v (
      if flushbyasid
      then record info { tlb_ctl = flush_asid }
      else record info { asid_generation = u64 (info.asid_generation + (2 ^ 64 - 1)) })
