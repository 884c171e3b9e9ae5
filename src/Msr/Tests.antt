-- ===== src/Msr/Tests.antt =====
-- The theorems on the registers at concrete filters and values.
use pve_anti_detection.Prelude.{
  not, ℕ, ◌≡◌, ◌≢◌, ◌⊎◌, ◌==◌, inl, refl, true, false, none, some, [], ◌∷◌, arith,
}
use pve_anti_detection.Msr.{
  success, other_msr, MsrBitmapRange, MsrFilter, Vcpu, Kernel, kvm_msr_allowed,
  kvm_get_msr_with_filter, finish, kvm_emulate_rdmsr, kvm_emulate_wrmsr,
}
use pve_anti_detection.Msr.Install.{
  Abi, Kvm, KvmMsrFilter, is_empty, is_refused, kvm_alloc_msr_filter, kvm_add_msr_filter,
  add_ranges, kvm_vm_ioctl_set_msr_filter,
}
use pve_anti_detection.Msr.Policy.{
  IsInstalled, kvm_vm_ioctl_set_msr_filter-policy, kvm_vm_ioctl_set_msr_filter_cases,
}
use pve_anti_detection.Msr.Emulate.{kvm_emulate_wrmsr-kvm_emulate_rdmsr}

-- Every register reads as 77, and takes every value.
abbrev kernel : Kernel
kernel = record {
  Inner = ℕ;
  classify = λ index. other_msr;
  filter_read = 1;
  filter_write = 2;
  ignore_msrs = false;
  supports_tsc_aux = true;
  has_rdtscp = λ v. true;
  has_rdpid = λ v. true;
  is_intel = λ v. true;
  is_noncanonical = λ value v. false;
  canonical = λ value v. value;
  get_msr = λ v index host. (success, 77, v);
  set_msr = λ v index value host. (success, v);
  complete = λ v r. (v, 1);
}

-- A filter that allows 0x180 to 0x18f in its one range, and nothing else.
abbrev range : MsrBitmapRange
range = record { base = 0x180; nmsrs = 0x10; flags = 3; bitmap = λ i. true }

-- A vCPU at an access of the register `rcx`, with this value in its low half.
abbrev vcpu : ℕ → ℕ → Vcpu ℕ
vcpu rcx rax = record {
  rax = rax;
  rcx = rcx;
  rdx = 0;
  filter = some (record { default_allow = false; ranges = range ∷ [] });
  wants = λ reason. false;
  exit = none;
  inner = 0;
}

-- Here the filter allows the register.
abbrev open_vcpu : ℕ → ℕ → Vcpu ℕ
open_vcpu rcx rax = record (vcpu rcx rax) { filter = none }

kvm_emulate_wrmsr-kvm_emulate_rdmsr_example :
    (kvm_emulate_wrmsr kernel (open_vcpu 0x1d9 0x4003) 0 success
      ≡ finish kernel (open_vcpu 0x1d9 0x4003, 1) 0x4002)
    × (kvm_emulate_rdmsr kernel (open_vcpu 0x1d9 0) 0x4002 9
        ≡ finish kernel (record (open_vcpu 0x1d9 0) { rax = 0x4002; rdx = 0 }, 1) 0x4002)
unfolding kvm_get_msr_with_filter
kvm_emulate_wrmsr-kvm_emulate_rdmsr_example =
    kvm_emulate_wrmsr-kvm_emulate_rdmsr kernel (open_vcpu 0x1d9 0x4003) (open_vcpu 0x1d9 0) 0 9
      success refl refl refl refl

abbrev abi : Abi
abi = record {
  has_unknown_flags = λ flags. false;
  has_default_deny = λ flags. flags == 1;
  has_unknown_range_flags = λ flags. false;
  bitmap_size = λ n. n;
  max_bitmap_size = 1536;
  has_memory = true;
}

-- User space forbids everything but 0x182.
abbrev request : KvmMsrFilter
request = record {
  flags = 1;
  ranges = record { flags = 3; nmsrs = 16; base = 0x180; bitmap = some (λ i. i == 2) } ∷ [];
}

abbrev machine : Kvm
machine = record { msr_filter = none; filter_changed = false }

kvm_vm_ioctl_set_msr_filter-policy_example :
    kvm_msr_allowed (kvm_vm_ioctl_set_msr_filter abi machine request).0.msr_filter 0x182 1 ≡ true
unfolding kvm_vm_ioctl_set_msr_filter add_ranges kvm_add_msr_filter is_refused is_empty
    kvm_alloc_msr_filter
kvm_vm_ioctl_set_msr_filter-policy_example =
    kvm_vm_ioctl_set_msr_filter-policy abi machine request 0x182 1 (omega arith, tt)
      (inl (omega arith)) refl

kvm_vm_ioctl_set_msr_filter_cases_example :
    let after = kvm_vm_ioctl_set_msr_filter abi machine request in
    ((f : MsrFilter) × (after ≡ (record { msr_filter = some f; filter_changed = true }, none))
      × (f.default_allow ≡ not (abi.has_default_deny request.flags))
      × IsInstalled request.ranges f.ranges)
    ⊎ ((after.0 ≡ machine) × (after.1 ≢ none))
kvm_vm_ioctl_set_msr_filter_cases_example = kvm_vm_ioctl_set_msr_filter_cases abi machine request
