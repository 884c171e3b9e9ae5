-- ===== src/GuestTsc/Sample.antt =====
-- A host and a machine for the tests.
use pve_anti_detection.Prelude.{◌*◌, ◌/◌, ◌^◌, ◌≡◌, refl, true, false, none, [], ◌∷◌, arith}
use pve_anti_detection.GuestTsc.{Kernel, Vcpu}
use pve_anti_detection.GuestTsc.Frequency.Accuracy.{IsHost}
use pve_anti_detection.GuestTsc.Sync.{
  Host, Kvm, clockmode_tsc, kvm_check_tsc_unstable, kvm_synchronize_tsc,
}
use pve_anti_detection.GuestTsc.Sync.Generations.Machine.{
  Machine, empty, create, synchronize, Reach, start, later,
}

-- A host of 3 GHz with a fixed point of 32 bits.
abbrev pub kernel : Kernel
kernel = record {
  default_tsc_scaling_ratio = 2 ^ 32;
  max_tsc_scaling_ratio = 2 ^ 40;
  tsc_scaling_ratio_frac_bits = 32;
  has_tsc_control = true;
  tsc_khz = 3000000;
  mul_u64_u64_shr = λ a b n. a * b / 2 ^ n;
  mul_s64_u64_shr = λ a b n. a * b / 2 ^ n;
  mul_u64_u32_div = λ a b d. a * b / d;
}

pub kernel-IsHost : IsHost kernel
kernel-IsHost = record {
  runs = omega arith;
  fixed_point = omega arith;
  default = refl;
  mul_u64_u64_shr_lem = λ a b n fits. refl;
  mul_u64_u32_div_lem = λ a b d pos fits. refl;
}

abbrev pub vcpu : Vcpu
vcpu = record {
  is_guest_mode = false;
  l1_tsc_offset = 0;
  tsc_offset = 0;
  l1_tsc_scaling_ratio = 2 ^ 32;
  tsc_scaling_ratio = 2 ^ 32;
  l2_tsc_offset = 0;
  l2_tsc_multiplier = 2 ^ 32;
  written_offset = 0;
  written_multiplier = 2 ^ 32;
  virtual_tsc_khz = 3000000;
  virtual_tsc_shift = 0;
  virtual_tsc_mult = 0;
  tsc_catchup = false;
  tsc_always_catchup = false;
  last_guest_tsc = 0;
  this_tsc_generation = 0;
  this_tsc_nsec = 0;
  this_tsc_write = 0;
}

abbrev pub host : Host
host = record {
  host_tsc = 9000;
  host_tsc_again = 9010;
  kvmclock_base_ns = 3000;
  vclock_mode = clockmode_tsc;
  check_tsc_unstable = false;
  nsec_to_cycles = λ v ns. ns * 3;
}

-- The machine after its first vCPU was created, and synchronised.
abbrev pub created : Kvm
created = record empty.vm { online_vcpus = 1 }

abbrev pub synchronized : Machine
synchronized = record {
  vm = (kvm_synchronize_tsc kernel host created vcpu none).0;
  vcpus = (kvm_synchronize_tsc kernel host created vcpu none).1 ∷ [];
}

-- All the states of the host are stable.
abbrev pub IsStable : Host → Type 0
IsStable h = kvm_check_tsc_unstable h ≡ false

pub reached : Reach kernel IsStable 2 synchronized
reached =
    later (later start (create empty.vm [] vcpu refl))
      (synchronize host created [] vcpu [] none refl)
