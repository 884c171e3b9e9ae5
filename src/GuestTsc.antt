-- ===== src/GuestTsc.antt =====
-- x86.c: the time-stamp counter of a guest as KVM scales and offsets it (lines 2423 to 2845): the ratio
-- and the offset of a vCPU, of a nested guest, the frequency that user space asks for, and the
-- synchronisation of the vCPUs of a machine.
--
-- The capabilities of the host, the 128-bit arithmetic of the kernel's headers and what the vendor's
-- code knows of a nested guest are parameters. 64-bit values wrap around; signed ones are bit patterns.
pub mod Offsets
pub mod TimeScale
pub mod Frequency
pub mod Sync
pub mod Page
pub mod Master
pub mod Update
mod Sample
mod Tests
mod ClockTests
use pve_anti_detection.Prelude.{ℕ, ◌+◌, ◌-◌, ◌^◌, Bool, ◌==◌, if◌then◌else◌, u64}

pub record Kernel : Type 0 where
  -- `kvm_caps`
  pub default_tsc_scaling_ratio : ℕ
  pub max_tsc_scaling_ratio : ℕ
  pub tsc_scaling_ratio_frac_bits : ℕ
  pub has_tsc_control : Bool
  -- the host's frequency
  pub tsc_khz : ℕ
  -- `mul_u64_u64_shr`, `mul_s64_u64_shr` and `mul_u64_u32_div`
  pub mul_u64_u64_shr : ℕ → ℕ → ℕ → ℕ
  pub mul_s64_u64_shr : ℕ → ℕ → ℕ → ℕ
  pub mul_u64_u32_div : ℕ → ℕ → ℕ → ℕ

-- The fields of `vcpu->arch` that this code reads and writes. `l2_tsc_offset` and `l2_tsc_multiplier`
-- are what the vendor's code answers for the nested guest; `written_offset` and `written_multiplier`
-- what it was last called to program.
pub record Vcpu : Type 0 where
  pub is_guest_mode : Bool
  pub l1_tsc_offset : ℕ
  pub tsc_offset : ℕ
  pub l1_tsc_scaling_ratio : ℕ
  pub tsc_scaling_ratio : ℕ
  pub l2_tsc_offset : ℕ
  pub l2_tsc_multiplier : ℕ
  pub written_offset : ℕ
  pub written_multiplier : ℕ
  pub virtual_tsc_khz : ℕ
  pub virtual_tsc_shift : ℕ
  pub virtual_tsc_mult : ℕ
  pub tsc_catchup : Bool
  pub tsc_always_catchup : Bool
  pub last_guest_tsc : ℕ
  pub this_tsc_generation : ℕ
  pub this_tsc_nsec : ℕ
  pub this_tsc_write : ℕ

-- `a - b` on `u64`
abbrev pub sub64 : ℕ → ℕ → ℕ
sub64 a b = u64 (a + (2 ^ 64 - u64 b))

module _ (k : Kernel) where
  unfoldable pub kvm_scale_tsc : ℕ → ℕ → ℕ
  kvm_scale_tsc tsc ratio =
      if ratio == k.default_tsc_scaling_ratio
      then tsc
      else k.mul_u64_u64_shr tsc ratio k.tsc_scaling_ratio_frac_bits

  -- The argument `host_tsc` is what `rdtsc()` returns.
  unfoldable pub kvm_compute_l1_tsc_offset : Vcpu → ℕ → ℕ → ℕ
  kvm_compute_l1_tsc_offset v host_tsc target_tsc =
      sub64 target_tsc (kvm_scale_tsc host_tsc v.l1_tsc_scaling_ratio)

  unfoldable pub kvm_read_l1_tsc : Vcpu → ℕ → ℕ
  kvm_read_l1_tsc v host_tsc = u64 (v.l1_tsc_offset + kvm_scale_tsc host_tsc v.l1_tsc_scaling_ratio)

  unfoldable pub kvm_calc_nested_tsc_offset : ℕ → ℕ → ℕ → ℕ
  kvm_calc_nested_tsc_offset l1_offset l2_offset l2_multiplier =
      let nested_offset =
        if l2_multiplier == k.default_tsc_scaling_ratio
        then l1_offset
        else k.mul_s64_u64_shr l1_offset l2_multiplier k.tsc_scaling_ratio_frac_bits in
      u64 (nested_offset + l2_offset)

  unfoldable pub kvm_calc_nested_tsc_multiplier : ℕ → ℕ → ℕ
  kvm_calc_nested_tsc_multiplier l1_multiplier l2_multiplier =
      if l2_multiplier == k.default_tsc_scaling_ratio
      then l1_multiplier
      else k.mul_u64_u64_shr l1_multiplier l2_multiplier k.tsc_scaling_ratio_frac_bits

  unfoldable pub kvm_vcpu_write_tsc_offset : Vcpu → ℕ → Vcpu
  unfolding kvm_calc_nested_tsc_offset
  kvm_vcpu_write_tsc_offset v l1_offset =
      let offset =
        if v.is_guest_mode
        then kvm_calc_nested_tsc_offset l1_offset v.l2_tsc_offset v.l2_tsc_multiplier
        else l1_offset in
      record v { l1_tsc_offset = l1_offset; tsc_offset = offset; written_offset = offset }

  unfoldable pub kvm_vcpu_write_tsc_multiplier : Vcpu → ℕ → Vcpu
  unfolding kvm_calc_nested_tsc_multiplier
  kvm_vcpu_write_tsc_multiplier v l1_multiplier =
      let ratio =
        if v.is_guest_mode
        then kvm_calc_nested_tsc_multiplier l1_multiplier v.l2_tsc_multiplier
        else l1_multiplier in
      record v {
        l1_tsc_scaling_ratio = l1_multiplier;
        tsc_scaling_ratio = ratio;
        written_multiplier = if k.has_tsc_control then ratio else v.written_multiplier;
      }

  unfoldable pub adjust_tsc_offset_guest : Vcpu → ℕ → Vcpu
  unfolding kvm_vcpu_write_tsc_offset
  adjust_tsc_offset_guest v adjustment =
      kvm_vcpu_write_tsc_offset v (u64 (v.l1_tsc_offset + adjustment))

  unfoldable pub adjust_tsc_offset_host : Vcpu → ℕ → Vcpu
  unfolding kvm_scale_tsc adjust_tsc_offset_guest
  adjust_tsc_offset_host v adjustment =
      adjust_tsc_offset_guest v (kvm_scale_tsc adjustment v.l1_tsc_scaling_ratio)
