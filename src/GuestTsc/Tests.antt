-- ===== src/GuestTsc/Tests.antt =====
-- The theorems on the guest's counter at a concrete host and machine.
use pve_anti_detection.Prelude.{ℕ, ◌+◌, ◌^◌, ◌<◌, ◌≡◌, refl, none, some, All, arith, u64}
use pve_anti_detection.GuestTsc.{Vcpu, kvm_scale_tsc, kvm_read_l1_tsc, kvm_vcpu_write_tsc_offset}
use pve_anti_detection.GuestTsc.TimeScale.{kvm_get_time_scale}
use pve_anti_detection.GuestTsc.TimeScale.Halts.{kvm_get_time_scale_total}
use pve_anti_detection.GuestTsc.Frequency.{kvm_set_tsc_khz}
use pve_anti_detection.GuestTsc.Sync.{
  can_use_master_clock, kvm_synchronize_tsc, kvm_track_tsc_matching, record_tsc_write,
  next_generation, is_synchronizing, value_of, set_by_user,
}
use pve_anti_detection.GuestTsc.Sync.Generations.Machine.{IsTracked}
use pve_anti_detection.GuestTsc.Sync.Generations.Reachable.{Reach-IsTracked}
use pve_anti_detection.GuestTsc.Sync.Generations.Clock.{kvm_read_l1_tsc-can_use_master_clock}
use pve_anti_detection.GuestTsc.Sample.{kernel, vcpu, host, synchronized, IsStable, reached}

kvm_get_time_scale_total_example :
    (shift : ℕ) × (multiplier : ℕ) × (kvm_get_time_scale 1000000000 3000000000
      ≡ some (shift, multiplier))
    × (shift < 2 ^ 8)
    × (multiplier < 2 ^ 32)
kvm_get_time_scale_total_example =
    kvm_get_time_scale_total 1000000000 3000000000 (omega arith) (omega arith) (omega arith)
      (omega arith)

-- The guest asks for 1.5 GHz.
-- The vCPU after a request for half the host's frequency.
abbrev slowed : Vcpu
slowed = elim (kvm_set_tsc_khz kernel 250 vcpu 1500000) [ none ↦ vcpu | some (v, ok) ↦ v ]

Reach-IsTracked_example : IsTracked 2 synchronized
Reach-IsTracked_example = Reach-IsTracked kernel IsStable (omega arith) reached

kvm_read_l1_tsc-can_use_master_clock_example :
    All
      (λ v.
        kvm_read_l1_tsc kernel v 9500
        ≡ u64 (synchronized.vm.cur_tsc_offset + kvm_scale_tsc kernel 9500 (2 ^ 32)))
      synchronized.vcpus
unfolding kvm_synchronize_tsc record_tsc_write next_generation is_synchronizing value_of set_by_user
    kvm_track_tsc_matching can_use_master_clock kvm_vcpu_write_tsc_offset
kvm_read_l1_tsc-can_use_master_clock_example =
    kvm_read_l1_tsc-can_use_master_clock kernel IsStable host (2 ^ 32) 9500 (omega arith)
      (λ h stable. stable) reached (omega arith) refl (refl, tt)
