-- ===== src/GuestTsc/Offsets.antt =====
-- What the guest, and a guest of the guest, read after an offset or a ratio was written.
use pve_anti_detection.Prelude.{ℕ, ◌+◌, ◌-◌, ◌≤◌, ◌≡◌, true, arith, u64, if◌then◌else◌}
use pve_anti_detection.GuestTsc.{
  Kernel, Vcpu, kvm_scale_tsc, kvm_compute_l1_tsc_offset, kvm_read_l1_tsc,
  kvm_calc_nested_tsc_offset, kvm_calc_nested_tsc_multiplier, kvm_vcpu_write_tsc_offset,
  kvm_vcpu_write_tsc_multiplier, adjust_tsc_offset_guest,
}

-- What the processor shows the running guest: the host's counter, scaled and offset as programmed.
abbrev pub shown : Kernel → Vcpu → ℕ → ℕ
shown k v host_tsc = u64 (v.written_offset + kvm_scale_tsc k host_tsc v.written_multiplier)

module _ (k : Kernel) where
  -- A guest whose counter is set to a value reads that value, and later that value and the scaled cycles
  -- that the host has counted since, modulo 2 ^ 64, if scaling keeps the order of the two readings.
  pub kvm_read_l1_tsc-kvm_compute_l1_tsc_offset :
      (v : Vcpu) (now later target : ℕ)
      → kvm_scale_tsc k now v.l1_tsc_scaling_ratio ≤ kvm_scale_tsc k later v.l1_tsc_scaling_ratio
      → kvm_read_l1_tsc k
          (kvm_vcpu_write_tsc_offset k v (kvm_compute_l1_tsc_offset k v now target))
          later
        ≡ u64 (
            target
            + (kvm_scale_tsc k later v.l1_tsc_scaling_ratio
                - kvm_scale_tsc k now v.l1_tsc_scaling_ratio))
  unfolding kvm_read_l1_tsc kvm_vcpu_write_tsc_offset kvm_compute_l1_tsc_offset
  kvm_read_l1_tsc-kvm_compute_l1_tsc_offset v now later target le = omega arith

  -- An adjustment moves what the guest reads by as much, modulo 2 ^ 64, at every reading of the host.
  pub kvm_read_l1_tsc-adjust_tsc_offset_guest :
      (v : Vcpu) (adjustment host_tsc : ℕ)
      → kvm_read_l1_tsc k (adjust_tsc_offset_guest k v adjustment) host_tsc
        ≡ u64 (kvm_read_l1_tsc k v host_tsc + adjustment)
  unfolding kvm_read_l1_tsc adjust_tsc_offset_guest kvm_vcpu_write_tsc_offset
  kvm_read_l1_tsc-adjust_tsc_offset_guest v adjustment host_tsc = omega arith

  -- With the ratio and the offset written, in this order, the processor shows a guest what KVM computes
  -- for it, and a guest of the guest that with the inner guest's offset added, if the inner guest
  -- asks for no scaling of its own.
  pub shown-kvm_read_l1_tsc :
      (v : Vcpu) (ratio offset host_tsc : ℕ)
      → k.has_tsc_control ≡ true
      → v.l2_tsc_multiplier ≡ k.default_tsc_scaling_ratio
      → let v' = kvm_vcpu_write_tsc_offset k (kvm_vcpu_write_tsc_multiplier k v ratio) offset in
        shown k v' host_tsc
        ≡ u64 (kvm_read_l1_tsc k v' host_tsc + (if v.is_guest_mode then v.l2_tsc_offset else 0))
  unfolding kvm_read_l1_tsc kvm_vcpu_write_tsc_offset kvm_vcpu_write_tsc_multiplier
      kvm_calc_nested_tsc_offset kvm_calc_nested_tsc_multiplier
  shown-kvm_read_l1_tsc v ratio offset host_tsc control plain = ground arith
