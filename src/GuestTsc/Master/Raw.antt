-- ===== src/GuestTsc/Master/Raw.antt =====
-- The time that is read together with the counter.
use pve_anti_detection.Prelude.{
  ℕ, ◌+◌, ◌-◌, ◌*◌, ◌/◌, ◌^◌, ◌≤◌, ◌<◌, ◌≡◌, refl, sym, ap, ◌∙◌, max, arith, u64, not, ◌&&◌, ◌==◌,
}
use pve_anti_detection.GuestTsc.Sync.{clockmode_tsc, Kvm}
use pve_anti_detection.GuestTsc.Master.{
  GtodData, Reading, Master, read_tsc, elapsed_cycles, vgettsc, do_monotonic_raw,
  kvm_get_time_and_clockread, pvclock_update_vm_gtod_copy,
}

-- The host's clock counts by the counter, both parts of the copy start at one reading of it, and nothing
-- overflows up to the counter `tsc`.
pub record IsTscClock (gtod : GtodData) (tsc : ℕ) : Type 0 where
  pub mode : gtod.clock.vclock_mode ≡ clockmode_tsc
  pub raw_mode : gtod.raw_clock.vclock_mode ≡ clockmode_tsc
  pub mask : gtod.raw_clock.mask ≡ 2 ^ 64 - 1
  pub one : gtod.raw_clock.cycle_last ≡ gtod.clock.cycle_last
  pub before : gtod.clock.cycle_last ≤ tsc
  pub bound : tsc < 2 ^ 64
  pub fits :
      gtod.raw_clock.base_cycles + (tsc - gtod.clock.cycle_last) * gtod.raw_clock.mult < 2 ^ 64

-- The clock in nanoseconds since boot when the counter is at `tsc`.
abbrev pub time_at : GtodData → ℕ → ℕ
time_at gtod tsc =
    let clock = gtod.raw_clock in
    u64 (
      (clock.base_cycles + (tsc - clock.cycle_last) * clock.mult) / 2 ^ clock.shift
      + (clock.offset + gtod.offs_boot))

read_tsc_lem :
    (gtod : GtodData) (r : Reading) → read_tsc gtod r ≡ max r.rdtsc_ordered gtod.clock.cycle_last
unfolding read_tsc
read_tsc_lem gtod r = ground arith

elapsed_cycles_lem :
    (gtod : GtodData) (tsc : ℕ)
    → IsTscClock gtod tsc
    → elapsed_cycles gtod.raw_clock tsc ≡ tsc - gtod.clock.cycle_last
unfolding elapsed_cycles
elapsed_cycles_lem gtod tsc i = rw i.mask (omega (arith, i.one, i.before, i.bound))

vgettsc_lem :
    (gtod : GtodData) (r : Reading) (tsc : ℕ)
    → tsc ≡ max r.rdtsc_ordered gtod.clock.cycle_last
    → IsTscClock gtod tsc
    → vgettsc gtod r gtod.raw_clock
      ≡ ((tsc - gtod.clock.cycle_last) * gtod.raw_clock.mult, tsc, clockmode_tsc)
unfolding vgettsc
vgettsc_lem gtod r tsc e i =
    let counter : read_tsc gtod r ≡ tsc = read_tsc_lem gtod r ∙ sym e in
    rw (vgettsc, i.raw_mode, counter, elapsed_cycles_lem gtod tsc i)
      (ap (λ x. (x, tsc, clockmode_tsc)) (omega (arith, i.fits)))

-- Where the host's clock counts by the counter, an update of the master clock takes the larger of the
-- processor's counter and the last one that the host's clock was based on, together with the time that
-- the clock has at that very counter; and the master clock is in use if all vCPUs match, no counter
-- was seen to go back and the first vCPU has no old clock. Nothing may overflow up to that counter.
pub pvclock_update_vm_gtod_copy-time_at :
    (gtod : GtodData) (r : Reading) (vm : Kvm) (m : Master)
    → IsTscClock gtod (max r.rdtsc_ordered gtod.clock.cycle_last)
    → let tsc = max r.rdtsc_ordered gtod.clock.cycle_last in
      let (vm', m') = pvclock_update_vm_gtod_copy gtod r vm m in
      (m'.master_cycle_now ≡ tsc)
      × (m'.master_kernel_ns ≡ time_at gtod tsc)
      × (vm'.use_master_clock ≡ (
          (vm.nr_vcpus_matched_tsc + 1 == vm.online_vcpus)
          && not m.backwards_tsc_observed
          && not m.boot_vcpu_runs_old_kvmclock))
unfolding pvclock_update_vm_gtod_copy kvm_get_time_and_clockread do_monotonic_raw
pvclock_update_vm_gtod_copy-time_at gtod r vm m i =
    let tsc = max r.rdtsc_ordered gtod.clock.cycle_last in
    let e = vgettsc_lem gtod r tsc refl i in
    let clock = gtod.raw_clock in
    let whole : u64 (clock.base_cycles + (tsc - gtod.clock.cycle_last) * clock.mult)
        ≡ clock.base_cycles + (tsc - clock.cycle_last) * clock.mult =
      rw i.one (omega (arith, i.fits)) in
    (
      rw (e, i.mode) refl,
      rw (e, i.mode) (ap (λ x. u64 (x / 2 ^ clock.shift + (clock.offset + gtod.offs_boot))) whole),
      rw (e, i.mode) refl,
    )
