-- ===== src/GuestTsc/Master.antt =====
-- x86.c: the master clock of a machine (lines 2290 to 2339, 2849 to 2968 and 3008 to 3085), for a
-- 64-bit kernel: the copy of the host's time, reading it together with the counter, and
-- `pvclock_update_vm_gtod_copy`.
--
-- The sequence lock of the copy is a parameter: a reader works on a copy that is not being updated, as
-- `read_seqcount_retry` makes sure. The page of Hyper-V is one as well.
pub mod Raw
use pve_anti_detection.Prelude.{
  ℕ, ◌+◌, ◌*◌, ◌/◌, ◌%◌, ◌^◌, Bool, true, false, not, ◌&&◌, Option, none, some, leb, ◌==◌,
  if◌then◌else◌, u64,
}
use pve_anti_detection.GuestTsc.{sub64}
use pve_anti_detection.GuestTsc.Frequency.{nsec_per_sec}
use pve_anti_detection.GuestTsc.Sync.{
  ClockMode, clockmode_tsc, clockmode_hvclock, clockmode_other, gtod_is_based_on_tsc, Kvm,
}

-- `struct pvclock_clock`
pub record PvclockClock : Type 0 where
  pub vclock_mode : ClockMode
  pub cycle_last : ℕ
  pub mask : ℕ
  pub mult : ℕ
  pub shift : ℕ
  pub base_cycles : ℕ
  pub offset : ℕ

-- `struct pvclock_gtod_data`, without its lock
pub record GtodData : Type 0 where
  pub clock : PvclockClock
  pub raw_clock : PvclockClock
  pub offs_boot : ℕ
  pub wall_time_sec : ℕ

-- What the timekeeper hands over: `tkr_mono` and `tkr_raw` of `struct timekeeper`.
pub record ReadBase : Type 0 where
  pub vdso_clock_mode : ClockMode
  pub cycle_last : ℕ
  pub mask : ℕ
  pub mult : ℕ
  pub shift : ℕ
  pub xtime_nsec : ℕ
  pub base : ℕ

pub record Timekeeper : Type 0 where
  pub tkr_mono : ReadBase
  pub tkr_raw : ReadBase
  pub xtime_sec : ℕ
  pub offs_boot : ℕ

unfoldable pub copy_clock : ReadBase → PvclockClock
copy_clock tkr = record {
  vclock_mode = tkr.vdso_clock_mode;
  cycle_last = tkr.cycle_last;
  mask = tkr.mask;
  mult = tkr.mult;
  shift = tkr.shift;
  base_cycles = tkr.xtime_nsec;
  offset = tkr.base;
}

unfoldable pub update_pvclock_gtod : Timekeeper → GtodData
unfolding copy_clock
update_pvclock_gtod tk = record {
  clock = copy_clock tk.tkr_mono;
  raw_clock = copy_clock tk.tkr_raw;
  offs_boot = tk.offs_boot;
  wall_time_sec = tk.xtime_sec;
}

-- One look at the counters: `rdtsc_ordered()`, and the time-stamp and the value of the page of Hyper-V
-- where that page is valid.
pub record Reading : Type 0 where
  pub rdtsc_ordered : ℕ
  pub hv_tsc_page : Option (ℕ × ℕ)

unfoldable pub read_tsc : GtodData → Reading → ℕ
read_tsc gtod r =
    if leb gtod.clock.cycle_last r.rdtsc_ordered then r.rdtsc_ordered else gtod.clock.cycle_last

-- `v` for a reading of the counter. The timekeeper's masks are one less than a power of 2.
unfoldable pub elapsed_cycles : PvclockClock → ℕ → ℕ
elapsed_cycles clock tsc = sub64 tsc clock.cycle_last % (clock.mask + 1)

-- What `vgettsc` returns, `*tsc_timestamp` and `*mode`.
unfoldable pub vgettsc : GtodData → Reading → PvclockClock → ℕ × ℕ × ClockMode
unfolding read_tsc elapsed_cycles
vgettsc gtod r clock = elim clock.vclock_mode [
  | clockmode_hvclock ↦ elim r.hv_tsc_page [
    | none ↦ (0, 0, clockmode_other)
    | some (tsc_timestamp, tsc_pg_val) ↦
        (u64 (elapsed_cycles clock tsc_pg_val * clock.mult), tsc_timestamp, clockmode_hvclock)
  ]
  | clockmode_tsc ↦
      let tsc_timestamp = read_tsc gtod r in
      (u64 (elapsed_cycles clock tsc_timestamp * clock.mult), tsc_timestamp, clockmode_tsc)
  | clockmode_other ↦ (0, 0, clockmode_other)
]

-- `*t`, `*tsc_timestamp` and the mode.
unfoldable pub do_monotonic_raw : GtodData → Reading → ℕ × ℕ × ClockMode
unfolding vgettsc
do_monotonic_raw gtod r =
    let clock = gtod.raw_clock in
    let (cycles, tsc_timestamp, mode) = vgettsc gtod r clock in
    let ns = u64 (clock.base_cycles + cycles) / 2 ^ clock.shift in
    (u64 (ns + (clock.offset + gtod.offs_boot)), tsc_timestamp, mode)

-- `ts->tv_sec`, `ts->tv_nsec`, `*tsc_timestamp` and the mode.
unfoldable pub do_realtime : GtodData → Reading → ℕ × ℕ × ℕ × ClockMode
unfolding vgettsc
do_realtime gtod r =
    let clock = gtod.clock in
    let (cycles, tsc_timestamp, mode) = vgettsc gtod r clock in
    let ns = u64 (clock.base_cycles + cycles) / 2 ^ clock.shift in
    (gtod.wall_time_sec + ns / nsec_per_sec, ns % nsec_per_sec, tsc_timestamp, mode)

-- The fields of `kvm->arch` about the master clock, and `kvm_guest_has_master_clock`.
pub record Master : Type 0 where
  pub master_kernel_ns : ℕ
  pub master_cycle_now : ℕ
  pub kvmclock_offset : ℕ
  pub backwards_tsc_observed : Bool
  pub boot_vcpu_runs_old_kvmclock : Bool
  pub guest_has_master_clock : Bool

-- `*kernel_ns`, `*tsc_timestamp` and the result.
unfoldable pub kvm_get_time_and_clockread : GtodData → Reading → Master → Master × Bool
unfolding do_monotonic_raw
kvm_get_time_and_clockread gtod r m =
    let (ns, tsc_timestamp, mode) = do_monotonic_raw gtod r in
    if gtod_is_based_on_tsc gtod.clock.vclock_mode
    then (
      record m { master_kernel_ns = ns; master_cycle_now = tsc_timestamp },
      gtod_is_based_on_tsc mode,
    )
    else (m, false)

-- The wall clock with the counter, where the host's clock is based on it.
unfoldable pub kvm_get_walltime_and_clockread : GtodData → Reading → Option (ℕ × ℕ × ℕ)
unfolding do_realtime
kvm_get_walltime_and_clockread gtod r =
    let (tv_sec, tv_nsec, tsc_timestamp, mode) = do_realtime gtod r in
    if gtod_is_based_on_tsc gtod.clock.vclock_mode && gtod_is_based_on_tsc mode
    then some (tv_sec, tv_nsec, tsc_timestamp)
    else none

unfoldable pub pvclock_update_vm_gtod_copy : GtodData → Reading → Kvm → Master → Kvm × Master
unfolding kvm_get_time_and_clockread
pvclock_update_vm_gtod_copy gtod r vm m =
    let vcpus_matched = vm.nr_vcpus_matched_tsc + 1 == vm.online_vcpus in
    let (m', host_tsc_clocksource) = kvm_get_time_and_clockread gtod r m in
    let use_master_clock =
      host_tsc_clocksource
      && vcpus_matched
      && not m.backwards_tsc_observed
      && not m.boot_vcpu_runs_old_kvmclock in
    (
      record vm { use_master_clock = use_master_clock },
      record m' {
        guest_has_master_clock = if use_master_clock then true else m.guest_has_master_clock;
      },
    )
