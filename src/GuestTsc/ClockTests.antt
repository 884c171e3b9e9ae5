-- ===== src/GuestTsc/ClockTests.antt =====
-- The theorems on the guest's clock and its page at a concrete host and machine.
use mathlib.Core.List.{Memᴰ}
use pve_anti_detection.Prelude.{
  ℕ, ◌+◌, ◌-◌, ◌*◌, ◌/◌, ◌^◌, ◌≡◌, inl, inr, refl, max, true, false, none, some, [], ◌∷◌, List,
  arith, u32, not, ◌&&◌, ◌==◌, if◌then◌else◌, All,
}
use pve_anti_detection.GuestTsc.{
  Vcpu, kvm_scale_tsc, kvm_compute_l1_tsc_offset, kvm_read_l1_tsc, kvm_vcpu_write_tsc_offset,
  adjust_tsc_offset_guest,
}
use pve_anti_detection.GuestTsc.TimeScale.{kvm_get_time_scale, lower, raise, div_frac}
use pve_anti_detection.GuestTsc.Sync.{
  Kvm, clockmode_tsc, can_use_master_clock, kvm_synchronize_tsc, kvm_track_tsc_matching,
  record_tsc_write, next_generation, is_synchronizing, value_of, set_by_user,
}
use pve_anti_detection.GuestTsc.Page.{
  TimeInfo, Field, field_version, field_tsc_timestamp, field_system_time, field_tsc_to_system_mul,
  field_tsc_shift, field_flags, Clock, store_all, clear_stable, merged_flags, prepared, memcpy,
  remaining, kvm_setup_guest_pvclock,
}
use pve_anti_detection.GuestTsc.Page.Contents.{IsMarked, Covers, kvm_setup_guest_pvclock-store_all}
use pve_anti_detection.GuestTsc.Page.Readers.{
  GuestReader, System, update, next, begin, read, Reach, start, later,
}
use pve_anti_detection.GuestTsc.Page.Readers.Ordered.{Agrees}
use pve_anti_detection.GuestTsc.Page.Readers.Snapshot.{Reach-Agrees}
use pve_anti_detection.GuestTsc.Master.{
  GtodData, PvclockClock, Master, Reading, read_tsc, elapsed_cycles, vgettsc, do_monotonic_raw,
  kvm_get_time_and_clockread, pvclock_update_vm_gtod_copy,
}
use pve_anti_detection.GuestTsc.Master.Raw.{time_at, pvclock_update_vm_gtod_copy-time_at}
use pve_anti_detection.GuestTsc.Update.{
  Cpu, Pages, Result, updated, try_again, endless, base_tsc, base_ns, compute_guest_tsc,
  get_cpu_tsc_khz, catch_up, rescale, fill, set_page, set_pages, tgt_tsc_khz, kvm_guest_time_update,
}
use pve_anti_detection.GuestTsc.Update.CatchUp.{due, kvm_guest_time_update-catch_up}
use pve_anti_detection.GuestTsc.Update.Shared.{
  guest_time, IsShown, kvm_guest_time_update-guest_time,
}
use pve_anti_detection.GuestTsc.Sample.{
  kernel, vcpu, host, created, synchronized, IsStable, reached,
}

abbrev fields : List Field
fields =
    field_version ∷ field_tsc_timestamp ∷ field_system_time ∷ field_tsc_to_system_mul
    ∷ field_tsc_shift ∷ field_flags ∷ []

fields-Covers : Covers fields
fields-Covers field_version = inl refl
fields-Covers field_tsc_timestamp = inr (inl refl)
fields-Covers field_system_time = inr (inr (inl refl))
fields-Covers field_tsc_to_system_mul = inr (inr (inr (inl refl)))
fields-Covers field_tsc_shift = inr (inr (inr (inr (inl refl))))
fields-Covers field_flags = inr (inr (inr (inr (inr (inl refl)))))

abbrev blank : TimeInfo
blank = record {
  version = 0;
  tsc_timestamp = 0;
  system_time = 0;
  tsc_to_system_mul = 0;
  tsc_shift = 0;
  flags = 0;
}

abbrev clock : Clock
clock = record {
  hv_clock = record blank { tsc_timestamp = 70; system_time = 9; flags = 1 };
  pvclock_set_guest_stopped_request = true;
  hw_tsc_khz = 0;
}

kvm_setup_guest_pvclock-store_all_example :
    let after = kvm_setup_guest_pvclock fields blank clock true in
    let hv = after.1.hv_clock in
    (store_all after.0 blank
      ≡ record hv { flags = if true then clear_stable hv.flags else hv.flags })
    × (hv ≡ record clock.hv_clock { version = u32 (0 + 2); flags = hv.flags })
    × IsMarked clock.hv_clock.flags hv.flags true
    × (after.1.pvclock_set_guest_stopped_request ≡ false)
kvm_setup_guest_pvclock-store_all_example =
    kvm_setup_guest_pvclock-store_all fields blank clock true fields-Covers

-- A guest that reads one field of a page after an update.
abbrev after : TimeInfo
after = record {
  version = 2;
  tsc_timestamp = 70;
  system_time = 9;
  tsc_to_system_mul = 0;
  tsc_shift = 0;
  flags = 3;
}

abbrev copied : GuestReader
copied = record { seen = 2; since = 2; copy = (field_system_time, 9) ∷ [] }

abbrev read_after : System
read_after = record {
  page = after;
  pending = [];
  reader = some copied;
  published = after;
  changes = 2;
}

read_after-Reach : Reach fields read_after
unfolding kvm_setup_guest_pvclock prepared merged_flags remaining memcpy
read_after-Reach =
    let r = later (start blank (omega arith) refl) (update clock false _ _ refl refl) in
    let r' = later (later (later r (next _ _ refl)) (next _ _ refl)) (next _ _ refl) in
    let r'' = later (later (later r' (next _ _ refl)) (next _ _ refl)) (next _ _ refl) in
    later (later (later r'' (next _ _ refl)) begin) (read _ field_system_time refl)

Reach-Agrees_example : All (Agrees after) ((field_system_time, 9) ∷ []) × (read_after.pending ≡ [])
Reach-Agrees_example = Reach-Agrees fields copied read_after-Reach refl refl refl (omega arith)

abbrev tsc_clock : PvclockClock
tsc_clock = record {
  vclock_mode = clockmode_tsc;
  cycle_last = 8000;
  mask = 2 ^ 64 - 1;
  mult = 3;
  shift = 1;
  base_cycles = 100;
  offset = 7;
}

abbrev gtod : GtodData
gtod = record { clock = tsc_clock; raw_clock = tsc_clock; offs_boot = 2; wall_time_sec = 0 }

abbrev reading : Reading
reading = record { rdtsc_ordered = 9000; hv_tsc_page = none }

abbrev master : Master
master = record {
  master_kernel_ns = 0;
  master_cycle_now = 0;
  kvmclock_offset = 0;
  backwards_tsc_observed = false;
  boot_vcpu_runs_old_kvmclock = false;
  guest_has_master_clock = false;
}

pvclock_update_vm_gtod_copy-time_at_example :
    let (vm', m') = pvclock_update_vm_gtod_copy gtod reading synchronized.vm master in
    (m'.master_cycle_now ≡ 9000)
    × (m'.master_kernel_ns ≡ time_at gtod 9000)
    × (vm'.use_master_clock ≡ (
        (synchronized.vm.nr_vcpus_matched_tsc + 1 == synchronized.vm.online_vcpus)
        && not false
        && not false))
pvclock_update_vm_gtod_copy-time_at_example =
    pvclock_update_vm_gtod_copy-time_at gtod reading synchronized.vm master (record {
      mode = refl;
      raw_mode = refl;
      mask = refl;
      one = refl;
      before = omega arith;
      bound = omega arith;
      fits = omega arith;
    })

abbrev cpu : Cpu
cpu = record {
  rdtsc = 9500;
  kvmclock_base_ns = 3200;
  cpu_tsc_khz = 0;
  constant_tsc = true;
  xen_pvclock_tsc_unstable = false;
  memcpy_order = fields;
}

abbrev pages : Pages
pages = record { pv_time = some blank; vcpu_info_cache = none; vcpu_time_info_cache = none }

-- `pvclock_scale_delta` without its shift.
abbrev scale : ℕ → ℕ → ℕ → ℕ
scale delta mul shift = delta * mul / 2 ^ 32

-- A vCPU that is to catch up, at 3 GHz.
abbrev late : Vcpu
late = record vcpu { tsc_catchup = true; virtual_tsc_mult = 3 * 2 ^ 32 }

kvm_guest_time_update-catch_up_example :
    let host_tsc = base_tsc cpu created master in
    let shown = kvm_read_l1_tsc kernel late host_tsc in
    let expected = due kernel scale late (base_ns cpu created master) in
    (kvm_read_l1_tsc kernel
        (record late {
          l1_tsc_offset = 100;
          tsc_offset = 100;
          written_offset = 100;
          last_guest_tsc = 9600;
        })
        host_tsc
      ≡ 9600)
    × (9600 ≡ (if true then max shown expected else shown))
unfolding kvm_guest_time_update get_cpu_tsc_khz catch_up compute_guest_tsc rescale fill set_page
    set_pages tgt_tsc_khz kvm_scale_tsc kvm_read_l1_tsc adjust_tsc_offset_guest
    kvm_vcpu_write_tsc_offset kvm_get_time_scale lower raise div_frac kvm_setup_guest_pvclock
    prepared merged_flags remaining memcpy
kvm_guest_time_update-catch_up_example =
    kvm_guest_time_update-catch_up kernel scale cpu created master late clock pages _ _ _ refl

-- The machine's vCPU, and what is published for it on two processors.
abbrev member : Vcpu
member = (kvm_synchronize_tsc kernel host created vcpu none).1

abbrev vm_after : Kvm
vm_after = (pvclock_update_vm_gtod_copy gtod reading synchronized.vm master).0

abbrev master_after : Master
master_after = (pvclock_update_vm_gtod_copy gtod reading synchronized.vm master).1

abbrev other_cpu : Cpu
other_cpu = record cpu { rdtsc = 9700; kvmclock_base_ns = 3300 }

abbrev outcome : Cpu → Result
outcome c = kvm_guest_time_update kernel scale c vm_after master_after member clock pages

abbrev vcpu_of : Result → Vcpu
vcpu_of (updated v c p) = v
vcpu_of try_again = vcpu
vcpu_of endless = vcpu

abbrev clock_of : Result → Clock
clock_of (updated v c p) = c
clock_of try_again = clock
clock_of endless = clock

abbrev pages_of : Result → Pages
pages_of (updated v c p) = p
pages_of try_again = pages
pages_of endless = pages

shown :
    IsShown kernel scale cpu vm_after master_after member
      (vcpu_of (outcome cpu))
      (clock_of (outcome cpu))
unfolding kvm_guest_time_update get_cpu_tsc_khz catch_up compute_guest_tsc rescale fill set_page
    set_pages tgt_tsc_khz kvm_scale_tsc kvm_read_l1_tsc kvm_vcpu_write_tsc_offset kvm_get_time_scale
    lower raise div_frac kvm_setup_guest_pvclock prepared merged_flags remaining memcpy
    kvm_synchronize_tsc record_tsc_write next_generation is_synchronizing value_of set_by_user
    kvm_track_tsc_matching can_use_master_clock pvclock_update_vm_gtod_copy
    kvm_get_time_and_clockread do_monotonic_raw vgettsc elapsed_cycles read_tsc
    kvm_compute_l1_tsc_offset
shown = record {
  before = clock;
  pages = pages;
  pages_after = pages_of (outcome cpu);
  scaled = inl refl;
  plain = refl;
  updates = refl;
}

shown_elsewhere :
    IsShown kernel scale other_cpu vm_after master_after member
      (vcpu_of (outcome other_cpu))
      (clock_of (outcome other_cpu))
unfolding kvm_guest_time_update get_cpu_tsc_khz catch_up compute_guest_tsc rescale fill set_page
    set_pages tgt_tsc_khz kvm_scale_tsc kvm_read_l1_tsc kvm_vcpu_write_tsc_offset kvm_get_time_scale
    lower raise div_frac kvm_setup_guest_pvclock prepared merged_flags remaining memcpy
    kvm_synchronize_tsc record_tsc_write next_generation is_synchronizing value_of set_by_user
    kvm_track_tsc_matching can_use_master_clock pvclock_update_vm_gtod_copy
    kvm_get_time_and_clockread do_monotonic_raw vgettsc elapsed_cycles read_tsc
    kvm_compute_l1_tsc_offset
shown_elsewhere = record {
  before = clock;
  pages = pages;
  pages_after = pages_of (outcome other_cpu);
  scaled = inl refl;
  plain = refl;
  updates = refl;
}

kvm_guest_time_update-guest_time_example :
    guest_time scale
      (clock_of (outcome cpu)).hv_clock
      (kvm_read_l1_tsc kernel (vcpu_of (outcome cpu)) 9900)
    ≡ guest_time scale
        (clock_of (outcome other_cpu)).hv_clock
        (kvm_read_l1_tsc kernel (vcpu_of (outcome other_cpu)) 9900)
unfolding kvm_guest_time_update get_cpu_tsc_khz catch_up compute_guest_tsc rescale fill set_page
    set_pages tgt_tsc_khz kvm_scale_tsc kvm_read_l1_tsc kvm_vcpu_write_tsc_offset kvm_get_time_scale
    lower raise div_frac kvm_setup_guest_pvclock prepared merged_flags remaining memcpy
    kvm_synchronize_tsc record_tsc_write next_generation is_synchronizing value_of set_by_user
    kvm_track_tsc_matching can_use_master_clock pvclock_update_vm_gtod_copy
    kvm_get_time_and_clockread do_monotonic_raw vgettsc elapsed_cycles read_tsc
    kvm_compute_l1_tsc_offset
kvm_guest_time_update-guest_time_example =
    kvm_guest_time_update-guest_time kernel scale IsStable host gtod reading master (2 ^ 32) 9900
      cpu other_cpu member member (vcpu_of (outcome cpu)) (vcpu_of (outcome other_cpu))
      (clock_of (outcome cpu)) (clock_of (outcome other_cpu)) (omega arith) (λ h stable. stable)
      reached (omega arith) refl refl (refl, tt) (Memᴰ.head refl) (Memᴰ.head refl) shown
      shown_elsewhere refl (omega arith)
