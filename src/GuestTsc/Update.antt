-- ===== src/GuestTsc/Update.antt =====
-- x86.c: the clock that KVM shows a guest (lines 2543 to 2550, 3095 to 3101 and 3208 to 3318):
-- `compute_guest_tsc`, `get_cpu_tsc_khz` and `kvm_guest_time_update`.
--
-- `pvclock_scale_delta` of the kernel's headers, and the calls for Xen's and Hyper-V's own copies, which
-- come after everything modelled here, are left to the kernel.
pub mod Steps
pub mod Shared
pub mod CatchUp
use pve_anti_detection.Prelude.{
  ℕ, ◌+◌, ◌-◌, ◌*◌, Bool, true, false, ◌&&◌, Option, none, some, List, ltb, ◌==◌, if◌then◌else◌,
  u64,
}
use pve_anti_detection.GuestTsc.{
  Kernel, Vcpu, sub64, kvm_scale_tsc, kvm_read_l1_tsc, adjust_tsc_offset_guest,
}
use pve_anti_detection.GuestTsc.Frequency.{nsec_per_sec}
use pve_anti_detection.GuestTsc.TimeScale.{kvm_get_time_scale}
use pve_anti_detection.GuestTsc.Sync.{Kvm}
use pve_anti_detection.GuestTsc.Page.{TimeInfo, Field, Clock, store_all, kvm_setup_guest_pvclock}
use pve_anti_detection.GuestTsc.Master.{Master}

-- The processor and the host's clock at the update: `rdtsc()`, `get_kvmclock_base_ns()`, the per-CPU
-- `cpu_tsc_khz`, and whether the counter's frequency is constant; whether the machine withholds the mark
-- of a stable counter from Xen's copies; and the order in which `memcpy` stores.
pub record Cpu : Type 0 where
  pub rdtsc : ℕ
  pub kvmclock_base_ns : ℕ
  pub cpu_tsc_khz : ℕ
  pub constant_tsc : Bool
  pub xen_pvclock_tsc_unstable : Bool
  pub memcpy_order : List Field

-- The guest's pages that are active and mapped.
pub record Pages : Type 0 where
  pub pv_time : Option TimeInfo
  pub vcpu_info_cache : Option TimeInfo
  pub vcpu_time_info_cache : Option TimeInfo

-- 1, with a request to try again; 0, with what was changed; or an endless loop for the time scale.
pub data Result : Type 0 where
  try_again : Result
  endless : Result
  updated : Vcpu → Clock → Pages → Result

-- One page, after its update.
unfoldable pub set_page : List Field → Option TimeInfo → Clock → Bool → Option TimeInfo × Clock
set_page order none c force = (none, c)
set_page order (some page) c force =
    let after = kvm_setup_guest_pvclock order page c force in
    (some (store_all after.0 page), after.1)

unfoldable pub set_pages : Cpu → Pages → Clock → Clock × Pages
unfolding set_page
set_pages cpu pages c =
    let first = set_page cpu.memcpy_order pages.pv_time c false in
    let second =
      set_page cpu.memcpy_order pages.vcpu_info_cache first.1 cpu.xen_pvclock_tsc_unstable in
    let third =
      set_page cpu.memcpy_order pages.vcpu_time_info_cache second.1 cpu.xen_pvclock_tsc_unstable in
    (
      third.1,
      record { pv_time = first.0; vcpu_info_cache = second.0; vcpu_time_info_cache = third.0 },
    )

-- The reading of the counter and of the clock that the update is based on.
abbrev pub base_tsc : Cpu → Kvm → Master → ℕ
base_tsc cpu vm m = if vm.use_master_clock then m.master_cycle_now else cpu.rdtsc

abbrev pub base_ns : Cpu → Kvm → Master → ℕ
base_ns cpu vm m = if vm.use_master_clock then m.master_kernel_ns else cpu.kvmclock_base_ns

module _ (k : Kernel) (pvclock_scale_delta : ℕ → ℕ → ℕ → ℕ) where
  unfoldable pub compute_guest_tsc : Vcpu → ℕ → ℕ
  compute_guest_tsc v kernel_ns = u64 (
      pvclock_scale_delta (sub64 kernel_ns v.this_tsc_nsec) v.virtual_tsc_mult v.virtual_tsc_shift
      + v.this_tsc_write)

  unfoldable pub get_cpu_tsc_khz : Cpu → ℕ
  get_cpu_tsc_khz cpu = if cpu.constant_tsc then k.tsc_khz else cpu.cpu_tsc_khz

  -- The counter of the guest at `host_tsc`, brought up to the clock where it is to catch up.
  unfoldable pub catch_up : Vcpu → ℕ → ℕ → Vcpu × ℕ
  unfolding compute_guest_tsc
  catch_up v host_tsc kernel_ns =
      let tsc_timestamp = kvm_read_l1_tsc k v host_tsc in
      let tsc = compute_guest_tsc v kernel_ns in
      if v.tsc_catchup && ltb tsc_timestamp tsc
      then (adjust_tsc_offset_guest k v (tsc - tsc_timestamp), tsc)
      else (v, tsc_timestamp)

  -- The scale of the guest's frequency, kept from the last update where that has not changed.
  unfoldable pub rescale : Clock → ℕ → Option Clock
  rescale c tgt_tsc_khz =
      if c.hw_tsc_khz == tgt_tsc_khz
      then some c
      else elim (kvm_get_time_scale nsec_per_sec (u64 (tgt_tsc_khz * 1000))) [
        | none ↦ none
        | some (shift, mul) ↦ some (record {
          hv_clock = record c.hv_clock { tsc_shift = shift; tsc_to_system_mul = mul };
          pvclock_set_guest_stopped_request = c.pvclock_set_guest_stopped_request;
          hw_tsc_khz = tgt_tsc_khz;
        })
      ]

  -- The values of the update, in the vCPU's structure.
  unfoldable pub fill : Clock → ℕ → ℕ → Bool → Clock
  fill c tsc_timestamp system_time use_master_clock = record c {
    hv_clock = record c.hv_clock {
      tsc_timestamp = tsc_timestamp;
      system_time = system_time;
      flags = if use_master_clock then 1 else 0;
    };
  }

  -- The frequency of the guest's counter.
  unfoldable pub tgt_tsc_khz : Cpu → Vcpu → ℕ
  unfolding get_cpu_tsc_khz
  tgt_tsc_khz cpu v =
      if k.has_tsc_control
      then kvm_scale_tsc k (get_cpu_tsc_khz cpu) v.l1_tsc_scaling_ratio
      else get_cpu_tsc_khz cpu

  unfoldable pub kvm_guest_time_update : Cpu → Kvm → Master → Vcpu → Clock → Pages → Result
  unfolding get_cpu_tsc_khz catch_up rescale fill set_pages tgt_tsc_khz
  kvm_guest_time_update cpu vm m v c pages =
      let (v', tsc_timestamp) = catch_up v (base_tsc cpu vm m) (base_ns cpu vm m) in
      if get_cpu_tsc_khz cpu == 0 then try_again else elim (rescale c (tgt_tsc_khz cpu v')) [
        | none ↦ endless
        | some c' ↦
            let system_time = u64 (base_ns cpu vm m + m.kvmclock_offset) in
            let filled = fill c' tsc_timestamp system_time vm.use_master_clock in
            let (c'', pages') = set_pages cpu pages filled in
            updated (record v' { last_guest_tsc = tsc_timestamp }) c'' pages'
      ]
