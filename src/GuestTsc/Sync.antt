-- ===== src/GuestTsc/Sync.antt =====
-- x86.c: the synchronisation of the vCPUs' counters (lines 2553 to 2588 and 2696 to 2829):
-- `kvm_track_tsc_matching`, `__kvm_synchronize_tsc` and `kvm_synchronize_tsc`, for a 64-bit kernel.
pub mod Generations
use pve_anti_detection.Prelude.{
  ℕ, suc, ◌+◌, ◌-◌, ◌*◌, ◌^◌, Bool, true, false, not, ◌&&◌, ◌||◌, Option, none, some, ltb, ◌==◌,
  if◌then◌else◌, u64, differ,
}
use pve_anti_detection.GuestTsc.{
  Kernel, Vcpu, sub64, kvm_compute_l1_tsc_offset, kvm_vcpu_write_tsc_offset,
}

-- The host's clock source.
pub data ClockMode : Type 0 where
  clockmode_tsc clockmode_hvclock clockmode_other : ClockMode

abbrev pub gtod_is_based_on_tsc : ClockMode → Bool
gtod_is_based_on_tsc clockmode_tsc = true
gtod_is_based_on_tsc clockmode_hvclock = true
gtod_is_based_on_tsc clockmode_other = false

-- What the host tells during one call: two readings of its counter, its clock in nanoseconds, the clock
-- source, whether the counter is unstable, and `nsec_to_cycles` for a vCPU.
pub record Host : Type 0 where
  pub host_tsc : ℕ
  pub host_tsc_again : ℕ
  pub kvmclock_base_ns : ℕ
  pub vclock_mode : ClockMode
  pub check_tsc_unstable : Bool
  pub nsec_to_cycles : Vcpu → ℕ → ℕ

-- The fields of `kvm->arch` that this code reads and writes, `kvm->online_vcpus`, and whether an update of
-- the master clock was requested.
pub record Kvm : Type 0 where
  pub last_tsc_nsec : ℕ
  pub last_tsc_write : ℕ
  pub last_tsc_khz : ℕ
  pub last_tsc_offset : ℕ
  pub cur_tsc_generation : ℕ
  pub cur_tsc_nsec : ℕ
  pub cur_tsc_write : ℕ
  pub cur_tsc_offset : ℕ
  pub nr_vcpus_matched_tsc : ℕ
  pub user_set_tsc : Bool
  pub use_master_clock : Bool
  pub online_vcpus : ℕ
  pub masterclock_update : Bool

abbrev pub kvm_check_tsc_unstable : Host → Bool
kvm_check_tsc_unstable h = elim h.vclock_mode [
  | clockmode_hvclock ↦ false
  | _ ↦ h.check_tsc_unstable
]

-- Every vCPU matches, and the host's clock is based on the counter.
unfoldable pub can_use_master_clock : Host → Kvm → Bool
can_use_master_clock h vm =
    vm.nr_vcpus_matched_tsc + 1 == vm.online_vcpus && gtod_is_based_on_tsc h.vclock_mode

unfoldable pub kvm_track_tsc_matching : Host → Kvm → Bool → Kvm
unfolding can_use_master_clock
kvm_track_tsc_matching h vm new_generation =
    if (vm.use_master_clock && new_generation)
      || differ vm.use_master_clock (can_use_master_clock h vm)
    then record vm { masterclock_update = true }
    else vm

-- The counters of the generations, for a vCPU that starts a new one or joins the current one.
unfoldable pub next_generation : Kvm → Vcpu → ℕ → ℕ → ℕ → Bool → Kvm
next_generation vm v offset tsc ns matched =
    if not matched
    then record vm {
      cur_tsc_generation = u64 (vm.cur_tsc_generation + 1);
      cur_tsc_nsec = ns;
      cur_tsc_write = tsc;
      cur_tsc_offset = offset;
      nr_vcpus_matched_tsc = 0;
    }
    else (if not (v.this_tsc_generation == vm.cur_tsc_generation)
        then record vm { nr_vcpus_matched_tsc = vm.nr_vcpus_matched_tsc + 1 }
        else vm)

module _ (k : Kernel) (h : Host) where
  -- `__kvm_synchronize_tsc`
  unfoldable pub record_tsc_write : Kvm → Vcpu → ℕ → ℕ → ℕ → Bool → Kvm × Vcpu
  unfolding next_generation
  record_tsc_write vm v offset tsc ns matched =
      let noted = record vm {
        last_tsc_nsec = ns;
        last_tsc_write = tsc;
        last_tsc_khz = v.virtual_tsc_khz;
        last_tsc_offset = offset;
      } in
      let vm' = next_generation noted v offset tsc ns matched in
      let written = kvm_vcpu_write_tsc_offset k (record v { last_guest_tsc = tsc }) offset in
      let v' = record written {
        this_tsc_generation = vm'.cur_tsc_generation;
        this_tsc_nsec = vm'.cur_tsc_nsec;
        this_tsc_write = vm'.cur_tsc_write;
      } in
      (kvm_track_tsc_matching h vm' (not matched), v')

  -- The write is meant to bring the vCPU in step with the last one: it is 0, or, once user space has set a
  -- counter, within a second of what that one counts by now.
  unfoldable pub is_synchronizing : Kvm → Vcpu → ℕ → Bool
  is_synchronizing vm v value =
      let elapsed = sub64 h.kvmclock_base_ns vm.last_tsc_nsec in
      let tsc_exp = u64 (vm.last_tsc_write + h.nsec_to_cycles v elapsed) in
      let tsc_hz = v.virtual_tsc_khz * 1000 in
      if v.virtual_tsc_khz == 0
      then false
      else (if value == 0
          then true
          else (if vm.user_set_tsc
              then ltb value (u64 (tsc_exp + tsc_hz)) && ltb tsc_exp (u64 (value + tsc_hz))
              else false))

  unfoldable pub value_of : Option ℕ → ℕ
  value_of none = 0
  value_of (some value) = value

  unfoldable pub set_by_user : Kvm → Option ℕ → Kvm
  set_by_user vm none = vm
  set_by_user vm (some value) = record vm { user_set_tsc = true }

  unfoldable pub kvm_synchronize_tsc : Kvm → Vcpu → Option ℕ → Kvm × Vcpu
  unfolding record_tsc_write is_synchronizing value_of set_by_user
  kvm_synchronize_tsc vm v user_value =
      let value = value_of user_value in
      let ns = h.kvmclock_base_ns in
      let delta = h.nsec_to_cycles v (sub64 ns vm.last_tsc_nsec) in
      let moved = u64 (value + delta) in
      let vm' = set_by_user vm user_value in
      if is_synchronizing vm v value && (v.virtual_tsc_khz == vm.last_tsc_khz)
      then (if not (kvm_check_tsc_unstable h)
          then record_tsc_write vm' v vm.cur_tsc_offset value ns true
          else record_tsc_write vm' v (kvm_compute_l1_tsc_offset k v h.host_tsc_again moved) moved
              ns true)
      else record_tsc_write vm' v (kvm_compute_l1_tsc_offset k v h.host_tsc value) value ns false
