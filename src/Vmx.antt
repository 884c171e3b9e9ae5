-- ===== src/Vmx.antt =====
-- vmx.c: the model-specific registers that the Intel backend has the processor switch on each entry into
-- a guest and each exit (lines 963 to 1098): `vmx_find_loadstore_msr_slot`, `clear_atomic_switch_msr`
-- and `add_atomic_switch_msr`.
--
-- The capabilities of the processor are parameters. An array is a family of which the first `nr` elements
-- are in use.
pub mod Lists
pub mod Switch
pub mod Sequences
mod Tests
use pve_anti_detection.Prelude.{
  ℕ, zero, suc, ◌+◌, ◌-◌, Bool, true, false, not, ◌&&◌, ◌||◌, Option, none, some, ◌==◌,
  if◌then◌else◌, update_at,
}

-- `struct vmx_msr_entry`
pub record MsrEntry : Type 0 where
  pub index : ℕ
  pub value : ℕ

-- `struct vmx_msrs`
pub record VmxMsrs : Type 0 where
  pub nr : ℕ
  pub val : ℕ → MsrEntry

-- `MAX_NR_LOADSTORE_MSRS`
abbrev pub max_nr : ℕ
max_nr = 8

-- The loop, from index `i` on with `left` entries to go. `none` is `-ENOENT`.
unfoldable pub find_from : (ℕ → MsrEntry) → ℕ → ℕ → ℕ → Option ℕ
find_from val msr i zero = none
find_from val msr i (suc left) =
    let rest = find_from val msr (suc i) left in if (val i).index == msr then some i else rest

unfoldable pub vmx_find_loadstore_msr_slot : VmxMsrs → ℕ → Option ℕ
unfolding find_from
vmx_find_loadstore_msr_slot m msr = find_from m.val msr 0 m.nr

-- The controls that load one register without the lists, on entry and on exit, and the two values.
pub record Special : Type 0 where
  pub entry : Bool
  pub exit : Bool
  pub guest_value : ℕ
  pub host_value : ℕ

-- `msr_autoload` of `struct vcpu_vmx`, the fields of the control structure that follow it, and whether the
-- host's register of PEBS was cleared.
pub record Vmx : Type 0 where
  pub guest : VmxMsrs
  pub host : VmxMsrs
  pub entry_msr_load_count : ℕ
  pub exit_msr_load_count : ℕ
  pub efer : Special
  pub perf_global_ctrl : Special
  pub pebs_cleared : Bool

-- The processor's capabilities.
pub record Caps : Type 0 where
  pub load_ia32_efer : Bool
  pub load_perf_global_ctrl : Bool

-- `MSR_EFER`, `MSR_CORE_PERF_GLOBAL_CTRL` and `MSR_IA32_PEBS_ENABLE`
abbrev pub msr_efer : ℕ
msr_efer = 0xc0000080

abbrev pub msr_core_perf_global_ctrl : ℕ
msr_core_perf_global_ctrl = 0x38f

abbrev pub msr_ia32_pebs_enable : ℕ
msr_ia32_pebs_enable = 0x3f1

-- The last entry takes the place of the one at `i`.
unfoldable pub remove : VmxMsrs → ℕ → VmxMsrs
remove m i = record { nr = m.nr - 1; val = update_at m.val i (m.val (m.nr - 1)) }

-- The entry at `i`, or a new one at the end, is set.
unfoldable pub put : VmxMsrs → Option ℕ → ℕ → ℕ → VmxMsrs
put m (some i) msr value = record m {
  val = update_at m.val i (record { index = msr; value = value });
}
put m none msr value = record {
  nr = m.nr + 1;
  val = update_at m.val m.nr (record { index = msr; value = value });
}

unfoldable pub clear_special : Special → Special
clear_special s = record s { entry = false; exit = false }

-- The host's value of EFER is not written: the control structure has it already.
unfoldable pub set_special : Special → Bool → ℕ → ℕ → Special
set_special s is_efer guest_val host_val = record {
  entry = true;
  exit = true;
  guest_value = guest_val;
  host_value = if is_efer then s.host_value else host_val;
}

-- The part of `clear_atomic_switch_msr` for one list: the list, and its count where that was written.
unfoldable pub clear_one : VmxMsrs → ℕ → ℕ → VmxMsrs × ℕ
unfolding vmx_find_loadstore_msr_slot remove
clear_one m count msr = elim (vmx_find_loadstore_msr_slot m msr) [
  | none ↦ (m, count)
  | some i ↦ (remove m i, m.nr - 1)
]

unfoldable pub clear_lists : Vmx → ℕ → Vmx
unfolding clear_one
clear_lists v msr =
    let (guest, entries) = clear_one v.guest v.entry_msr_load_count msr in
    let (host, exits) = clear_one v.host v.exit_msr_load_count msr in
    record v {
      guest = guest;
      entry_msr_load_count = entries;
      host = host;
      exit_msr_load_count = exits;
    }

unfoldable pub clear_atomic_switch_msr : Caps → Vmx → ℕ → Vmx
unfolding clear_special clear_lists
clear_atomic_switch_msr caps v msr =
    if msr == msr_efer && caps.load_ia32_efer
    then record v { efer = clear_special v.efer }
    else (if msr == msr_core_perf_global_ctrl && caps.load_perf_global_ctrl
        then record v { perf_global_ctrl = clear_special v.perf_global_ctrl }
        else clear_lists v msr)

-- The part of `add_atomic_switch_msr` for one list.
unfoldable pub add_one : VmxMsrs → ℕ → ℕ → ℕ → VmxMsrs × ℕ
unfolding vmx_find_loadstore_msr_slot put
add_one m count msr value =
    let slot = vmx_find_loadstore_msr_slot m msr in
    (put m slot msr value, elim slot [ none ↦ m.nr + 1 | some i ↦ count ])

-- The register is not in the list, and the list is full.
unfoldable pub has_no_room : VmxMsrs → ℕ → Bool
unfolding vmx_find_loadstore_msr_slot
has_no_room m msr = elim (vmx_find_loadstore_msr_slot m msr) [
  | none ↦ m.nr == max_nr
  | some i ↦ false
]

unfoldable pub add_lists : Vmx → ℕ → ℕ → ℕ → Bool → Vmx
unfolding add_one has_no_room
add_lists v msr guest_val host_val entry_only =
    let (guest, entries) = add_one v.guest v.entry_msr_load_count msr guest_val in
    let (host, exits) = add_one v.host v.exit_msr_load_count msr host_val in
    let loaded = record v { guest = guest; entry_msr_load_count = entries } in
    if has_no_room v.guest msr || (not entry_only && has_no_room v.host msr)
    then v
    else (if entry_only then loaded else record loaded { host = host; exit_msr_load_count = exits })

unfoldable pub add_atomic_switch_msr : Caps → Vmx → ℕ → ℕ → ℕ → Bool → Vmx
unfolding set_special add_lists
add_atomic_switch_msr caps v msr guest_val host_val entry_only =
    let quiet = record v {
      pebs_cleared = if msr == msr_ia32_pebs_enable then true else v.pebs_cleared;
    } in
    if msr == msr_efer && caps.load_ia32_efer
    then record v { efer = set_special v.efer true guest_val host_val }
    else (if msr == msr_core_perf_global_ctrl && caps.load_perf_global_ctrl
        then record v { perf_global_ctrl = set_special v.perf_global_ctrl false guest_val host_val }
        else add_lists quiet msr guest_val host_val entry_only)
