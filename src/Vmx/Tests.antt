-- ===== src/Vmx/Tests.antt =====
-- The lists of a vCPU on a processor that loads EFER by itself.
use pve_anti_detection.Prelude.{◌≡◌, refl, true, false, arith, none, some, [], ◌∷◌}
use pve_anti_detection.Vmx.{
  VmxMsrs, Special, Vmx, Caps, find_from, vmx_find_loadstore_msr_slot, put, clear_atomic_switch_msr,
  add_one, has_no_room, add_lists, add_atomic_switch_msr,
}
use pve_anti_detection.Vmx.Lists.{IsList, value_of}
use pve_anti_detection.Vmx.Switch.{
  IsAutoload, on_entry, on_exit, clear_atomic_switch_msr-on_entry, add_atomic_switch_msr-on_entry,
}
use pve_anti_detection.Vmx.Sequences.{add, apply_all, apply_all-IsAutoload}

abbrev caps : Caps
caps = record { load_ia32_efer = true; load_perf_global_ctrl = false }

abbrev none_yet : VmxMsrs
none_yet = record { nr = 0; val = λ i. record { index = 0; value = 0 } }

abbrev special : Special
special = record { entry = false; exit = false; guest_value = 0; host_value = 0xd01 }

abbrev empty : Vmx
empty = record {
  guest = none_yet;
  host = none_yet;
  entry_msr_load_count = 0;
  exit_msr_load_count = 0;
  efer = special;
  perf_global_ctrl = special;
  pebs_cleared = false;
}

none_yet-IsList : IsList none_yet
none_yet-IsList = record { bound = omega arith; unique = λ i j lt lt' e. absurd (omega arith) }

empty-IsAutoload : IsAutoload empty
empty-IsAutoload = record {
  guest = none_yet-IsList;
  host = none_yet-IsList;
  entries = refl;
  exits = refl;
}

-- The register of performance monitoring, and another one for entries only.
abbrev filled : Vmx
filled = apply_all caps empty (add 0x38f 7 1 false ∷ add 0x3f1 5 0 true ∷ [])

apply_all-IsAutoload_example : IsAutoload filled
apply_all-IsAutoload_example =
    apply_all-IsAutoload caps empty (add 0x38f 7 1 false ∷ add 0x3f1 5 0 true ∷ []) empty-IsAutoload

add_atomic_switch_msr-on_entry_example :
    (on_entry caps (add_atomic_switch_msr caps filled 0x38f 9 2 false) 0x38f ≡ some 9)
    × (on_exit caps (add_atomic_switch_msr caps filled 0x38f 9 2 false) 0x38f ≡ some 2)
unfolding add_atomic_switch_msr add_lists add_one has_no_room vmx_find_loadstore_msr_slot find_from
    put value_of
add_atomic_switch_msr-on_entry_example =
    add_atomic_switch_msr-on_entry caps filled 0x38f 9 2 false 0x38f apply_all-IsAutoload_example

clear_atomic_switch_msr-on_entry_example :
    (on_entry caps (clear_atomic_switch_msr caps filled 0x38f) 0x3f1 ≡ some 5)
    × (on_exit caps (clear_atomic_switch_msr caps filled 0x38f) 0x3f1 ≡ none)
unfolding add_atomic_switch_msr add_lists add_one has_no_room vmx_find_loadstore_msr_slot find_from
    put value_of
clear_atomic_switch_msr-on_entry_example =
    clear_atomic_switch_msr-on_entry caps filled 0x38f 0x3f1 apply_all-IsAutoload_example
