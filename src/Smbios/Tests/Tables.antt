-- ===== src/Smbios/Tests/Tables.antt =====
-- The theorems on `smbios_get_tables` at concrete machines.
use pve_anti_detection.Prelude.{take, drop, le_value, length}
use pve_anti_detection.Smbios.Layout.Fields.{encode}
use pve_anti_detection.Smbios.Layout.Anchor.{sizeof_entry_point_21, entry_point_21_fields}
use pve_anti_detection.Smbios.Select.{smbios_validate_table}
use pve_anti_detection.Smbios.Tables.{entry_point_21}
use pve_anti_detection.Smbios.Tables.Anchors.{smbios_validate_table-entry_point_21}
use pve_anti_detection.Prelude.{
  ℕ, ◌^◌, ◌<◌, ◌≡◌, refl, none, some, List, [], ◌∷◌, text, arith, ◌==◌, All,
}
use pve_anti_detection.Prelude.Outcome.{done, stray}
use pve_anti_detection.Smbios.State.{Smbios, entry_point_64, no_pci_device}
use pve_anti_detection.Smbios.Select.{
  smbios_check_type4_count, smbios_validate_table, smbios_skip_table,
}
use pve_anti_detection.Smbios.Sample.{sample, sample-AlignsUp, board, start}
use pve_anti_detection.Smbios.Build.Processor.{
  Machine, smbios_build_type_4_table, smbios_build_type_7_table,
}
use pve_anti_detection.Smbios.Build.System.{
  smbios_build_type_0_table, smbios_build_type_1_table, smbios_build_type_2_table,
  smbios_build_type_3_table, smbios_build_type_32_table, smbios_build_type_127_table,
}
use pve_anti_detection.Smbios.Build.Devices.{
  smbios_build_type_8_table, smbios_build_type_9_table, smbios_build_type_11_table,
  smbios_build_type_41_table,
}
use pve_anti_detection.Smbios.Build.Memory.{
  smbios_build_type_16_table, smbios_build_type_17_table, smbios_build_type_19_table,
  smbios_build_type_20_table, smbios_build_type_37_table,
}
use pve_anti_detection.Smbios.Build.Sensors.{
  smbios_build_type_22_table, smbios_build_type_26_table, smbios_build_type_27_table,
  smbios_build_type_28_table, smbios_build_type_29_table, smbios_build_type_39_table,
}
use pve_anti_detection.Smbios.Tables.{
  SmbiosPhysMemArea, Output, dimm_count, dimm_size, handle_offset, start_tables, build_board,
  type_4_loop, build_rest, build_caches, build_dimms, build_sensors, type_17_loop, type_19_loop,
  smbios_get_tables,
}
use pve_anti_detection.Smbios.Tables.Modules.{total_size, total_size-ram_size}
use pve_anti_detection.Smbios.Tables.Areas.{IsArea, type_19_loop-stray}
use pve_anti_detection.Smbios.Tables.Verdict.{smbios_get_tables_unreported}

abbrev areas : List SmbiosPhysMemArea
areas =
    record { address = 0; length = 2147483648 }
    ∷ record { address = 4294967296; length = 2147483648 }
    ∷ record { address = 6442450944; length = 947912704 }
    ∷ []

abbrev two_areas : List SmbiosPhysMemArea
two_areas =
    record { address = 0; length = 2147483648 }
    ∷ record { address = 4294967296; length = 3095396352 }
    ∷ []

three_modules : dimm_count sample board ≡ 3
unfolding dimm_count
three_modules = refl

total_size-ram_size_example :
    total_size board (dimm_count sample board) (dimm_count sample board) 0 ≡ 5242880000
total_size-ram_size_example =
    total_size-ram_size sample board sample-AlignsUp (omega arith) (omega arith) (omega arith)
      (omega arith)

low_area_lem : (a : SmbiosPhysMemArea) (cnt : ℕ) → a.address < 2 ^ 33 → IsArea board cnt a
unfolding dimm_size
low_area_lem a cnt h j = ground arith

areas-IsArea : (cnt : ℕ) → All (IsArea board cnt) areas
areas-IsArea cnt = (
  low_area_lem (record { address = 0; length = 2147483648 }) cnt (omega arith),
  (
    low_area_lem (record { address = 4294967296; length = 2147483648 }) cnt (omega arith),
    (low_area_lem (record { address = 6442450944; length = 947912704 }) cnt (omega arith), tt),
  ),
)

type_19_loop-stray_example :
    type_19_loop sample board two_areas (dimm_count sample board) (dimm_count sample board) 0 start
    ≡ stray
unfolding dimm_count
type_19_loop-stray_example = type_19_loop-stray sample board two_areas start (omega arith) (
  low_area_lem (record { address = 0; length = 2147483648 }) _ (omega arith),
  (low_area_lem (record { address = 4294967296; length = 3095396352 }) _ (omega arith), tt),
)

-- A machine of one socket, which builds nothing but a structure of type 41, for a device that is
-- not there.
abbrev small : Machine
small = record board { sockets = 1 }

abbrev no_device : Smbios
no_device = record start {
  have_fields = λ t. t == 41;
  type41 =
      record { designation = none; pcidev = some (text "nic"); instance_number = 0; kind = 0 } ∷ [];
}

abbrev named_parts : Smbios
named_parts = record (start_tables no_device) {
  type7_socket_designation = some (text "L3 Cache");
  type26_description = some (text "LM78A-1");
  type27_description = some (text "CPU FAN");
  type28_description = some (text "LM78A-1");
}

smbios_get_tables_unreported_example :
    (s' : Smbios) × (out : Output) × (smbios_get_tables sample small entry_point_64 areas no_device
      ≡ done (s', none, some out))
    × (out.tables ≡ [])
unfolding start_tables build_board type_4_loop build_rest build_caches build_dimms build_sensors
    type_17_loop type_19_loop dimm_count handle_offset smbios_check_type4_count smbios_skip_table
    smbios_build_type_0_table smbios_build_type_1_table smbios_build_type_2_table
    smbios_build_type_3_table smbios_build_type_4_table smbios_build_type_7_table
    smbios_build_type_8_table smbios_build_type_9_table smbios_build_type_11_table
    smbios_build_type_16_table smbios_build_type_17_table smbios_build_type_19_table
    smbios_build_type_20_table smbios_build_type_22_table smbios_build_type_26_table
    smbios_build_type_27_table smbios_build_type_28_table smbios_build_type_29_table
    smbios_build_type_32_table smbios_build_type_37_table smbios_build_type_39_table
    smbios_build_type_41_table smbios_build_type_127_table dimm_size
smbios_get_tables_unreported_example =
    smbios_get_tables_unreported sample small areas no_device (start_tables no_device) named_parts
      (no_pci_device (text "nic")) (omega arith) refl refl refl

-- Tables of four bytes, and two processors.
abbrev two_processors : Smbios
two_processors = record start {
  type4_count = 2;
  tables = record {
    blob = 4 ∷ 4 ∷ 0 ∷ 0 ∷ [];
    tables_len = 4;
    table_max = 4;
    table_cnt = 1;
    built = [];
  };
}

smbios_validate_table-entry_point_21_example :
    let memory = encode (entry_point_21_fields (entry_point_21 two_processors)) in
    (length memory ≡ sizeof_entry_point_21)
    × (le_value (take 2 (drop 22 memory)) ≡ 4)
    × (le_value (take 2 (drop 28 memory)) ≡ 1)
unfolding smbios_validate_table
smbios_validate_table-entry_point_21_example =
    smbios_validate_table-entry_point_21 two_processors refl (omega arith)

-- Fields given for type 4, and a count left by an earlier run.
abbrev with_processors : Smbios
with_processors = record start { have_fields = λ t. t == 4; type4_count = 7 }
