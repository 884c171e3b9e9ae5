-- ===== src/Smbios/Build/Sensors.antt =====
-- smbios.c: the structures of sensors and power that the project adds, types 22, 26 to 29 and 39
-- (lines 628 to 682 and 690 to 729).
use Prim.Native.String.{String}
use pve_anti_detection.Prelude.{ℕ, ◌+◌, true, some, [], text, u8}
use pve_anti_detection.Smbios.Layout.Sensors.{
  SmbiosType22, SmbiosType26, SmbiosType27, SmbiosType28, SmbiosType29, SmbiosType39,
  sizeof_type_22, sizeof_type_26, sizeof_type_27, sizeof_type_28, sizeof_type_29, sizeof_type_39,
}
use pve_anti_detection.Smbios.Table.{
  Structure, type_22, type_26, type_27, type_28, type_29, type_39,
}
use pve_anti_detection.Smbios.State.{Smbios, Tables}
use pve_anti_detection.Smbios.Qemu.{Qemu}
use pve_anti_detection.Smbios.Build.Core.{
  build, t22_base, t26_base, t27_base, t28_base, t29_base, t39_base,
}

module _ (q : Qemu) where
  open q use {header, set_str}

  unfoldable pub type_26_structure : ℕ → String → ℕ → Structure
  type_26_structure instance_number what status =
      let (number, p1) = set_str [] (some (text what)) in
      let filled : SmbiosType26 = record {
        header = header 26 sizeof_type_26 (t26_base + instance_number);
        description = number;
        location_and_status = u8 status;
        max_value = 0x5800;
        min_value = 0x100;
        resolution = 0x100;
        tolerance = 0x800;
        accuracy = 0x10;
        oem_defined = 0x00000000;
        nominal_value = 0x1000;
      } in
      record { table = type_26 filled; strings = p1 }

  unfoldable pub smbios_build_type_26_table : ℕ → String → ℕ → Smbios → Smbios
  unfolding type_26_structure
  smbios_build_type_26_table instance_number what status s =
      build q (record s { type26_description = some (text what) }) 26 true
        (type_26_structure instance_number what status)

  unfoldable pub type_27_structure : ℕ → String → ℕ → Structure
  type_27_structure instance_number what status =
      let (number, p1) = set_str [] (some (text what)) in
      let filled : SmbiosType27 = record {
        header = header 27 sizeof_type_27 (t27_base + instance_number);
        temperature_probe_handle = 0x0029;
        device_type_and_status = u8 status;
        cooling_unit_group = 0x1;
        oem_defined = 0x00000000;
        nominal_speed = 0x5DC;
        description = number;
      } in
      record { table = type_27 filled; strings = p1 }

  unfoldable pub smbios_build_type_27_table : ℕ → String → ℕ → Smbios → Smbios
  unfolding type_27_structure
  smbios_build_type_27_table instance_number what status s =
      build q (record s { type27_description = some (text what) }) 27 true
        (type_27_structure instance_number what status)

  unfoldable pub type_28_structure : ℕ → String → ℕ → Structure
  type_28_structure instance_number what status =
      let (number, p1) = set_str [] (some (text what)) in
      let filled : SmbiosType28 = record {
        header = header 28 sizeof_type_28 (t28_base + instance_number);
        description = number;
        location_and_status = u8 status;
        maximum_value = 0x780;
        minimum_value = 0x100;
        resolution = 0x1000;
        tolerance = 0x800;
        accuracy = 0x10;
        oem_defined = 0x00000000;
        nominal_value = 0x100;
      } in
      record { table = type_28 filled; strings = p1 }

  unfoldable pub smbios_build_type_28_table : ℕ → String → ℕ → Smbios → Smbios
  unfolding type_28_structure
  smbios_build_type_28_table instance_number what status s =
      build q (record s { type28_description = some (text what) }) 28 true
        (type_28_structure instance_number what status)

  unfoldable pub type_29_structure : Structure
  type_29_structure =
      let (number, p1) = set_str [] (some (text "Electrical")) in
      let filled : SmbiosType29 = record {
        header = header 29 sizeof_type_29 t29_base;
        description = number;
      } in
      record { table = type_29 filled; strings = p1 }

  unfoldable pub smbios_build_type_29_table : Smbios → Smbios
  unfolding type_29_structure
  smbios_build_type_29_table s = build q s 29 true type_29_structure

  unfoldable pub type_39_structure : Structure
  type_39_structure =
      let (number, p1) = set_str [] (some (text "lixiaoliu PowerSupply")) in
      let filled : SmbiosType39 = record {
        header = header 39 sizeof_type_39 t39_base;
        device_name = number;
      } in
      record { table = type_39 filled; strings = p1 }

  unfoldable pub smbios_build_type_39_table : Smbios → Smbios
  unfolding type_39_structure
  smbios_build_type_39_table s = build q s 39 true type_39_structure

  -- The fields that the function does not write keep what the new memory held: the serial number,
  -- the manufacture date and the chemistry of the smart battery.
  unfoldable pub type_22_structure : Tables → Structure
  type_22_structure tables =
      let (location, p1) = set_str [] (some (text "in the back")) in
      let (manufacturer, p2) = set_str p1 (some (text "lixiaoliu")) in
      let (date, p3) = set_str p2 (some (text "02/02/2025")) in
      let (serial, p4) = set_str p3 (some (text "lixiaoliu666")) in
      let (name, p5) = set_str p4 (some (text "BAT0")) in
      let filled : SmbiosType22 = record (q.fresh_type_22 tables) {
        header = header 22 sizeof_type_22 t22_base;
        location = location;
        manufacturer = manufacturer;
        manufacturer_date = date;
        serial_number = serial;
        device_name = name;
        device_chemistry = 0x6;
        design_capacity = 0xECF4;
        design_voltage = 0x2EE0;
        sbds_version_number = 0x0;
        maximum_error_in_battery_data = 0x1;
        design_capacity_multiplier = 0x1;
        oem_specific = 0x60666;
      } in
      record { table = type_22 filled; strings = p5 }

  unfoldable pub smbios_build_type_22_table : Smbios → Smbios
  unfolding type_22_structure
  smbios_build_type_22_table s = build q s 22 true (type_22_structure s.tables)
