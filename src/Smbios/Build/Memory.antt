-- ===== src/Smbios/Build/Memory.antt =====
-- smbios.c: the structures that describe memory, types 16, 17, 19, 20 and 37 (lines 609 to 626, 684
-- to 688 and 1011 to 1106).
use pve_anti_detection.Prelude.{
  ℕ, ◌+◌, ◌-◌, ◌/◌, ◌^◌, true, ◌&&◌, some, [], text, u16, u32, u64, ltb, if◌then◌else◌,
}
use pve_anti_detection.Prelude.Outcome.{Outcome, done, assert, ◌>>◌}
use pve_anti_detection.Smbios.Layout.Memory.{
  SmbiosType16, SmbiosType17, SmbiosType19, SmbiosType20, sizeof_type_16, sizeof_type_17,
  sizeof_type_19, sizeof_type_20, sizeof_type_37,
}
use pve_anti_detection.Smbios.Table.{Structure, type_16, type_17, type_19, type_20, type_37}
use pve_anti_detection.Smbios.State.{Smbios}
use pve_anti_detection.Smbios.Qemu.{Qemu}
use pve_anti_detection.Smbios.Build.Core.{
  build, emit, t16_base, t17_base, t19_base, t20_base, t37_base,
}
use pve_anti_detection.Smbios.Build.Processor.{Machine}

-- `KiB` and `MiB`
abbrev pub kib : ℕ
kib = 1024

abbrev pub mib : ℕ
mib = 1048576

-- 2T in kilobytes
abbrev pub max_t16_std_sz : ℕ
max_t16_std_sz = 0x80000000

-- 32G - 1M, and 2P, in megabytes
abbrev pub max_t17_std_sz : ℕ
max_t17_std_sz = 0x7FFF

abbrev pub max_t17_ext_sz : ℕ
max_t17_ext_sz = 0x80000000

abbrev pub uint32_max : ℕ
uint32_max = 0xFFFFFFFF

-- `start + size - 1` as a `uint64_t`
abbrev pub area_end : ℕ → ℕ → ℕ
area_end start size = u64 (start + size + 2 ^ 64 - 1)

module _ (q : Qemu) where
  open q use {header, set_str, align_up}

  unfoldable pub type_16_structure : Machine → ℕ → Structure
  type_16_structure ms dimm_cnt =
      let size_kb = align_up ms.ram_size kib / kib in
      let filled : SmbiosType16 = record {
        header = header 16 sizeof_type_16 t16_base;
        location = 0x03;
        array_use = 0x03;
        error_correction = 0x03;
        maximum_capacity = if ltb size_kb max_t16_std_sz then u32 size_kb else max_t16_std_sz;
        memory_error_information_handle = 0xFFFE;
        number_of_memory_devices = u16 dimm_cnt;
        extended_maximum_capacity = if ltb size_kb max_t16_std_sz then 0 else ms.ram_size;
      } in
      record { table = type_16 filled; strings = [] }

  unfoldable pub smbios_build_type_16_table : Machine → ℕ → Smbios → Smbios
  unfolding type_16_structure
  smbios_build_type_16_table ms dimm_cnt s = build q s 16 true (type_16_structure ms dimm_cnt)

  -- The text that the function prints into `loc_str` is not used.
  unfoldable pub type_17_structure : ℕ → ℕ → Smbios → Structure
  type_17_structure instance_number size s =
      let size_mb = align_up size mib / mib in
      let (locator, p1) = set_str [] (some (text "ChannelA-DIMM0")) in
      let (bank, p2) = set_str p1 (some (text "BANK 0")) in
      let (manufacturer, p3) = set_str p2 (some (text "Kingston")) in
      let (serial, p4) = set_str p3 s.type17.serial in
      let (asset, p5) = set_str p4 s.type17.asset in
      let (part, p6) = set_str p5 (some (text "KHX1600C9S3L/32G")) in
      let filled : SmbiosType17 = record {
        header = header 17 sizeof_type_17 (t17_base + instance_number);
        physical_memory_array_handle = 0x1000;
        memory_error_information_handle = 0xFFFE;
        total_width = 64;
        data_width = 64;
        size = if ltb size_mb max_t17_std_sz then u16 size_mb else max_t17_std_sz;
        form_factor = 0x0D;
        device_set = 0;
        device_locator_str = locator;
        bank_locator_str = bank;
        memory_type = 0x18;
        type_detail = 0x80;
        speed = 1600;
        manufacturer_str = manufacturer;
        serial_number_str = serial;
        asset_tag_number_str = asset;
        part_number_str = part;
        attributes = 0x02;
        extended_size = if ltb size_mb max_t17_std_sz then 0 else u32 size_mb;
        configured_clock_speed = 1600;
        minimum_voltage = 1350;
        maximum_voltage = 1500;
        configured_voltage = 1350;
      } in
      record { table = type_17 filled; strings = p6 }

  -- A module of 2P or more fails the assertion.
  unfoldable pub smbios_build_type_17_table : ℕ → ℕ → Smbios → Outcome Smbios
  unfolding type_17_structure
  smbios_build_type_17_table instance_number size s =
      let size_mb = align_up size mib / mib in
      let built = emit q s (type_17_structure instance_number size s) in
      if q.skips s 17 true
      then done s
      else (if ltb size_mb max_t17_std_sz
          then done built
          else (do assert (ltb size_mb max_t17_ext_sz); done built))

  unfoldable pub type_19_structure : ℕ → ℕ → ℕ → ℕ → Structure
  type_19_structure instance_number offset start size =
      let end = area_end start size in
      let small = ltb (start / kib) uint32_max && ltb (end / kib) uint32_max in
      let filled : SmbiosType19 = record {
        header = header 19 sizeof_type_19 (u32 (t19_base + offset + instance_number));
        starting_address = if small then u32 (start / kib) else uint32_max;
        ending_address = if small then u32 (end / kib) else uint32_max;
        memory_array_handle = 0x1000;
        partition_width = 1;
        extended_starting_address = if small then 0 else start;
        extended_ending_address = if small then 0 else end;
      } in
      record { table = type_19 filled; strings = [] }

  -- The assertion stands behind the test that may skip the structure.
  unfoldable pub smbios_build_type_19_table : ℕ → ℕ → ℕ → ℕ → Smbios → Outcome Smbios
  unfolding type_19_structure
  smbios_build_type_19_table instance_number offset start size s =
      if q.skips s 19 true then done s else (do
        assert (ltb start (area_end start size))
        done (emit q s (type_19_structure instance_number offset start size)))

  unfoldable pub type_20_structure : ℕ → ℕ → Structure
  type_20_structure start size =
      let end = area_end start size in
      let filled : SmbiosType20 = record {
        header = header 20 sizeof_type_20 t20_base;
        starting_address = u32 (start / kib);
        ending_address = u32 (end / kib);
        memory_device_handle = 0x003C;
        memory_array_mapped_address_handle = 0x0040;
        partition_row_position = 0x1;
        interleave_position = 0x1;
        interleave_data_depth = 0x2;
      } in
      record { table = type_20 filled; strings = [] }

  -- The assertion stands before the test that may skip the structure.
  unfoldable pub smbios_build_type_20_table : ℕ → ℕ → Smbios → Outcome Smbios
  unfolding type_20_structure
  smbios_build_type_20_table start size s = do
    assert (ltb start (area_end start size))
    done (build q s 20 true (type_20_structure start size))

  abbrev pub type_37_structure : Structure
  type_37_structure = record {
    table = type_37 (record { header = header 37 sizeof_type_37 t37_base });
    strings = [];
  }

  unfoldable pub smbios_build_type_37_table : Smbios → Smbios
  smbios_build_type_37_table s = build q s 37 true type_37_structure
