-- ===== src/Smbios/Build/Processor.antt =====
-- smbios.c: the structures of processors and their caches, types 4 and 7 (lines 590 to 605 and 843
-- to 908).
use Prim.Native.String.{String}
use pve_anti_detection.Prelude.{
  ℕ, ◌+◌, ◌/◌, ◌^◌, true, ◌||◌, Option, some, [], text, u8, u16, u32, ltb, ◌==◌, if◌then◌else◌,
}
use pve_anti_detection.Prelude.Outcome.{Outcome, done, ◌>>=◌}
use pve_anti_detection.Smbios.Layout.Devices.{SmbiosType4, SmbiosType7, sizeof_type_7}
use pve_anti_detection.Smbios.Table.{Structure, type_4, type_7}
use pve_anti_detection.Smbios.State.{
  Smbios, Error, EntryPointType, entry_point_auto, entry_point_32, entry_point_64, too_many_cores,
}
use pve_anti_detection.Smbios.Qemu.{Qemu}
use pve_anti_detection.Smbios.Build.Core.{build, emit, abandon, t4_base, t7_base}

-- What the builders read of `MachineState`, its class and `current_machine`.
pub record Machine : Type 0 where
  pub sockets : ℕ
  pub threads_per_socket : ℕ
  pub cores_per_socket : ℕ
  pub ram_size : ℕ
  pub memory_device_size : ℕ

-- `SMBIOS_TYPE_4_LEN_V28` and `SMBIOS_TYPE_4_LEN_V30`
abbrev pub type_4_len_v28 : ℕ
type_4_len_v28 = 42

abbrev pub type_4_len_v30 : ℕ
type_4_len_v30 = 48

abbrev pub type_4_len : EntryPointType → ℕ
type_4_len entry_point_64 = type_4_len_v30
type_4_len entry_point_32 = type_4_len_v28
type_4_len entry_point_auto = type_4_len_v28

-- A count that has only one byte.
abbrev pub capped : ℕ → ℕ
capped n = if ltb 255 n then 0xFF else n

module _ (q : Qemu) where
  open q use {header, set_str}

  -- With the length of version 2.8 the last three fields are no part of the structure. The text that
  -- the function prints into `sock_str` is not used.
  unfoldable pub type_4_structure : Machine → ℕ → ℕ → Smbios → Structure
  type_4_structure ms instance_number tbl_len s =
      let (socket, p1) = set_str [] (some (text "LGA1700")) in
      let (manufacturer, p2) = set_str p1 s.type4.manufacturer in
      let (version, p3) = set_str p2 s.type4.version in
      let (serial, p4) = set_str p3 (some (text "To Be Filled By O.E.M.")) in
      let (asset, p5) = set_str p4 (some (text "To Be Filled By O.E.M.")) in
      let (part, p6) = set_str p5 (some (text "To Be Filled By O.E.M.")) in
      let id = s.type4.processor_id in
      let filled : SmbiosType4 = record {
        header = header 4 tbl_len (t4_base + instance_number);
        socket_designation_str = socket;
        processor_type = 0x03;
        processor_family = 0x01;
        processor_manufacturer_str = manufacturer;
        processor_id = (
          if id == 0 then s.cpuid_version else u32 id,
          if id == 0 then s.cpuid_features else u32 (id / 2 ^ 32),
        );
        processor_version_str = version;
        voltage = 0x8B;
        external_clock = 0x64;
        max_speed = 6500;
        current_speed = u16 s.type4.current_speed;
        status = 0x41;
        processor_upgrade = 0x01;
        l1_cache_handle = 0xFF;
        l2_cache_handle = 0xFF;
        l3_cache_handle = 0xFF;
        serial_number_str = serial;
        asset_tag_number_str = asset;
        part_number_str = part;
        core_count = capped ms.cores_per_socket;
        core_enabled = capped ms.cores_per_socket;
        thread_count = capped ms.threads_per_socket;
        processor_characteristics = 0xFC;
        processor_family2 = 0x01;
        core_count2 = u16 ms.cores_per_socket;
        core_enabled2 = u16 ms.cores_per_socket;
        thread_count2 = u16 ms.threads_per_socket;
      } in
      record { table = type_4 filled; strings = p6 }

  unfoldable pub smbios_build_type_4_table :
      Machine → ℕ → EntryPointType → Smbios → Option Error → Outcome (Smbios × Option Error)
  smbios_build_type_4_table ms instance_number ep_type s errp =
      let tbl_len = type_4_len ep_type in
      let x = type_4_structure ms instance_number tbl_len s in
      if q.skips s 4 true
      then done (s, errp)
      else (if tbl_len == type_4_len_v30
          then done (record (emit q s x) { type4_count = s.type4_count + 1 }, errp)
          else (if capped ms.cores_per_socket == 0xFF || capped ms.threads_per_socket == 0xFF
              then (do
                errp' ← q.error_setg errp too_many_cores
                done (abandon q s 4 tbl_len, errp'))
              else done (record (emit q s x) { type4_count = s.type4_count + 1 }, errp)))

  -- The arguments that are `uint16_t` or `uint8_t` are cut to that width at the call.
  unfoldable pub type_7_structure : ℕ → String → ℕ → ℕ → ℕ → ℕ → ℕ → Structure
  type_7_structure instance_number designation configuration size correction kind associativity =
      let (socket, p1) = set_str [] (some (text designation)) in
      let filled : SmbiosType7 = record {
        header = header 7 sizeof_type_7 (t7_base + instance_number);
        socket_designation = socket;
        cache_configuration = u16 configuration;
        max_cache_size = u16 size;
        installed_size = u16 size;
        supported_sram_type = 0x20;
        current_sram_type = 0x20;
        cache_speed = 0x0;
        error_correction = u8 correction;
        system_cache_type = u8 kind;
        associativity = u8 associativity;
      } in
      record { table = type_7 filled; strings = p1 }

  -- `type7.socket_designation` is set also where the structure is skipped.
  unfoldable pub smbios_build_type_7_table : ℕ → String → ℕ → ℕ → ℕ → ℕ → ℕ → Smbios → Smbios
  smbios_build_type_7_table instance_number designation configuration size correction kind assoc s =
      build q (record s { type7_socket_designation = some (text designation) }) 7 true
        (type_7_structure instance_number designation configuration size correction kind assoc)
