-- ===== src/Smbios/Build/System.antt =====
-- smbios.c: the structures of types 0 to 3, 32 and 127 (lines 737 to 841, 1108 to 1116 and 1165 to
-- 1169).
use pve_anti_detection.Prelude.{
  ℕ, ◌+◌, ◌*◌, ◌/◌, ◌%◌, true, false, List, [], bit_or, replicate, take, drop, le_value,
  if◌then◌else◌,
}
use pve_anti_detection.Smbios.Layout.System.{
  SmbiosUuid, SmbiosType0, SmbiosType1, SmbiosType2, SmbiosType3, sizeof_type_0, sizeof_type_1,
  sizeof_type_2, sizeof_type_3, sizeof_type_32, sizeof_type_127,
}
use pve_anti_detection.Smbios.Table.{Structure, type_0, type_1, type_2, type_3, type_32, type_127}
use pve_anti_detection.Smbios.State.{Smbios}
use pve_anti_detection.Smbios.Qemu.{Qemu}
use pve_anti_detection.Smbios.Build.Core.{
  build, t0_base, t1_base, t2_base, t3_base, t32_base, t127_base,
}

-- The two and the four bytes of a number in the opposite order.
abbrev pub bswap16 : ℕ → ℕ
bswap16 v = v % 256 * 256 + v / 256 % 256

abbrev pub bswap32 : ℕ → ℕ
bswap32 v = ((v % 256 * 256 + v / 256 % 256) * 256 + v / 65536 % 256) * 256 + v / 16777216 % 256

-- The 16 bytes of a UUID are copied into the structure, on a little-endian host, and the bytes of
-- each time field are swapped.
unfoldable pub smbios_encode_uuid : List ℕ → SmbiosUuid
smbios_encode_uuid u = record {
  time_low = bswap32 (le_value (take 4 u));
  time_mid = bswap16 (le_value (take 2 (drop 4 u)));
  time_hi_and_version = bswap16 (le_value (take 2 (drop 6 u)));
  clock_seq_hi_and_reserved = le_value (take 1 (drop 8 u));
  clock_seq_low = le_value (take 1 (drop 9 u));
  node = take 6 (drop 10 u);
}

abbrev pub zero_uuid : SmbiosUuid
zero_uuid = record {
  time_low = 0;
  time_mid = 0;
  time_hi_and_version = 0;
  clock_seq_hi_and_reserved = 0;
  clock_seq_low = 0;
  node = replicate 6 0;
}

module _ (q : Qemu) where
  open q use {header, set_str}

  unfoldable pub type_0_structure : Smbios → Structure
  type_0_structure s =
      let (vendor, p1) = set_str [] s.type0.vendor in
      let (version, p2) = set_str p1 s.type0.version in
      let (date, p3) = set_str p2 s.type0.date in
      let filled : SmbiosType0 = record {
        header = header 0 sizeof_type_0 t0_base;
        vendor_str = vendor;
        bios_version_str = version;
        bios_starting_address_segment = 0xE800;
        bios_release_date_str = date;
        bios_rom_size = 0;
        bios_characteristics = 0x08;
        bios_characteristics_extension_bytes =
            (0xEF, if s.type0.uefi then bit_or 0x0F 0x08 else 0x0F);
        system_bios_major_release = if s.type0.have_major_minor then s.type0.major else 0;
        system_bios_minor_release = if s.type0.have_major_minor then s.type0.minor else 0;
        embedded_controller_major_release = 0xFF;
        embedded_controller_minor_release = 0xFF;
      } in
      record { table = type_0 filled; strings = p3 }

  unfoldable pub smbios_build_type_0_table : Smbios → Smbios
  smbios_build_type_0_table s = build q s 0 false (type_0_structure s)

  unfoldable pub type_1_structure : Smbios → Structure
  unfolding smbios_encode_uuid
  type_1_structure s =
      let (manufacturer, p1) = set_str [] s.type1.manufacturer in
      let (product, p2) = set_str p1 s.type1.product in
      let (version, p3) = set_str p2 s.type1.version in
      let (serial, p4) = set_str p3 s.type1.serial in
      let (sku, p5) = set_str p4 s.type1.sku in
      let (family, p6) = set_str p5 s.type1.family in
      let filled : SmbiosType1 = record {
        header = header 1 sizeof_type_1 t1_base;
        manufacturer_str = manufacturer;
        product_name_str = product;
        version_str = version;
        serial_number_str = serial;
        uuid = if s.qemu_uuid_set then smbios_encode_uuid s.qemu_uuid else zero_uuid;
        wake_up_type = 0x06;
        sku_number_str = sku;
        family_str = family;
      } in
      record { table = type_1 filled; strings = p6 }

  unfoldable pub smbios_build_type_1_table : Smbios → Smbios
  smbios_build_type_1_table s = build q s 1 true (type_1_structure s)

  unfoldable pub type_2_structure : Smbios → Structure
  type_2_structure s =
      let (manufacturer, p1) = set_str [] s.type2.manufacturer in
      let (product, p2) = set_str p1 s.type2.product in
      let (version, p3) = set_str p2 s.type2.version in
      let (serial, p4) = set_str p3 s.type2.serial in
      let (asset, p5) = set_str p4 s.type2.asset in
      let (location, p6) = set_str p5 s.type2.location in
      let filled : SmbiosType2 = record {
        header = header 2 sizeof_type_2 t2_base;
        manufacturer_str = manufacturer;
        product_str = product;
        version_str = version;
        serial_number_str = serial;
        asset_tag_number_str = asset;
        feature_flags = 0x01;
        location_str = location;
        chassis_handle = 0x300;
        board_type = 0x0A;
        contained_element_count = 0;
      } in
      record { table = type_2 filled; strings = p6 }

  unfoldable pub smbios_build_type_2_table : Smbios → Smbios
  smbios_build_type_2_table s = build q s 2 true (type_2_structure s)

  unfoldable pub type_3_structure : Smbios → Structure
  type_3_structure s =
      let (manufacturer, p1) = set_str [] s.type3.manufacturer in
      let (version, p2) = set_str p1 s.type3.version in
      let (serial, p3) = set_str p2 s.type3.serial in
      let (asset, p4) = set_str p3 s.type3.asset in
      let (sku, p5) = set_str p4 s.type3.sku in
      let filled : SmbiosType3 = record {
        header = header 3 sizeof_type_3 t3_base;
        manufacturer_str = manufacturer;
        type = 0x03;
        version_str = version;
        serial_number_str = serial;
        asset_tag_number_str = asset;
        boot_up_state = 0x03;
        power_supply_state = 0x03;
        thermal_state = 0x03;
        security_status = 0x02;
        oem_defined = 0;
        height = 0;
        number_of_power_cords = 0;
        contained_element_count = 0;
        contained_element_record_length = 0;
        sku_number_str = sku;
      } in
      record { table = type_3 filled; strings = p5 }

  unfoldable pub smbios_build_type_3_table : Smbios → Smbios
  smbios_build_type_3_table s = build q s 3 true (type_3_structure s)

  abbrev pub type_32_structure : Structure
  type_32_structure = record {
    table = type_32 (record {
      header = header 32 sizeof_type_32 t32_base;
      reserved = replicate 6 0;
      boot_status = 0;
    });
    strings = [];
  }

  unfoldable pub smbios_build_type_32_table : Smbios → Smbios
  smbios_build_type_32_table s = build q s 32 true type_32_structure

  abbrev pub type_127_structure : Structure
  type_127_structure = record {
    table = type_127 (record { header = header 127 sizeof_type_127 t127_base });
    strings = [];
  }

  unfoldable pub smbios_build_type_127_table : Smbios → Smbios
  smbios_build_type_127_table s = build q s 127 true type_127_structure
