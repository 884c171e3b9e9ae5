-- ===== src/Smbios/Layout/System.antt =====
-- smbios.h: the header, and the structures of types 0 to 3, 32 and 127.
use pve_anti_detection.Prelude.{ℕ, List, [], ◌∷◌, ◌++◌}
use pve_anti_detection.Smbios.Layout.Fields.{Field, byte_fields}

-- At the head of every structure.
pub record SmbiosStructureHeader : Type 0 where
  pub type : ℕ
  pub length : ℕ
  pub handle : ℕ

abbrev pub sizeof_structure_header : ℕ
sizeof_structure_header = 4

unfoldable pub structure_header_fields : SmbiosStructureHeader → List Field
structure_header_fields t = (1, t.type) ∷ (1, t.length) ∷ (2, t.handle) ∷ []

-- BIOS information
pub record SmbiosType0 : Type 0 where
  pub header : SmbiosStructureHeader
  pub vendor_str : ℕ
  pub bios_version_str : ℕ
  pub bios_starting_address_segment : ℕ
  pub bios_release_date_str : ℕ
  pub bios_rom_size : ℕ
  pub bios_characteristics : ℕ
  pub bios_characteristics_extension_bytes : ℕ × ℕ
  pub system_bios_major_release : ℕ
  pub system_bios_minor_release : ℕ
  pub embedded_controller_major_release : ℕ
  pub embedded_controller_minor_release : ℕ

abbrev pub sizeof_type_0 : ℕ
sizeof_type_0 = 24

unfoldable pub type_0_fields : SmbiosType0 → List Field
unfolding structure_header_fields
type_0_fields t =
    structure_header_fields t.header
    ++ ((1, t.vendor_str)
        ∷ (1, t.bios_version_str)
        ∷ (2, t.bios_starting_address_segment)
        ∷ (1, t.bios_release_date_str)
        ∷ (1, t.bios_rom_size)
        ∷ (8, t.bios_characteristics)
        ∷ (1, t.bios_characteristics_extension_bytes.0)
        ∷ (1, t.bios_characteristics_extension_bytes.1)
        ∷ (1, t.system_bios_major_release)
        ∷ (1, t.system_bios_minor_release)
        ∷ (1, t.embedded_controller_major_release)
        ∷ (1, t.embedded_controller_minor_release)
        ∷ [])

-- A UUID on the wire: the time fields are little-endian.
pub record SmbiosUuid : Type 0 where
  pub time_low : ℕ
  pub time_mid : ℕ
  pub time_hi_and_version : ℕ
  pub clock_seq_hi_and_reserved : ℕ
  pub clock_seq_low : ℕ
  pub node : List ℕ

abbrev pub sizeof_uuid : ℕ
sizeof_uuid = 16

unfoldable pub uuid_fields : SmbiosUuid → List Field
uuid_fields t =
    (4, t.time_low)
    ∷ (2, t.time_mid)
    ∷ (2, t.time_hi_and_version)
    ∷ (1, t.clock_seq_hi_and_reserved)
    ∷ (1, t.clock_seq_low)
    ∷ (byte_fields t.node)

-- system information
pub record SmbiosType1 : Type 0 where
  pub header : SmbiosStructureHeader
  pub manufacturer_str : ℕ
  pub product_name_str : ℕ
  pub version_str : ℕ
  pub serial_number_str : ℕ
  pub uuid : SmbiosUuid
  pub wake_up_type : ℕ
  pub sku_number_str : ℕ
  pub family_str : ℕ

abbrev pub sizeof_type_1 : ℕ
sizeof_type_1 = 27

unfoldable pub type_1_fields : SmbiosType1 → List Field
unfolding structure_header_fields uuid_fields
type_1_fields t =
    structure_header_fields t.header
    ++ ((1, t.manufacturer_str)
        ∷ (1, t.product_name_str)
        ∷ (1, t.version_str)
        ∷ (1, t.serial_number_str)
        ∷ (uuid_fields t.uuid
            ++ ((1, t.wake_up_type) ∷ (1, t.sku_number_str) ∷ (1, t.family_str) ∷ [])))

-- base board
pub record SmbiosType2 : Type 0 where
  pub header : SmbiosStructureHeader
  pub manufacturer_str : ℕ
  pub product_str : ℕ
  pub version_str : ℕ
  pub serial_number_str : ℕ
  pub asset_tag_number_str : ℕ
  pub feature_flags : ℕ
  pub location_str : ℕ
  pub chassis_handle : ℕ
  pub board_type : ℕ
  pub contained_element_count : ℕ

abbrev pub sizeof_type_2 : ℕ
sizeof_type_2 = 15

unfoldable pub type_2_fields : SmbiosType2 → List Field
unfolding structure_header_fields
type_2_fields t =
    structure_header_fields t.header
    ++ ((1, t.manufacturer_str)
        ∷ (1, t.product_str)
        ∷ (1, t.version_str)
        ∷ (1, t.serial_number_str)
        ∷ (1, t.asset_tag_number_str)
        ∷ (1, t.feature_flags)
        ∷ (1, t.location_str)
        ∷ (2, t.chassis_handle)
        ∷ (1, t.board_type)
        ∷ (1, t.contained_element_count)
        ∷ [])

-- system enclosure
pub record SmbiosType3 : Type 0 where
  pub header : SmbiosStructureHeader
  pub manufacturer_str : ℕ
  pub type : ℕ
  pub version_str : ℕ
  pub serial_number_str : ℕ
  pub asset_tag_number_str : ℕ
  pub boot_up_state : ℕ
  pub power_supply_state : ℕ
  pub thermal_state : ℕ
  pub security_status : ℕ
  pub oem_defined : ℕ
  pub height : ℕ
  pub number_of_power_cords : ℕ
  pub contained_element_count : ℕ
  pub contained_element_record_length : ℕ
  pub sku_number_str : ℕ

abbrev pub sizeof_type_3 : ℕ
sizeof_type_3 = 22

unfoldable pub type_3_fields : SmbiosType3 → List Field
unfolding structure_header_fields
type_3_fields t =
    structure_header_fields t.header
    ++ ((1, t.manufacturer_str)
        ∷ (1, t.type)
        ∷ (1, t.version_str)
        ∷ (1, t.serial_number_str)
        ∷ (1, t.asset_tag_number_str)
        ∷ (1, t.boot_up_state)
        ∷ (1, t.power_supply_state)
        ∷ (1, t.thermal_state)
        ∷ (1, t.security_status)
        ∷ (4, t.oem_defined)
        ∷ (1, t.height)
        ∷ (1, t.number_of_power_cords)
        ∷ (1, t.contained_element_count)
        ∷ (1, t.contained_element_record_length)
        ∷ (1, t.sku_number_str)
        ∷ [])

-- system boot information
pub record SmbiosType32 : Type 0 where
  pub header : SmbiosStructureHeader
  pub reserved : List ℕ
  pub boot_status : ℕ

abbrev pub sizeof_type_32 : ℕ
sizeof_type_32 = 11

unfoldable pub type_32_fields : SmbiosType32 → List Field
unfolding structure_header_fields
type_32_fields t =
    structure_header_fields t.header ++ (byte_fields t.reserved ++ ((1, t.boot_status) ∷ []))

-- end of table
pub record SmbiosType127 : Type 0 where
  pub header : SmbiosStructureHeader

abbrev pub sizeof_type_127 : ℕ
sizeof_type_127 = 4

unfoldable pub type_127_fields : SmbiosType127 → List Field
unfolding structure_header_fields
type_127_fields t = structure_header_fields t.header
