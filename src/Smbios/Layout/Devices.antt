-- ===== src/Smbios/Layout/Devices.antt =====
-- smbios.h: the structures of types 4, 7, 8, 9, 11 and 41.
use pve_anti_detection.Prelude.{ℕ, List, [], ◌∷◌, ◌++◌}
use pve_anti_detection.Smbios.Layout.Fields.{Field}
use pve_anti_detection.Smbios.Layout.System.{SmbiosStructureHeader, structure_header_fields}

-- processor information, with the fields of version 3.0
pub record SmbiosType4 : Type 0 where
  pub header : SmbiosStructureHeader
  pub socket_designation_str : ℕ
  pub processor_type : ℕ
  pub processor_family : ℕ
  pub processor_manufacturer_str : ℕ
  pub processor_id : ℕ × ℕ
  pub processor_version_str : ℕ
  pub voltage : ℕ
  pub external_clock : ℕ
  pub max_speed : ℕ
  pub current_speed : ℕ
  pub status : ℕ
  pub processor_upgrade : ℕ
  pub l1_cache_handle : ℕ
  pub l2_cache_handle : ℕ
  pub l3_cache_handle : ℕ
  pub serial_number_str : ℕ
  pub asset_tag_number_str : ℕ
  pub part_number_str : ℕ
  pub core_count : ℕ
  pub core_enabled : ℕ
  pub thread_count : ℕ
  pub processor_characteristics : ℕ
  pub processor_family2 : ℕ
  pub core_count2 : ℕ
  pub core_enabled2 : ℕ
  pub thread_count2 : ℕ

abbrev pub sizeof_type_4 : ℕ
sizeof_type_4 = 48

unfoldable pub type_4_fields : SmbiosType4 → List Field
unfolding structure_header_fields
type_4_fields t =
    structure_header_fields t.header
    ++ ((1, t.socket_designation_str)
        ∷ (1, t.processor_type)
        ∷ (1, t.processor_family)
        ∷ (1, t.processor_manufacturer_str)
        ∷ (4, t.processor_id.0)
        ∷ (4, t.processor_id.1)
        ∷ (1, t.processor_version_str)
        ∷ (1, t.voltage)
        ∷ (2, t.external_clock)
        ∷ (2, t.max_speed)
        ∷ (2, t.current_speed)
        ∷ (1, t.status)
        ∷ (1, t.processor_upgrade)
        ∷ (2, t.l1_cache_handle)
        ∷ (2, t.l2_cache_handle)
        ∷ (2, t.l3_cache_handle)
        ∷ (1, t.serial_number_str)
        ∷ (1, t.asset_tag_number_str)
        ∷ (1, t.part_number_str)
        ∷ (1, t.core_count)
        ∷ (1, t.core_enabled)
        ∷ (1, t.thread_count)
        ∷ (2, t.processor_characteristics)
        ∷ (2, t.processor_family2)
        ∷ (2, t.core_count2)
        ∷ (2, t.core_enabled2)
        ∷ (2, t.thread_count2)
        ∷ [])

-- cache information
pub record SmbiosType7 : Type 0 where
  pub header : SmbiosStructureHeader
  pub socket_designation : ℕ
  pub cache_configuration : ℕ
  pub max_cache_size : ℕ
  pub installed_size : ℕ
  pub supported_sram_type : ℕ
  pub current_sram_type : ℕ
  pub cache_speed : ℕ
  pub error_correction : ℕ
  pub system_cache_type : ℕ
  pub associativity : ℕ

abbrev pub sizeof_type_7 : ℕ
sizeof_type_7 = 19

unfoldable pub type_7_fields : SmbiosType7 → List Field
unfolding structure_header_fields
type_7_fields t =
    structure_header_fields t.header
    ++ ((1, t.socket_designation)
        ∷ (2, t.cache_configuration)
        ∷ (2, t.max_cache_size)
        ∷ (2, t.installed_size)
        ∷ (2, t.supported_sram_type)
        ∷ (2, t.current_sram_type)
        ∷ (1, t.cache_speed)
        ∷ (1, t.error_correction)
        ∷ (1, t.system_cache_type)
        ∷ (1, t.associativity)
        ∷ [])

-- port connector
pub record SmbiosType8 : Type 0 where
  pub header : SmbiosStructureHeader
  pub internal_reference_str : ℕ
  pub internal_connector_type : ℕ
  pub external_reference_str : ℕ
  pub external_connector_type : ℕ
  pub port_type : ℕ

abbrev pub sizeof_type_8 : ℕ
sizeof_type_8 = 9

unfoldable pub type_8_fields : SmbiosType8 → List Field
unfolding structure_header_fields
type_8_fields t =
    structure_header_fields t.header
    ++ ((1, t.internal_reference_str)
        ∷ (1, t.internal_connector_type)
        ∷ (1, t.external_reference_str)
        ∷ (1, t.external_connector_type)
        ∷ (1, t.port_type)
        ∷ [])

-- system slot
pub record SmbiosType9 : Type 0 where
  pub header : SmbiosStructureHeader
  pub slot_designation : ℕ
  pub slot_type : ℕ
  pub slot_data_bus_width : ℕ
  pub current_usage : ℕ
  pub slot_length : ℕ
  pub slot_id : ℕ
  pub slot_characteristics1 : ℕ
  pub slot_characteristics2 : ℕ
  pub segment_group_number : ℕ
  pub bus_number : ℕ
  pub device_number : ℕ

abbrev pub sizeof_type_9 : ℕ
sizeof_type_9 = 17

unfoldable pub type_9_fields : SmbiosType9 → List Field
unfolding structure_header_fields
type_9_fields t =
    structure_header_fields t.header
    ++ ((1, t.slot_designation)
        ∷ (1, t.slot_type)
        ∷ (1, t.slot_data_bus_width)
        ∷ (1, t.current_usage)
        ∷ (1, t.slot_length)
        ∷ (2, t.slot_id)
        ∷ (1, t.slot_characteristics1)
        ∷ (1, t.slot_characteristics2)
        ∷ (2, t.segment_group_number)
        ∷ (1, t.bus_number)
        ∷ (1, t.device_number)
        ∷ [])

-- OEM strings
pub record SmbiosType11 : Type 0 where
  pub header : SmbiosStructureHeader
  pub count : ℕ

abbrev pub sizeof_type_11 : ℕ
sizeof_type_11 = 5

unfoldable pub type_11_fields : SmbiosType11 → List Field
unfolding structure_header_fields
type_11_fields t = structure_header_fields t.header ++ ((1, t.count) ∷ [])

-- onboard device
pub record SmbiosType41 : Type 0 where
  pub header : SmbiosStructureHeader
  pub reference_designation_str : ℕ
  pub device_type : ℕ
  pub device_type_instance : ℕ
  pub segment_group_number : ℕ
  pub bus_number : ℕ
  pub device_number : ℕ

abbrev pub sizeof_type_41 : ℕ
sizeof_type_41 = 11

unfoldable pub type_41_fields : SmbiosType41 → List Field
unfolding structure_header_fields
type_41_fields t =
    structure_header_fields t.header
    ++ ((1, t.reference_designation_str)
        ∷ (1, t.device_type)
        ∷ (1, t.device_type_instance)
        ∷ (2, t.segment_group_number)
        ∷ (1, t.bus_number)
        ∷ (1, t.device_number)
        ∷ [])
