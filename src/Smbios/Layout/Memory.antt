-- ===== src/Smbios/Layout/Memory.antt =====
-- smbios.h: the structures that describe memory, of types 16, 17, 19, 20 and 37.
use pve_anti_detection.Prelude.{ℕ, List, [], ◌∷◌, ◌++◌}
use pve_anti_detection.Smbios.Layout.Fields.{Field}
use pve_anti_detection.Smbios.Layout.System.{SmbiosStructureHeader, structure_header_fields}

-- physical memory array
pub record SmbiosType16 : Type 0 where
  pub header : SmbiosStructureHeader
  pub location : ℕ
  pub array_use : ℕ
  pub error_correction : ℕ
  pub maximum_capacity : ℕ
  pub memory_error_information_handle : ℕ
  pub number_of_memory_devices : ℕ
  pub extended_maximum_capacity : ℕ

abbrev pub sizeof_type_16 : ℕ
sizeof_type_16 = 23

unfoldable pub type_16_fields : SmbiosType16 → List Field
unfolding structure_header_fields
type_16_fields t =
    structure_header_fields t.header
    ++ ((1, t.location)
        ∷ (1, t.array_use)
        ∷ (1, t.error_correction)
        ∷ (4, t.maximum_capacity)
        ∷ (2, t.memory_error_information_handle)
        ∷ (2, t.number_of_memory_devices)
        ∷ (8, t.extended_maximum_capacity)
        ∷ [])

-- memory device
pub record SmbiosType17 : Type 0 where
  pub header : SmbiosStructureHeader
  pub physical_memory_array_handle : ℕ
  pub memory_error_information_handle : ℕ
  pub total_width : ℕ
  pub data_width : ℕ
  pub size : ℕ
  pub form_factor : ℕ
  pub device_set : ℕ
  pub device_locator_str : ℕ
  pub bank_locator_str : ℕ
  pub memory_type : ℕ
  pub type_detail : ℕ
  pub speed : ℕ
  pub manufacturer_str : ℕ
  pub serial_number_str : ℕ
  pub asset_tag_number_str : ℕ
  pub part_number_str : ℕ
  pub attributes : ℕ
  pub extended_size : ℕ
  pub configured_clock_speed : ℕ
  pub minimum_voltage : ℕ
  pub maximum_voltage : ℕ
  pub configured_voltage : ℕ

abbrev pub sizeof_type_17 : ℕ
sizeof_type_17 = 40

unfoldable pub type_17_fields : SmbiosType17 → List Field
unfolding structure_header_fields
type_17_fields t =
    structure_header_fields t.header
    ++ ((2, t.physical_memory_array_handle)
        ∷ (2, t.memory_error_information_handle)
        ∷ (2, t.total_width)
        ∷ (2, t.data_width)
        ∷ (2, t.size)
        ∷ (1, t.form_factor)
        ∷ (1, t.device_set)
        ∷ (1, t.device_locator_str)
        ∷ (1, t.bank_locator_str)
        ∷ (1, t.memory_type)
        ∷ (2, t.type_detail)
        ∷ (2, t.speed)
        ∷ (1, t.manufacturer_str)
        ∷ (1, t.serial_number_str)
        ∷ (1, t.asset_tag_number_str)
        ∷ (1, t.part_number_str)
        ∷ (1, t.attributes)
        ∷ (4, t.extended_size)
        ∷ (2, t.configured_clock_speed)
        ∷ (2, t.minimum_voltage)
        ∷ (2, t.maximum_voltage)
        ∷ (2, t.configured_voltage)
        ∷ [])

-- memory array mapped address
pub record SmbiosType19 : Type 0 where
  pub header : SmbiosStructureHeader
  pub starting_address : ℕ
  pub ending_address : ℕ
  pub memory_array_handle : ℕ
  pub partition_width : ℕ
  pub extended_starting_address : ℕ
  pub extended_ending_address : ℕ

abbrev pub sizeof_type_19 : ℕ
sizeof_type_19 = 31

unfoldable pub type_19_fields : SmbiosType19 → List Field
unfolding structure_header_fields
type_19_fields t =
    structure_header_fields t.header
    ++ ((4, t.starting_address)
        ∷ (4, t.ending_address)
        ∷ (2, t.memory_array_handle)
        ∷ (1, t.partition_width)
        ∷ (8, t.extended_starting_address)
        ∷ (8, t.extended_ending_address)
        ∷ [])

-- memory device mapped address
pub record SmbiosType20 : Type 0 where
  pub header : SmbiosStructureHeader
  pub starting_address : ℕ
  pub ending_address : ℕ
  pub memory_device_handle : ℕ
  pub memory_array_mapped_address_handle : ℕ
  pub partition_row_position : ℕ
  pub interleave_position : ℕ
  pub interleave_data_depth : ℕ

abbrev pub sizeof_type_20 : ℕ
sizeof_type_20 = 19

unfoldable pub type_20_fields : SmbiosType20 → List Field
unfolding structure_header_fields
type_20_fields t =
    structure_header_fields t.header
    ++ ((4, t.starting_address)
        ∷ (4, t.ending_address)
        ∷ (2, t.memory_device_handle)
        ∷ (2, t.memory_array_mapped_address_handle)
        ∷ (1, t.partition_row_position)
        ∷ (1, t.interleave_position)
        ∷ (1, t.interleave_data_depth)
        ∷ [])

-- memory channel: the header alone
pub record SmbiosType37 : Type 0 where
  pub header : SmbiosStructureHeader

abbrev pub sizeof_type_37 : ℕ
sizeof_type_37 = 4

unfoldable pub type_37_fields : SmbiosType37 → List Field
unfolding structure_header_fields
type_37_fields t = structure_header_fields t.header
