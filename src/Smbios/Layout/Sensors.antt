-- ===== src/Smbios/Layout/Sensors.antt =====
-- smbios.h: the structures of sensors and power, of types 22, 26 to 29 and 39.
use pve_anti_detection.Prelude.{ℕ, List, [], ◌∷◌, ◌++◌}
use pve_anti_detection.Smbios.Layout.Fields.{Field}
use pve_anti_detection.Smbios.Layout.System.{SmbiosStructureHeader, structure_header_fields}

-- portable battery
pub record SmbiosType22 : Type 0 where
  pub header : SmbiosStructureHeader
  pub location : ℕ
  pub manufacturer : ℕ
  pub manufacturer_date : ℕ
  pub serial_number : ℕ
  pub device_name : ℕ
  pub device_chemistry : ℕ
  pub design_capacity : ℕ
  pub design_voltage : ℕ
  pub sbds_version_number : ℕ
  pub maximum_error_in_battery_data : ℕ
  pub sbds_serial_number : ℕ
  pub sbds_manufacture_date : ℕ
  pub sbds_device_chemistry : ℕ
  pub design_capacity_multiplier : ℕ
  pub oem_specific : ℕ

abbrev pub sizeof_type_22 : ℕ
sizeof_type_22 = 26

unfoldable pub type_22_fields : SmbiosType22 → List Field
unfolding structure_header_fields
type_22_fields t =
    structure_header_fields t.header
    ++ ((1, t.location)
        ∷ (1, t.manufacturer)
        ∷ (1, t.manufacturer_date)
        ∷ (1, t.serial_number)
        ∷ (1, t.device_name)
        ∷ (1, t.device_chemistry)
        ∷ (2, t.design_capacity)
        ∷ (2, t.design_voltage)
        ∷ (1, t.sbds_version_number)
        ∷ (1, t.maximum_error_in_battery_data)
        ∷ (2, t.sbds_serial_number)
        ∷ (2, t.sbds_manufacture_date)
        ∷ (1, t.sbds_device_chemistry)
        ∷ (1, t.design_capacity_multiplier)
        ∷ (4, t.oem_specific)
        ∷ [])

-- voltage probe
pub record SmbiosType26 : Type 0 where
  pub header : SmbiosStructureHeader
  pub description : ℕ
  pub location_and_status : ℕ
  pub max_value : ℕ
  pub min_value : ℕ
  pub resolution : ℕ
  pub tolerance : ℕ
  pub accuracy : ℕ
  pub oem_defined : ℕ
  pub nominal_value : ℕ

abbrev pub sizeof_type_26 : ℕ
sizeof_type_26 = 22

unfoldable pub type_26_fields : SmbiosType26 → List Field
unfolding structure_header_fields
type_26_fields t =
    structure_header_fields t.header
    ++ ((1, t.description)
        ∷ (1, t.location_and_status)
        ∷ (2, t.max_value)
        ∷ (2, t.min_value)
        ∷ (2, t.resolution)
        ∷ (2, t.tolerance)
        ∷ (2, t.accuracy)
        ∷ (4, t.oem_defined)
        ∷ (2, t.nominal_value)
        ∷ [])

-- cooling device
pub record SmbiosType27 : Type 0 where
  pub header : SmbiosStructureHeader
  pub temperature_probe_handle : ℕ
  pub device_type_and_status : ℕ
  pub cooling_unit_group : ℕ
  pub oem_defined : ℕ
  pub nominal_speed : ℕ
  pub description : ℕ

abbrev pub sizeof_type_27 : ℕ
sizeof_type_27 = 15

unfoldable pub type_27_fields : SmbiosType27 → List Field
unfolding structure_header_fields
type_27_fields t =
    structure_header_fields t.header
    ++ ((2, t.temperature_probe_handle)
        ∷ (1, t.device_type_and_status)
        ∷ (1, t.cooling_unit_group)
        ∷ (4, t.oem_defined)
        ∷ (2, t.nominal_speed)
        ∷ (1, t.description)
        ∷ [])

-- temperature probe
pub record SmbiosType28 : Type 0 where
  pub header : SmbiosStructureHeader
  pub description : ℕ
  pub location_and_status : ℕ
  pub maximum_value : ℕ
  pub minimum_value : ℕ
  pub resolution : ℕ
  pub tolerance : ℕ
  pub accuracy : ℕ
  pub oem_defined : ℕ
  pub nominal_value : ℕ

abbrev pub sizeof_type_28 : ℕ
sizeof_type_28 = 22

unfoldable pub type_28_fields : SmbiosType28 → List Field
unfolding structure_header_fields
type_28_fields t =
    structure_header_fields t.header
    ++ ((1, t.description)
        ∷ (1, t.location_and_status)
        ∷ (2, t.maximum_value)
        ∷ (2, t.minimum_value)
        ∷ (2, t.resolution)
        ∷ (2, t.tolerance)
        ∷ (2, t.accuracy)
        ∷ (4, t.oem_defined)
        ∷ (2, t.nominal_value)
        ∷ [])

-- electrical current probe: its description alone
pub record SmbiosType29 : Type 0 where
  pub header : SmbiosStructureHeader
  pub description : ℕ

abbrev pub sizeof_type_29 : ℕ
sizeof_type_29 = 5

unfoldable pub type_29_fields : SmbiosType29 → List Field
unfolding structure_header_fields
type_29_fields t = structure_header_fields t.header ++ ((1, t.description) ∷ [])

-- power supply: its name alone
pub record SmbiosType39 : Type 0 where
  pub header : SmbiosStructureHeader
  pub device_name : ℕ

abbrev pub sizeof_type_39 : ℕ
sizeof_type_39 = 5

unfoldable pub type_39_fields : SmbiosType39 → List Field
unfolding structure_header_fields
type_39_fields t = structure_header_fields t.header ++ ((1, t.device_name) ∷ [])
