-- ===== src/Smbios/State.antt =====
-- The static variables of smbios.c (lines 33 to 133 and 564 to 587) and of smbios.h: the blobs and
-- fields that the user gave, the tables under construction, and the entry point.
use pve_anti_detection.Prelude.{
  ℕ, Bool, true, false, Option, none, List, [], Text, ◌==◌, if◌then◌else◌,
}
use pve_anti_detection.Smbios.Layout.Anchor.{Smbios21EntryPoint, Smbios30EntryPoint}
use pve_anti_detection.Smbios.Table.{Structure}

-- `SmbiosEntryPointType`
pub data EntryPointType : Type 0 where
  entry_point_auto entry_point_32 entry_point_64 : EntryPointType

-- What `error_setg` reports, with the numbers of its message.
pub data Error : Type 0 where
  type4_count_mismatch : ℕ → ℕ → Error
  tables_too_long : ℕ → Error
  too_many_cores : Error
  no_pci_device : Text → Error
  not_on_root_bus : Text → Error
  invalid_option cannot_read_file failed_to_load : Error
  fields_already_given : ℕ → Error
  binary_already_loaded out_of_range : Error
  invalid_release invalid_uuid invalid_kind : Error
  speed_too_large nul_in_oem_string cannot_open_path read_failed : Error
  unexpected_option : Error
  unknown_type : ℕ → Error
  must_specify : Error

-- `smbios_tables`, `smbios_tables_len`, `smbios_table_max` and `smbios_table_cnt`. `built` is no
-- variable of the program: it is the history of the structures finished since the tables were
-- reset, the oldest first.
pub record Tables : Type 0 where
  pub blob : List ℕ
  pub tables_len : ℕ
  pub table_max : ℕ
  pub table_cnt : ℕ
  pub built : List Structure

pub record Type0 : Type 0 where
  pub vendor : Option Text
  pub version : Option Text
  pub date : Option Text
  pub have_major_minor : Bool
  pub uefi : Bool
  pub major : ℕ
  pub minor : ℕ

pub record Type1 : Type 0 where
  pub manufacturer : Option Text
  pub product : Option Text
  pub version : Option Text
  pub serial : Option Text
  pub sku : Option Text
  pub family : Option Text

pub record Type2 : Type 0 where
  pub manufacturer : Option Text
  pub product : Option Text
  pub version : Option Text
  pub serial : Option Text
  pub asset : Option Text
  pub location : Option Text

pub record Type3 : Type 0 where
  pub manufacturer : Option Text
  pub version : Option Text
  pub serial : Option Text
  pub asset : Option Text
  pub sku : Option Text

pub record Type4 : Type 0 where
  pub processor_family : ℕ
  pub sock_pfx : Option Text
  pub manufacturer : Option Text
  pub version : Option Text
  pub serial : Option Text
  pub asset : Option Text
  pub part : Option Text
  pub max_speed : ℕ
  pub current_speed : ℕ
  pub processor_id : ℕ

pub record Type8Instance : Type 0 where
  pub internal_reference : Option Text
  pub external_reference : Option Text
  pub connector_type : ℕ
  pub port_type : ℕ

pub record Type9Instance : Type 0 where
  pub slot_designation : Option Text
  pub pcidev : Option Text
  pub slot_type : ℕ
  pub slot_data_bus_width : ℕ
  pub current_usage : ℕ
  pub slot_length : ℕ
  pub slot_characteristics1 : ℕ
  pub slot_characteristics2 : ℕ
  pub slot_id : ℕ

pub record Type17 : Type 0 where
  pub loc_pfx : Option Text
  pub bank : Option Text
  pub manufacturer : Option Text
  pub serial : Option Text
  pub asset : Option Text
  pub part : Option Text
  pub speed : ℕ

pub record Type41Instance : Type 0 where
  pub designation : Option Text
  pub pcidev : Option Text
  pub instance_number : ℕ
  pub kind : ℕ

-- The union `ep`; `empty` before it is set up.
pub data EntryPoint : Type 0 where
  empty : EntryPoint
  ep21 : Smbios21EntryPoint → EntryPoint
  ep30 : Smbios30EntryPoint → EntryPoint

-- `usr_blob_sizes` are the calls of `smbios_add_usr_blob_size`, which another file keeps. The
-- bitmaps are functions of the type. `type11` is the array of `nvalues` pointers: each to the bytes
-- of a heap block, or NULL.
pub record Smbios : Type 0 where
  pub usr_blobs : List ℕ
  pub usr_blobs_len : ℕ
  pub usr_table_max : ℕ
  pub usr_table_cnt : ℕ
  pub usr_blob_sizes : List ℕ
  pub tables : Tables
  pub ep : EntryPoint
  pub type4_count : ℕ
  pub have_defaults : Bool
  pub cpuid_version : ℕ
  pub cpuid_features : ℕ
  pub have_binfile : ℕ → Bool
  pub have_fields : ℕ → Bool
  pub qemu_uuid_set : Bool
  pub qemu_uuid : List ℕ
  pub type0 : Type0
  pub type1 : Type1
  pub type2 : Type2
  pub type3 : Type3
  pub type4 : Type4
  pub type8 : List Type8Instance
  pub type9 : List Type9Instance
  pub type11 : List (Option (List ℕ))
  pub type17 : Type17
  pub type41 : List Type41Instance
  pub type7_socket_designation : Option Text
  pub type26_description : Option Text
  pub type27_description : Option Text
  pub type28_description : Option Text

abbrev pub default_cpu_speed : ℕ
default_cpu_speed = 2000

abbrev pub smbios_max_type : ℕ
smbios_max_type = 127

-- `set_bit`
abbrev pub set_bit : ℕ → (ℕ → Bool) → ℕ → Bool
set_bit n bitmap i = if i == n then true else bitmap i

abbrev pub no_tables : Tables
no_tables = record { blob = []; tables_len = 0; table_max = 0; table_cnt = 0; built = [] }

-- The variables as the program starts; the UUID is the emulator's.
abbrev pub initial : List ℕ → Smbios
initial uuid = record {
  usr_blobs = [];
  usr_blobs_len = 0;
  usr_table_max = 0;
  usr_table_cnt = 0;
  usr_blob_sizes = [];
  tables = no_tables;
  ep = empty;
  type4_count = 0;
  have_defaults = false;
  cpuid_version = 0;
  cpuid_features = 0;
  have_binfile = λ i. false;
  have_fields = λ i. false;
  qemu_uuid_set = false;
  qemu_uuid = uuid;
  type0 = record {
    vendor = none;
    version = none;
    date = none;
    have_major_minor = false;
    uefi = false;
    major = 0;
    minor = 0;
  };
  type1 = record {
    manufacturer = none;
    product = none;
    version = none;
    serial = none;
    sku = none;
    family = none;
  };
  type2 = record {
    manufacturer = none;
    product = none;
    version = none;
    serial = none;
    asset = none;
    location = none;
  };
  type3 = record { manufacturer = none; version = none; serial = none; asset = none; sku = none };
  type4 = record {
    processor_family = 0x01;
    sock_pfx = none;
    manufacturer = none;
    version = none;
    serial = none;
    asset = none;
    part = none;
    max_speed = default_cpu_speed;
    current_speed = default_cpu_speed;
    processor_id = 0;
  };
  type8 = [];
  type9 = [];
  type11 = [];
  type17 = record {
    loc_pfx = none;
    bank = none;
    manufacturer = none;
    serial = none;
    asset = none;
    part = none;
    speed = 0;
  };
  type41 = [];
  type7_socket_designation = none;
  type26_description = none;
  type27_description = none;
  type28_description = none;
}
