-- ===== src/Smbios/Options.antt =====
-- smbios.c: the options that `-smbios` accepts for a file and for each type of structure, as the
-- descriptor arrays that `qemu_opts_validate` is given.
use Prim.Native.String.{String}
use pve_anti_detection.Prelude.{Option, none, some, List, [], ◌∷◌}

pub data OptType : Type 0 where
  opt_string opt_bool opt_number : OptType

-- A descriptor, without its help text.
pub record QemuOptDesc : Type 0 where
  pub name : Option String
  pub opt_type : OptType
  pub def_value_str : Option String

abbrev string_opt : String → QemuOptDesc
string_opt n = record { name = some n; opt_type = opt_string; def_value_str = none }

abbrev bool_opt : String → QemuOptDesc
bool_opt n = record { name = some n; opt_type = opt_bool; def_value_str = none }

abbrev number_opt : String → QemuOptDesc
number_opt n = record { name = some n; opt_type = opt_number; def_value_str = none }

-- The entry that ends an array of descriptors: an empty initializer.
abbrev end_of_list : QemuOptDesc
end_of_list = record { name = none; opt_type = opt_string; def_value_str = none }

abbrev pub qemu_smbios_file_opts : List QemuOptDesc
qemu_smbios_file_opts = string_opt "file" ∷ end_of_list ∷ []

abbrev pub qemu_smbios_type0_opts : List QemuOptDesc
qemu_smbios_type0_opts =
    number_opt "type"
    ∷ string_opt "vendor"
    ∷ string_opt "version"
    ∷ string_opt "date"
    ∷ string_opt "release"
    ∷ bool_opt "uefi"
    ∷ end_of_list
    ∷ []

abbrev pub qemu_smbios_type1_opts : List QemuOptDesc
qemu_smbios_type1_opts =
    number_opt "type"
    ∷ string_opt "manufacturer"
    ∷ string_opt "product"
    ∷ string_opt "version"
    ∷ string_opt "serial"
    ∷ string_opt "uuid"
    ∷ string_opt "sku"
    ∷ string_opt "family"
    ∷ end_of_list
    ∷ []

abbrev pub qemu_smbios_type2_opts : List QemuOptDesc
qemu_smbios_type2_opts =
    number_opt "type"
    ∷ string_opt "manufacturer"
    ∷ string_opt "product"
    ∷ string_opt "version"
    ∷ string_opt "serial"
    ∷ string_opt "asset"
    ∷ string_opt "location"
    ∷ end_of_list
    ∷ []

abbrev pub qemu_smbios_type3_opts : List QemuOptDesc
qemu_smbios_type3_opts =
    number_opt "type"
    ∷ string_opt "manufacturer"
    ∷ string_opt "version"
    ∷ string_opt "serial"
    ∷ string_opt "asset"
    ∷ string_opt "sku"
    ∷ end_of_list
    ∷ []

abbrev pub qemu_smbios_type4_opts : List QemuOptDesc
qemu_smbios_type4_opts =
    number_opt "type"
    ∷ string_opt "sock_pfx"
    ∷ string_opt "manufacturer"
    ∷ string_opt "version"
    ∷ number_opt "max-speed"
    ∷ number_opt "current-speed"
    ∷ string_opt "serial"
    ∷ string_opt "asset"
    ∷ string_opt "part"
    ∷ number_opt "processor-family"
    ∷ number_opt "processor-id"
    ∷ end_of_list
    ∷ []

abbrev pub qemu_smbios_type8_opts : List QemuOptDesc
qemu_smbios_type8_opts =
    number_opt "type"
    ∷ string_opt "internal_reference"
    ∷ string_opt "external_reference"
    ∷ number_opt "connector_type"
    ∷ number_opt "port_type"
    ∷ end_of_list
    ∷ []

-- The one array without such an entry: a search that does not find its name reads past its end.
abbrev pub qemu_smbios_type9_opts : List QemuOptDesc
qemu_smbios_type9_opts =
    number_opt "type"
    ∷ string_opt "slot_designation"
    ∷ number_opt "slot_type"
    ∷ number_opt "slot_data_bus_width"
    ∷ number_opt "current_usage"
    ∷ number_opt "slot_length"
    ∷ number_opt "slot_id"
    ∷ number_opt "slot_characteristics1"
    ∷ number_opt "slot_characteristics2"
    ∷ string_opt "pci_device"
    ∷ []

abbrev pub qemu_smbios_type11_opts : List QemuOptDesc
qemu_smbios_type11_opts =
    number_opt "type" ∷ string_opt "value" ∷ string_opt "path" ∷ end_of_list ∷ []

abbrev pub qemu_smbios_type17_opts : List QemuOptDesc
qemu_smbios_type17_opts =
    number_opt "type"
    ∷ string_opt "loc_pfx"
    ∷ string_opt "bank"
    ∷ string_opt "manufacturer"
    ∷ string_opt "serial"
    ∷ string_opt "asset"
    ∷ string_opt "part"
    ∷ number_opt "speed"
    ∷ end_of_list
    ∷ []

abbrev pub qemu_smbios_type41_opts : List QemuOptDesc
qemu_smbios_type41_opts =
    number_opt "type"
    ∷ string_opt "designation"
    ∷ record (string_opt "kind") { def_value_str = some "other" }
    ∷ number_opt "instance"
    ∷ string_opt "pcidev"
    ∷ end_of_list
    ∷ []
