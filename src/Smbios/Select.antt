-- ===== src/Smbios/Select.antt =====
-- smbios.c: which structures are built, and the defaults that the board gives (lines 511 to 546 and
-- 1171 to 1207).
use pve_anti_detection.Prelude.{
  ℕ, Bool, true, false, not, ◌&&◌, Option, none, some, Text, text, ltb, leb, ◌==◌, if◌then◌else◌,
}
use pve_anti_detection.Smbios.State.{
  Smbios, Error, EntryPointType, entry_point_auto, entry_point_32, entry_point_64, tables_too_long,
  type4_count_mismatch,
}

-- `none`: the count is as expected, or no structure of type 4 was built.
unfoldable pub smbios_check_type4_count : Smbios → ℕ → Option Error
smbios_check_type4_count s expected =
    if not (s.type4_count == 0) && not (s.type4_count == expected)
    then some (type4_count_mismatch expected s.type4_count)
    else none

abbrev pub smbios_21_max_tables_len : ℕ
smbios_21_max_tables_len = 0xffff

abbrev pub is_entry_point_32 : EntryPointType → Bool
is_entry_point_32 entry_point_32 = true
is_entry_point_32 entry_point_auto = false
is_entry_point_32 entry_point_64 = false

-- `none`: the tables fit the entry point.
unfoldable pub smbios_validate_table : Smbios → EntryPointType → Option Error
smbios_validate_table s ep_type =
    if is_entry_point_32 ep_type && ltb smbios_21_max_tables_len s.tables.tables_len
    then some (tables_too_long s.tables.tables_len)
    else none

unfoldable pub smbios_skip_table : Smbios → ℕ → Bool → Bool
smbios_skip_table s type required =
    if s.have_binfile type
    then true
    else (if s.have_fields type
        then false
        else (if s.have_defaults && required then false else true))

unfoldable pub smbios_set_cpuid : Smbios → ℕ → ℕ → Smbios
smbios_set_cpuid s version features = record s {
  cpuid_version = version;
  cpuid_features = features;
}

unfoldable pub smbios_set_default_processor_family : Smbios → ℕ → Smbios
smbios_set_default_processor_family s family =
    if leb s.type4.processor_family 0x01
    then record s { type4 = record (s.type4) { processor_family = family } }
    else s

-- `SMBIOS_SET_DEFAULT`
abbrev pub set_default : Option Text → Option Text → Option Text
set_default none value = value
set_default (some t) value = some t

unfoldable pub smbios_set_defaults : Smbios → Option Text → Option Text → Option Text → Smbios
smbios_set_defaults s manufacturer product version = record s {
  have_defaults = true;
  type1 = record (s.type1) {
    manufacturer = set_default s.type1.manufacturer manufacturer;
    product = set_default s.type1.product product;
    version = set_default s.type1.version version;
  };
  type2 = record (s.type2) {
    manufacturer = set_default s.type2.manufacturer manufacturer;
    product = set_default s.type2.product product;
    version = set_default s.type2.version version;
  };
  type3 = record (s.type3) {
    manufacturer = set_default s.type3.manufacturer manufacturer;
    version = set_default s.type3.version version;
  };
  type4 = record (s.type4) {
    sock_pfx = set_default s.type4.sock_pfx (some (text "CPU"));
    manufacturer = set_default s.type4.manufacturer manufacturer;
    version = set_default s.type4.version version;
  };
  type17 = record (s.type17) {
    loc_pfx = set_default s.type17.loc_pfx (some (text "DIMM"));
    manufacturer = set_default s.type17.manufacturer manufacturer;
  };
}
