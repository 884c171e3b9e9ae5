-- ===== src/Smbios/Tables/Anchors.antt =====
-- The entry points in memory, as firmware reads them.
use pve_anti_detection.Prelude.{◌^◌, ◌<◌, ◌≡◌, refl, none, arith, length, take, drop, le_value}
use pve_anti_detection.Smbios.Layout.Fields.{encode}
use pve_anti_detection.Smbios.Layout.Anchor.{
  sizeof_entry_point_21, entry_point_21_fields, sizeof_entry_point_30, entry_point_30_fields,
}
use pve_anti_detection.Smbios.State.{Smbios, entry_point_32}
use pve_anti_detection.Smbios.Select.{smbios_validate_table}
use pve_anti_detection.Smbios.Tables.{entry_point_21, entry_point_30}

-- Where the check of the length passes, the 31 bytes of the 2.1 entry point hold the length of the
-- tables, at offset 22, and, at offset 28, the count of the structures, if it fits 16 bits.
pub smbios_validate_table-entry_point_21 :
    (s : Smbios)
    → smbios_validate_table s entry_point_32 ≡ none
    → s.tables.table_cnt < 2 ^ 16
    → let memory = encode (entry_point_21_fields (entry_point_21 s)) in
      (length memory ≡ sizeof_entry_point_21)
      × (le_value (take 2 (drop 22 memory)) ≡ s.tables.tables_len)
      × (le_value (take 2 (drop 28 memory)) ≡ s.tables.table_cnt)
unfolding smbios_validate_table entry_point_21 entry_point_21_fields encode
smbios_validate_table-entry_point_21 s valid few = (refl, ground arith, ground arith)

-- The 24 bytes of the 3.0 entry point hold the length of the tables, at offset 12, if it fits 32 bits.
pub encode-entry_point_30 :
    (s : Smbios)
    → s.tables.tables_len < 2 ^ 32
    → let memory = encode (entry_point_30_fields (entry_point_30 s)) in
      (length memory ≡ sizeof_entry_point_30)
      × (le_value (take 4 (drop 12 memory)) ≡ s.tables.tables_len)
unfolding entry_point_30 entry_point_30_fields encode
encode-entry_point_30 s h = (refl, ground arith)
