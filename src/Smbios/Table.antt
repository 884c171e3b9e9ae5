-- ===== src/Smbios/Table.antt =====
-- A finished structure: the record that the program filled in, and the strings behind it.
use pve_anti_detection.Prelude.{ℕ, List, Text, take}
use pve_anti_detection.Smbios.Layout.Fields.{Field, encode}
use pve_anti_detection.Smbios.Layout.System.{
  SmbiosStructureHeader, SmbiosType0, type_0_fields, SmbiosType1, type_1_fields, SmbiosType2,
  type_2_fields, SmbiosType3, type_3_fields, SmbiosType32, type_32_fields, SmbiosType127,
  type_127_fields,
}
use pve_anti_detection.Smbios.Layout.Devices.{
  SmbiosType4, type_4_fields, SmbiosType7, type_7_fields, SmbiosType8, type_8_fields, SmbiosType9,
  type_9_fields, SmbiosType11, type_11_fields, SmbiosType41, type_41_fields,
}
use pve_anti_detection.Smbios.Layout.Memory.{
  SmbiosType16, type_16_fields, SmbiosType17, type_17_fields, SmbiosType19, type_19_fields,
  SmbiosType20, type_20_fields, SmbiosType37, type_37_fields,
}
use pve_anti_detection.Smbios.Layout.Sensors.{
  SmbiosType22, type_22_fields, SmbiosType26, type_26_fields, SmbiosType27, type_27_fields,
  SmbiosType28, type_28_fields, SmbiosType29, type_29_fields, SmbiosType39, type_39_fields,
}

pub data Table : Type 0 where
  type_0 : SmbiosType0 → Table
  type_1 : SmbiosType1 → Table
  type_2 : SmbiosType2 → Table
  type_3 : SmbiosType3 → Table
  type_4 : SmbiosType4 → Table
  type_7 : SmbiosType7 → Table
  type_8 : SmbiosType8 → Table
  type_9 : SmbiosType9 → Table
  type_11 : SmbiosType11 → Table
  type_16 : SmbiosType16 → Table
  type_17 : SmbiosType17 → Table
  type_19 : SmbiosType19 → Table
  type_20 : SmbiosType20 → Table
  type_22 : SmbiosType22 → Table
  type_26 : SmbiosType26 → Table
  type_27 : SmbiosType27 → Table
  type_28 : SmbiosType28 → Table
  type_29 : SmbiosType29 → Table
  type_32 : SmbiosType32 → Table
  type_37 : SmbiosType37 → Table
  type_39 : SmbiosType39 → Table
  type_41 : SmbiosType41 → Table
  type_127 : SmbiosType127 → Table

abbrev pub table_header : Table → SmbiosStructureHeader
table_header (type_0 t) = t.header
table_header (type_1 t) = t.header
table_header (type_2 t) = t.header
table_header (type_3 t) = t.header
table_header (type_4 t) = t.header
table_header (type_7 t) = t.header
table_header (type_8 t) = t.header
table_header (type_9 t) = t.header
table_header (type_11 t) = t.header
table_header (type_16 t) = t.header
table_header (type_17 t) = t.header
table_header (type_19 t) = t.header
table_header (type_20 t) = t.header
table_header (type_22 t) = t.header
table_header (type_26 t) = t.header
table_header (type_27 t) = t.header
table_header (type_28 t) = t.header
table_header (type_29 t) = t.header
table_header (type_32 t) = t.header
table_header (type_37 t) = t.header
table_header (type_39 t) = t.header
table_header (type_41 t) = t.header
table_header (type_127 t) = t.header

unfoldable pub table_fields : Table → List Field
table_fields (type_0 t) = type_0_fields t
table_fields (type_1 t) = type_1_fields t
table_fields (type_2 t) = type_2_fields t
table_fields (type_3 t) = type_3_fields t
table_fields (type_4 t) = type_4_fields t
table_fields (type_7 t) = type_7_fields t
table_fields (type_8 t) = type_8_fields t
table_fields (type_9 t) = type_9_fields t
table_fields (type_11 t) = type_11_fields t
table_fields (type_16 t) = type_16_fields t
table_fields (type_17 t) = type_17_fields t
table_fields (type_19 t) = type_19_fields t
table_fields (type_20 t) = type_20_fields t
table_fields (type_22 t) = type_22_fields t
table_fields (type_26 t) = type_26_fields t
table_fields (type_27 t) = type_27_fields t
table_fields (type_28 t) = type_28_fields t
table_fields (type_29 t) = type_29_fields t
table_fields (type_32 t) = type_32_fields t
table_fields (type_37 t) = type_37_fields t
table_fields (type_39 t) = type_39_fields t
table_fields (type_41 t) = type_41_fields t
table_fields (type_127 t) = type_127_fields t

pub record Structure : Type 0 where
  pub table : Table
  pub strings : List Text

-- The handle by which other structures refer to this one.
abbrev pub handle_of : Structure → ℕ
handle_of s = (table_header s.table).handle

abbrev pub type_of : Structure → ℕ
type_of s = (table_header s.table).type

-- The formatted area in memory: the first `length` bytes of the structure, as its header says.
unfoldable pub table_bytes : Table → List ℕ
unfolding table_fields encode
table_bytes t = take (table_header t).length (encode (table_fields t))
