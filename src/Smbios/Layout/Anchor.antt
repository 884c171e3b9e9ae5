-- ===== src/Smbios/Layout/Anchor.antt =====
-- smbios.h: the two entry points.
use pve_anti_detection.Prelude.{ℕ, List, [], ◌∷◌, ◌++◌}
use pve_anti_detection.Smbios.Layout.Fields.{Field, byte_fields}

-- SMBIOS 2.1 (32-bit)
pub record Smbios21EntryPoint : Type 0 where
  pub anchor_string : List ℕ
  pub checksum : ℕ
  pub length : ℕ
  pub smbios_major_version : ℕ
  pub smbios_minor_version : ℕ
  pub max_structure_size : ℕ
  pub entry_point_revision : ℕ
  pub formatted_area : List ℕ
  pub intermediate_anchor_string : List ℕ
  pub intermediate_checksum : ℕ
  pub structure_table_length : ℕ
  pub structure_table_address : ℕ
  pub number_of_structures : ℕ
  pub smbios_bcd_revision : ℕ

abbrev pub sizeof_entry_point_21 : ℕ
sizeof_entry_point_21 = 31

unfoldable pub entry_point_21_fields : Smbios21EntryPoint → List Field
entry_point_21_fields t =
    byte_fields t.anchor_string
    ++ ((1, t.checksum)
        ∷ (1, t.length)
        ∷ (1, t.smbios_major_version)
        ∷ (1, t.smbios_minor_version)
        ∷ (2, t.max_structure_size)
        ∷ (1, t.entry_point_revision)
        ∷ (byte_fields t.formatted_area
            ++ (byte_fields t.intermediate_anchor_string
                ++ ((1, t.intermediate_checksum)
                    ∷ (2, t.structure_table_length)
                    ∷ (4, t.structure_table_address)
                    ∷ (2, t.number_of_structures)
                    ∷ (1, t.smbios_bcd_revision)
                    ∷ []))))

-- SMBIOS 3.0 (64-bit)
pub record Smbios30EntryPoint : Type 0 where
  pub anchor_string : List ℕ
  pub checksum : ℕ
  pub length : ℕ
  pub smbios_major_version : ℕ
  pub smbios_minor_version : ℕ
  pub smbios_doc_rev : ℕ
  pub entry_point_revision : ℕ
  pub reserved : ℕ
  pub structure_table_max_size : ℕ
  pub structure_table_address : ℕ

abbrev pub sizeof_entry_point_30 : ℕ
sizeof_entry_point_30 = 24

unfoldable pub entry_point_30_fields : Smbios30EntryPoint → List Field
entry_point_30_fields t =
    byte_fields t.anchor_string
    ++ ((1, t.checksum)
        ∷ (1, t.length)
        ∷ (1, t.smbios_major_version)
        ∷ (1, t.smbios_minor_version)
        ∷ (1, t.smbios_doc_rev)
        ∷ (1, t.entry_point_revision)
        ∷ (1, t.reserved)
        ∷ (4, t.structure_table_max_size)
        ∷ (8, t.structure_table_address)
        ∷ [])
