-- ===== src/Smbios/Build/Lengths.antt =====
-- The lengths of the structures: what the headers say, and what lies in memory.
mod Each
pub use Each.{IsWhole, IsCut}
use Prim.Native.String.{String}
use pve_anti_detection.Prelude.{
  ℕ, ◌+◌, refl, List, Option, [], ◌∷◌, ◌++◌, length-take, length-drop, drop, u32, arith, Bool-cases,
  inl, inr,
}
use pve_anti_detection.Smbios.Layout.Fields.{Field, byte_fields, encode, size_of, length-encode}
use pve_anti_detection.Smbios.Layout.System.{
  SmbiosType1, sizeof_type_1, structure_header_fields, uuid_fields, type_0_fields, type_1_fields,
  type_2_fields, type_3_fields, type_32_fields, type_127_fields,
}
use pve_anti_detection.Smbios.Layout.Devices.{
  type_4_fields, type_7_fields, type_8_fields, type_9_fields, type_11_fields, type_41_fields,
}
use pve_anti_detection.Smbios.Layout.Memory.{
  type_16_fields, type_17_fields, type_19_fields, type_20_fields, type_37_fields,
}
use pve_anti_detection.Smbios.Layout.Sensors.{
  type_22_fields, type_26_fields, type_27_fields, type_28_fields, type_29_fields, type_39_fields,
}
use pve_anti_detection.Smbios.Table.{Structure, type_1, table_header, table_fields, table_bytes}
use pve_anti_detection.Smbios.State.{Smbios, Tables, Type9Instance, Type41Instance}
use pve_anti_detection.Smbios.Qemu.{Qemu}
use pve_anti_detection.Smbios.Build.System.{
  smbios_encode_uuid, type_1_structure, type_0_structure, type_2_structure, type_3_structure,
  type_32_structure, type_127_structure,
}
use pve_anti_detection.Smbios.Build.Processor.{
  Machine, type_4_len_v30, type_4_structure, type_7_structure,
}
use pve_anti_detection.Smbios.Build.Devices.{
  type_8_structure, type_9_structure, type_11_structure, type_41_structure,
}
use pve_anti_detection.Smbios.Build.Memory.{
  type_16_structure, type_17_structure, type_19_structure, type_20_structure, type_37_structure,
}
use pve_anti_detection.Smbios.Build.Sensors.{
  type_22_structure, type_26_structure, type_27_structure, type_28_structure, type_29_structure,
  type_39_structure,
}

module _ (q : Qemu) where
  -- The structures that the builders fill in, one of each type, and type 4 at version 3.0.
  abbrev pub all_structures :
      Machine
      → Smbios
      → Type9Instance
      → Type41Instance
      → List (Option (List ℕ))
      → Tables
      → String
      → (n cnt offset start size status configuration correction kind assoc segment bus device : ℕ)
      → List Structure
  all_structures ms s t9 t41 values tables what n cnt offset start size status configuration
        correction kind assoc segment bus device =
      type_0_structure q s
      ∷ type_1_structure q s
      ∷ type_2_structure q s
      ∷ type_3_structure q s
      ∷ type_4_structure q ms n type_4_len_v30 s
      ∷ type_7_structure q n what configuration size correction kind assoc
      ∷ type_8_structure q n
      ∷ type_9_structure q n t9 segment bus device
      ∷ type_11_structure q values
      ∷ type_16_structure q ms cnt
      ∷ type_17_structure q n size s
      ∷ type_19_structure q n offset start size
      ∷ type_20_structure q start size
      ∷ type_22_structure q tables
      ∷ type_26_structure q n what status
      ∷ type_27_structure q n what status
      ∷ type_28_structure q n what status
      ∷ type_29_structure q
      ∷ type_32_structure q
      ∷ type_37_structure q
      ∷ type_39_structure q
      ∷ type_41_structure q n t41 segment bus device
      ∷ type_127_structure q
      ∷ []
