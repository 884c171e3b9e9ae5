-- ===== src/Smbios/Build/Lengths/Each.antt =====
-- The length of each structure.
use Prim.Native.String.{String}
use pve_anti_detection.Prelude.{
  ℕ, ◌+◌, ◌≡◌, refl, List, Option, [], ◌∷◌, ◌++◌, length, length-take, length-drop, drop, u32,
  arith, Bool-cases, inl, inr,
}
use pve_anti_detection.Smbios.Layout.Fields.{Field, byte_fields, encode, size_of, length-encode}
use pve_anti_detection.Smbios.Layout.System.{
  SmbiosType1, sizeof_type_1, structure_header_fields, uuid_fields, type_0_fields, type_1_fields,
  type_2_fields, type_3_fields, type_32_fields, type_127_fields,
}
use pve_anti_detection.Smbios.Layout.Devices.{
  type_4_fields, type_7_fields, type_8_fields, type_9_fields, type_11_fields, type_41_fields,
}
use pve_anti_detection.Smbios.Layout.Memory.{
  type_16_fields, type_17_fields, type_19_fields, type_20_fields, type_37_fields,
}
use pve_anti_detection.Smbios.Layout.Sensors.{
  type_22_fields, type_26_fields, type_27_fields, type_28_fields, type_29_fields, type_39_fields,
}
use pve_anti_detection.Smbios.Table.{Structure, type_1, table_header, table_fields, table_bytes}
use pve_anti_detection.Smbios.State.{Smbios, Tables, Type9Instance, Type41Instance}
use pve_anti_detection.Smbios.Qemu.{Qemu}
use pve_anti_detection.Smbios.Assumptions.{WritesHeaders}
use pve_anti_detection.Smbios.Build.System.{
  smbios_encode_uuid, type_1_structure, type_0_structure, type_2_structure, type_3_structure,
  type_32_structure, type_127_structure,
}
use pve_anti_detection.Smbios.Build.Processor.{
  Machine, type_4_len_v28, type_4_len_v30, type_4_structure, type_7_structure,
}
use pve_anti_detection.Smbios.Build.Devices.{
  type_8_structure, type_9_structure, type_11_structure, type_41_structure,
}
use pve_anti_detection.Smbios.Build.Memory.{
  type_16_structure, type_17_structure, type_19_structure, type_20_structure, type_37_structure,
}
use pve_anti_detection.Smbios.Build.Sensors.{
  type_22_structure, type_26_structure, type_27_structure, type_28_structure, type_29_structure,
  type_39_structure,
}

-- The formatted area is as long as its header says, and ends with the structure's last field.
abbrev pub IsWhole : Structure → Type 0
IsWhole x =
    (length (table_bytes x.table) ≡ (table_header x.table).length)
    × (size_of (table_fields x.table) ≡ (table_header x.table).length)

-- The formatted area is as long as its header says, and the three counts of 16 bits after it are cut off.
abbrev pub IsCut : Structure → Type 0
IsCut x =
    (length (table_bytes x.table) ≡ (table_header x.table).length)
    × (size_of (table_fields x.table) ≡ (table_header x.table).length + 6)

size_of-byte_fields :
    (bs : List ℕ) (fs : List Field) → size_of (byte_fields bs ++ fs) ≡ length bs + size_of fs
unfolding size_of
size_of-byte_fields [] fs = omega arith
size_of-byte_fields (b ∷ bs) fs = omega (arith, size_of-byte_fields bs fs)

-- The last six bytes of a UUID of sixteen.
length-node : (u : List ℕ) → length u ≡ 16 → length (smbios_encode_uuid u).node ≡ 6
unfolding smbios_encode_uuid
length-node u h = length-take 6 (drop 10 u) (omega (arith, length-drop 10 u))

size_of-type_1_fields :
    (t : SmbiosType1) → length t.uuid.node ≡ 6 → size_of (type_1_fields t) ≡ sizeof_type_1
unfolding size_of type_1_fields structure_header_fields uuid_fields
size_of-type_1_fields t six = omega (
  arith,
  size_of-byte_fields t.uuid.node
      ((1, t.wake_up_type) ∷ (1, t.sku_number_str) ∷ (1, t.family_str) ∷ []),
)

type_1_whole :
    (t : SmbiosType1)
    → t.header.length ≡ sizeof_type_1
    → length t.uuid.node ≡ 6
    → (length (table_bytes (type_1 t)) ≡ t.header.length)
      × (size_of (table_fields (type_1 t)) ≡ t.header.length)
unfolding table_bytes table_fields
type_1_whole t e six = (
  length-take t.header.length (encode (type_1_fields t))
      (omega (arith, length-encode (type_1_fields t), size_of-type_1_fields t six)),
  omega (arith, e, size_of-type_1_fields t six),
)

module _ (q : Qemu) (w : WritesHeaders q) where
  pub type_0-IsWhole : (s : Smbios) → IsWhole (type_0_structure q s)
  unfolding type_0_structure table_bytes table_fields encode size_of type_0_fields
      structure_header_fields
  type_0-IsWhole s = rw (w.header_lem 0 24 0) (refl, refl)

  pub type_2-IsWhole : (s : Smbios) → IsWhole (type_2_structure q s)
  unfolding type_2_structure table_bytes table_fields encode size_of type_2_fields
      structure_header_fields
  type_2-IsWhole s = rw (w.header_lem 2 15 0x200) (refl, refl)

  pub type_3-IsWhole : (s : Smbios) → IsWhole (type_3_structure q s)
  unfolding type_3_structure table_bytes table_fields encode size_of type_3_fields
      structure_header_fields
  type_3-IsWhole s = rw (w.header_lem 3 22 0x300) (refl, refl)

  pub type_7-IsWhole :
      (n : ℕ) (what : String) (configuration size correction kind assoc : ℕ)
      → IsWhole (type_7_structure q n what configuration size correction kind assoc)
  unfolding type_7_structure table_bytes table_fields encode size_of type_7_fields
      structure_header_fields
  type_7-IsWhole n what configuration size correction kind assoc =
      rw (w.header_lem 7 19 (0x700 + n)) (refl, refl)

  pub type_8-IsWhole : (n : ℕ) → IsWhole (type_8_structure q n)
  unfolding type_8_structure table_bytes table_fields encode size_of type_8_fields
      structure_header_fields
  type_8-IsWhole n = rw (w.header_lem 8 9 (0x000 + n)) (refl, refl)

  pub type_9-IsWhole :
      (n : ℕ) (t9 : Type9Instance) (segment bus device : ℕ)
      → IsWhole (type_9_structure q n t9 segment bus device)
  unfolding type_9_structure table_bytes table_fields encode size_of type_9_fields
      structure_header_fields
  type_9-IsWhole n t9 segment bus device = rw (w.header_lem 9 17 (0x900 + n)) (refl, refl)

  pub type_11-IsWhole : (values : List (Option (List ℕ))) → IsWhole (type_11_structure q values)
  unfolding type_11_structure table_bytes table_fields encode size_of type_11_fields
      structure_header_fields
  type_11-IsWhole values = rw (w.header_lem 11 5 0xe00) (refl, refl)

  pub type_16-IsWhole : (ms : Machine) (cnt : ℕ) → IsWhole (type_16_structure q ms cnt)
  unfolding type_16_structure table_bytes table_fields encode size_of type_16_fields
      structure_header_fields
  type_16-IsWhole ms cnt = rw (w.header_lem 16 23 0x1000) (refl, refl)

  pub type_17-IsWhole : (n size : ℕ) (s : Smbios) → IsWhole (type_17_structure q n size s)
  unfolding type_17_structure table_bytes table_fields encode size_of type_17_fields
      structure_header_fields
  type_17-IsWhole n size s = rw (w.header_lem 17 40 (0x1100 + n)) (refl, refl)

  pub type_19-IsWhole :
      (n offset start size : ℕ) → IsWhole (type_19_structure q n offset start size)
  unfolding type_19_structure table_bytes table_fields encode size_of type_19_fields
      structure_header_fields
  type_19-IsWhole n offset start size =
      rw (w.header_lem 19 31 (u32 (0x1300 + offset + n))) (refl, refl)

  pub type_20-IsWhole : (start size : ℕ) → IsWhole (type_20_structure q start size)
  unfolding type_20_structure table_bytes table_fields encode size_of type_20_fields
      structure_header_fields
  type_20-IsWhole start size = rw (w.header_lem 20 19 0x1400) (refl, refl)

  pub type_22-IsWhole : (tables : Tables) → IsWhole (type_22_structure q tables)
  unfolding type_22_structure table_bytes table_fields encode size_of type_22_fields
      structure_header_fields
  type_22-IsWhole tables = rw (w.header_lem 22 26 0x1600) (refl, refl)

  pub type_26-IsWhole :
      (n : ℕ) (what : String) (status : ℕ) → IsWhole (type_26_structure q n what status)
  unfolding type_26_structure table_bytes table_fields encode size_of type_26_fields
      structure_header_fields
  type_26-IsWhole n what status = rw (w.header_lem 26 22 (0x1A00 + n)) (refl, refl)

  pub type_27-IsWhole :
      (n : ℕ) (what : String) (status : ℕ) → IsWhole (type_27_structure q n what status)
  unfolding type_27_structure table_bytes table_fields encode size_of type_27_fields
      structure_header_fields
  type_27-IsWhole n what status = rw (w.header_lem 27 15 (0x1B00 + n)) (refl, refl)

  pub type_28-IsWhole :
      (n : ℕ) (what : String) (status : ℕ) → IsWhole (type_28_structure q n what status)
  unfolding type_28_structure table_bytes table_fields encode size_of type_28_fields
      structure_header_fields
  type_28-IsWhole n what status = rw (w.header_lem 28 22 (0x1C00 + n)) (refl, refl)

  pub type_29-IsWhole : IsWhole (type_29_structure q)
  unfolding type_29_structure table_bytes table_fields encode size_of type_29_fields
      structure_header_fields
  type_29-IsWhole = rw (w.header_lem 29 5 0x1D00) (refl, refl)

  pub type_32-IsWhole : IsWhole (type_32_structure q)
  unfolding table_bytes table_fields encode size_of type_32_fields structure_header_fields
  type_32-IsWhole = rw (w.header_lem 32 11 0x2000) (refl, refl)

  pub type_37-IsWhole : IsWhole (type_37_structure q)
  unfolding table_bytes table_fields encode size_of type_37_fields structure_header_fields
  type_37-IsWhole = rw (w.header_lem 37 4 0x2500) (refl, refl)

  pub type_39-IsWhole : IsWhole (type_39_structure q)
  unfolding type_39_structure table_bytes table_fields encode size_of type_39_fields
      structure_header_fields
  type_39-IsWhole = rw (w.header_lem 39 5 0x2700) (refl, refl)

  pub type_41-IsWhole :
      (n : ℕ) (t41 : Type41Instance) (segment bus device : ℕ)
      → IsWhole (type_41_structure q n t41 segment bus device)
  unfolding type_41_structure table_bytes table_fields encode size_of type_41_fields
      structure_header_fields
  type_41-IsWhole n t41 segment bus device = rw (w.header_lem 41 11 (0x2900 + n)) (refl, refl)

  pub type_127-IsWhole : IsWhole (type_127_structure q)
  unfolding table_bytes table_fields encode size_of type_127_fields structure_header_fields
  type_127-IsWhole = rw (w.header_lem 127 4 0x7F00) (refl, refl)

  pub type_1-IsWhole : (s : Smbios) → length s.qemu_uuid ≡ 16 → IsWhole (type_1_structure q s)
  unfolding type_1_structure
  type_1-IsWhole s h =
      type_1_whole _ (rw (w.header_lem 1 27 0x100) refl) (elim (Bool-cases s.qemu_uuid_set) [
        | inl e ↦ rw e (length-node s.qemu_uuid h)
        | inr e ↦ rw e refl
      ])

  pub type_4_v28-IsCut :
      (ms : Machine) (n : ℕ) (s : Smbios) → IsCut (type_4_structure q ms n type_4_len_v28 s)
  unfolding type_4_structure table_bytes table_fields encode size_of type_4_fields
      structure_header_fields
  type_4_v28-IsCut ms n s = rw (w.header_lem 4 42 (0x400 + n)) (refl, refl)

  pub type_4_v30-IsWhole :
      (ms : Machine) (n : ℕ) (s : Smbios) → IsWhole (type_4_structure q ms n type_4_len_v30 s)
  unfolding type_4_structure table_bytes table_fields encode size_of type_4_fields
      structure_header_fields
  type_4_v30-IsWhole ms n s = rw (w.header_lem 4 48 (0x400 + n)) (refl, refl)
